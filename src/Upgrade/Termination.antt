-- ===== src/Upgrade/Termination.antt =====
-- Termination of the loop of RunStateMachine in pkg/controllers/milvusupgrade_fsm.go.
use milvus_operator.Base.{
  ℕ, zero, suc, ◌≤◌, ◌<◌, false, Option, none, some, Error, errorf, ◌≡◌, refl, ap, subst, ◌∙◌, inl,
  inr, arith, Option-cases,
}
use milvus_operator.Upgrade.{UpgradeState, MilvusUpgrade}
use milvus_operator.Upgrade.Server.{Server, Job}
use milvus_operator.Upgrade.Handlers.{Answer, state_func}
use milvus_operator.Upgrade.Machine.{
  is_pending, determine_current_state, update_condition, run_state_machine, finish, fuel, loaded,
  Outcome, enter, conclude, run_loop,
}
use milvus_operator.Upgrade.Frame.{Core, core, core_of}
use milvus_operator.Upgrade.Transitions.{
  Step, backup, backuped, backup_fails, change, changed, change_fails, succeed, retry, roll_back,
  restore, restored, restore_fails, rolled_back, Steps, here, step, rank,
}
use milvus_operator.Upgrade.Conformance.{Ran, halts, goes, StateRan, state_func-Ran}
use milvus_operator.Base.{Result-cases}

Step-not_pending : {c d : Core} → Step c d → is_pending d.state ≡ false
Step-not_pending (backup h) = refl
Step-not_pending (backuped h) = refl
Step-not_pending (backup_fails h) = refl
Step-not_pending (change h) = rw h refl
Step-not_pending (changed h q) = refl
Step-not_pending (change_fails h q) = refl
Step-not_pending (succeed h) = refl
Step-not_pending (retry h q) = refl
Step-not_pending (roll_back h q) = refl
Step-not_pending (restore h) = refl
Step-not_pending (restored h) = refl
Step-not_pending (restore_fails h q) = refl
Step-not_pending (rolled_back h) = refl

rank-bounded : (s : UpgradeState) → rank s ≤ 8
rank-bounded s = ground arith

rank-positive : (s : UpgradeState) → 0 < rank s
rank-positive s = ground arith

-- The upgrade in the state that it runs from.
abbrev pub determined : MilvusUpgrade → MilvusUpgrade
determined u = record u { status = determine_current_state u.spec.operation u.status }

module _ {W : Type 0} (srv : Server W) where
  abbrev pub Ends : Option (Outcome srv) → Core → Type 0
  Ends r c = (o : Outcome srv) × (r ≡ some o) × Steps c (core_of srv o.job)

  abbrev failed_at : UpgradeState → Job W → Outcome srv
  failed_at s j = record {
    returned = some (errorf "Unexpected upgrade state[%s]");
    seen = none;
    job = enter srv s j;
  }

  abbrev done_at : UpgradeState → Job W → Outcome srv
  done_at s j = record { returned = none; seen = none; job = enter srv s j }

  conclude-Ends :
      (n : ℕ) (s : UpgradeState) (c : Core) (a : Answer srv)
      → Ran srv s c a
      → rank s ≤ suc n
      → ((next : UpgradeState) (j : Job W)
          → rank next ≤ n
          → Ends (run_loop srv n next j) (record (core_of srv j) { state = next }))
      → Ends (conclude srv a (run_loop srv n a.0.0 a.1)) c
  conclude-Ends n s c ((next, some e), j) (halts q st) r h = (_, refl, st)
  conclude-Ends n s c ((next, none), j) (halts q st) r h =
      (record { returned = none; seen = none; job = j }, rw q refl, st)
  conclude-Ends n s c ((next, none), j) (goes st less) r h =
      let (o, e, rest) = h next j (omega (arith, less, r)) in
      (o, rw (Step-not_pending st) e, step st rest)

  run_loop-Ends :
      (n : ℕ) (s : UpgradeState) (j : Job W)
      → rank s ≤ n
      → Ends (run_loop srv n s j) (record (core_of srv j) { state = s })
  unfolding run_loop
  run_loop-Ends zero s j r = absurd (omega (arith, rank-positive s, r))
  run_loop-Ends (suc n) s j r = elim (Option-cases (state_func srv s)) [
    | inl q ↦ (failed_at s j, rw (run_loop, q) refl, here)
    | inr (func, q) ↦ elim (Option-cases func) [
      | inl p ↦ (done_at s j, rw (run_loop, q, p) refl, here)
      | inr (f, p) ↦
          let ran : StateRan srv s (some (some f)) =
            subst (λ x. StateRan srv s x) (q ∙ ap some p) (state_func-Ran srv s) in
          let (o, e, st) =
            conclude-Ends n s _ (f (enter srv s j)) (ran (enter srv s j) refl) r
              (λ next k less. run_loop-Ends n next k less) in
          (o, rw (run_loop, q, p) e, st)
    ]
  ]

  -- A pass that ends, and the transitions that it made.
  abbrev pub Passes : Core → Option (Option Error × (MilvusUpgrade × W)) → Type 0
  Passes c r =
      (e : Option Error) × (u : MilvusUpgrade) × (w : W) × (r ≡ some (e, (u, w))) × Steps c (core u)

  finish-Passes : (c : Core) (r : Option (Outcome srv)) → Ends r c → Passes c (finish srv r)
  unfolding update_condition
  finish-Passes c r (o, e, st) = rw e (_, _, _, refl, st)

  -- A pass of the state machine ends within its fuel whatever the server answers, and takes the
  -- upgrade from the state that it determines, by transitions of the relation, to the state that
  -- it leaves to be stored.
  pub run_state_machine-Passes :
      (u : MilvusUpgrade) (w : W) → Passes (core (determined u)) (run_state_machine srv u w)
  unfolding run_state_machine
  run_state_machine-Passes u w =
      let r = srv.get_milvus w in
      elim (Result-cases r.0) [
        | inl (e, q) ↦ rw (run_state_machine, q) (_, _, _, refl, here)
        | inr (m, q) ↦
            rw (run_state_machine, q)
              (finish-Passes _ _ (
                run_loop-Ends fuel (determined u).status.state
                  (loaded srv u (determined u).status m r.1)
                  (rank-bounded (determined u).status.state)))
      ]
