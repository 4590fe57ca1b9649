-- ===== src/Upgrade/Invariant.antt =====
-- The well-formed upgrades, for the state machine of pkg/controllers/milvusupgrade_fsm.go.
use milvus_operator.Base.{
  Bool, true, false, ◌||◌, Option, some, Error, ◌≡◌, refl, sym, ◌∙◌, ◌⊎◌, inl, inr, arith,
}
use milvus_operator.Base.Int.{ℤ, pos, ◌+ℤ◌, ltb_ℤ, ◌≤ℤ◌}
use milvus_operator.Upgrade.{
  UpgradeState, pending, old_version_stopping, updating_meta, new_version_starting, succeeded,
  update_meta_failed, rollback_new_version_stopping, rollback_restoring_old_meta,
  rollback_old_version_starting, rollback_succeeded, rollback_failed, Operation, rollback_operation,
  is_state_in, UpgradeStatus, MilvusUpgrade,
}
use milvus_operator.Upgrade.Server.{Server}
use milvus_operator.Upgrade.Machine.{
  determine_current_state, set_state, is_rollback, run_state_machine, not_rollback_states,
  is_pending,
}
use milvus_operator.Upgrade.Frame.{Core, core}
use milvus_operator.Upgrade.Transitions.{
  Step, backup, backuped, backup_fails, change, changed, change_fails, succeed, retry, roll_back,
  restore, restored, restore_fails, rolled_back, Steps, here, step,
}
use milvus_operator.Base.{if-all}
use milvus_operator.Upgrade.Termination.{determined, run_state_machine-Passes}

abbrev pub is_rollback_state : UpgradeState → Bool
is_rollback_state rollback_new_version_stopping = true
is_rollback_state rollback_restoring_old_meta = true
is_rollback_state rollback_old_version_starting = true
is_rollback_state rollback_succeeded = true
is_rollback_state rollback_failed = true
is_rollback_state _ = false

-- The states that come after a backup, and those that come after a change of the metadata.
abbrev pub is_after_backup : UpgradeState → Bool
is_after_backup updating_meta = true
is_after_backup new_version_starting = true
is_after_backup succeeded = true
is_after_backup update_meta_failed = true
is_after_backup _ = false

abbrev pub is_after_change : UpgradeState → Bool
is_after_change new_version_starting = true
is_after_change succeeded = true
is_after_change update_meta_failed = true
is_after_change _ = false

-- The well-formed upgrades: rolling back is exactly being in a state of the rollback, the metadata
-- changes only after its backup, and a backup is tried again at most `max_retry` times.
pub record Valid (c : Core) : Type 0 where
  pub rollback_flag : is_rollback_state c.state ≡ c.is_rollbacking
  pub backup_taken : is_after_backup c.state ≡ true → c.meta_backuped ≡ true
  pub change_made : is_after_change c.state ≡ true → c.meta_storage_changed ≡ true
  pub backup_first : c.meta_storage_changed ≡ true → c.meta_backuped ≡ true
  pub retries : (c.retried_times ≡ pos 0) ⊎ (c.retried_times ≤ℤ c.spec.max_retry)

within : (m r : ℤ) → ltb_ℤ m r ≡ false → r ≤ℤ m
within m r h = ground arith

Step-Valid : {c d : Core} → Step c d → Valid c → Valid d
Step-Valid (backup h) v = record {
  rollback_flag = rw h at v.rollback_flag;
  backup_taken = λ e. ground arith;
  change_made = λ e. ground arith;
  backup_first = v.backup_first;
  retries = v.retries;
}
Step-Valid (backuped h) v = record {
  rollback_flag = rw h at v.rollback_flag;
  backup_taken = λ e. refl;
  change_made = λ e. ground arith;
  backup_first = λ e. refl;
  retries = v.retries;
}
Step-Valid (backup_fails h) v = record {
  rollback_flag = rw h at v.rollback_flag;
  backup_taken = λ e. ground arith;
  change_made = λ e. ground arith;
  backup_first = v.backup_first;
  retries = v.retries;
}
Step-Valid (change h) v = record {
  rollback_flag = v.rollback_flag;
  backup_taken = v.backup_taken;
  change_made = λ e. refl;
  backup_first = λ e. v.backup_taken (rw h refl);
  retries = v.retries;
}
Step-Valid (changed h q) v = record {
  rollback_flag = rw h at v.rollback_flag;
  backup_taken = λ e. v.backup_taken (rw h refl);
  change_made = λ e. q;
  backup_first = v.backup_first;
  retries = v.retries;
}
Step-Valid (change_fails h q) v = record {
  rollback_flag = rw h at v.rollback_flag;
  backup_taken = λ e. v.backup_taken (rw h refl);
  change_made = λ e. q;
  backup_first = v.backup_first;
  retries = v.retries;
}
Step-Valid (succeed h) v = record {
  rollback_flag = rw h at v.rollback_flag;
  backup_taken = λ e. v.backup_taken (rw h refl);
  change_made = λ e. v.change_made (rw h refl);
  backup_first = v.backup_first;
  retries = v.retries;
}
Step-Valid {c = c} (retry h q) v = record {
  rollback_flag = rw h at v.rollback_flag;
  backup_taken = λ e. ground arith;
  change_made = λ e. ground arith;
  backup_first = v.backup_first;
  retries = inr (within c.spec.max_retry (c.retried_times +ℤ pos 1) q);
}
Step-Valid (roll_back h q) v = record {
  rollback_flag = refl;
  backup_taken = λ e. ground arith;
  change_made = λ e. ground arith;
  backup_first = v.backup_first;
  retries = v.retries;
}
Step-Valid (restore h) v = record {
  rollback_flag = rw h at v.rollback_flag;
  backup_taken = λ e. ground arith;
  change_made = λ e. ground arith;
  backup_first = v.backup_first;
  retries = v.retries;
}
Step-Valid (restored h) v = record {
  rollback_flag = rw h at v.rollback_flag;
  backup_taken = λ e. ground arith;
  change_made = λ e. ground arith;
  backup_first = v.backup_first;
  retries = v.retries;
}
Step-Valid (restore_fails h q) v = record {
  rollback_flag = rw h at v.rollback_flag;
  backup_taken = λ e. ground arith;
  change_made = λ e. ground arith;
  backup_first = v.backup_first;
  retries = v.retries;
}
Step-Valid (rolled_back h) v = record {
  rollback_flag = rw h at v.rollback_flag;
  backup_taken = λ e. ground arith;
  change_made = λ e. ground arith;
  backup_first = v.backup_first;
  retries = v.retries;
}

Steps-Valid : {c d : Core} → Steps c d → Valid c → Valid d
Steps-Valid here v = v
Steps-Valid (step st rest) v = Steps-Valid rest (Step-Valid st v)

abbrev rolling_back : UpgradeStatus → UpgradeStatus
rolling_back st = record st { is_rollbacking = true; state = rollback_new_version_stopping }

pending_state : (s : UpgradeState) → is_pending s ≡ true → s ≡ pending
pending_state s h = ground arith

determine-cases :
    (op : Operation) (st : UpgradeStatus)
    → (determine_current_state op st ≡ rolling_back st)
      ⊎ ((determine_current_state op st ≡ st)
          ⊎ ((st.state ≡ pending)
              × (determine_current_state op st ≡ set_state old_version_stopping st)))
unfolding determine_current_state
determine-cases op st =
    let P : UpgradeStatus → Type 0 = λ x.
      (x ≡ rolling_back st)
      ⊎ ((x ≡ st) ⊎ ((st.state ≡ pending) × (x ≡ set_state old_version_stopping st))) in
    if-all P (st.is_rollbacking || is_rollback op) _ _
      (λ q.
        if-all P (is_state_in st.state not_rollback_states) _ _ (λ r. inl refl)
          (λ r. inr (inl refl)))
      (λ q.
        if-all P (is_pending st.state) _ _ (λ r. inr (inr (pending_state st.state r, refl)))
          (λ r. inr (inl refl)))

determined-Valid : (u : MilvusUpgrade) → Valid (core u) → Valid (core (determined u))
determined-Valid u v = elim (determine-cases u.spec.operation u.status) [
  | inl e ↦ rw e (record {
    rollback_flag = refl;
    backup_taken = λ e. ground arith;
    change_made = λ e. ground arith;
    backup_first = v.backup_first;
    retries = v.retries;
  })
  | inr (inl e) ↦ rw e v
  | inr (inr (h, e)) ↦ rw e (record {
    rollback_flag = rw h at v.rollback_flag;
    backup_taken = λ e. ground arith;
    change_made = λ e. ground arith;
    backup_first = v.backup_first;
    retries = v.retries;
  })
]

Step-rollbacking : {c d : Core} → Step c d → c.is_rollbacking ≡ true → d.is_rollbacking ≡ true
Step-rollbacking (backup h) r = r
Step-rollbacking (backuped h) r = r
Step-rollbacking (backup_fails h) r = r
Step-rollbacking (change h) r = r
Step-rollbacking (changed h q) r = r
Step-rollbacking (change_fails h q) r = r
Step-rollbacking (succeed h) r = r
Step-rollbacking (retry h q) r = r
Step-rollbacking (roll_back h q) r = refl
Step-rollbacking (restore h) r = r
Step-rollbacking (restored h) r = r
Step-rollbacking (restore_fails h q) r = r
Step-rollbacking (rolled_back h) r = r

Steps-rollbacking : {c d : Core} → Steps c d → c.is_rollbacking ≡ true → d.is_rollbacking ≡ true
Steps-rollbacking here r = r
Steps-rollbacking (step st rest) r = Steps-rollbacking rest (Step-rollbacking st r)

pub true-ne-false : true ≡ false → ⊥
true-ne-false h = ground arith

neither :
    (b : Bool) (op : Operation)
    → (b || is_rollback op) ≡ false
    → (b ≡ true) ⊎ (op ≡ rollback_operation)
    → ⊥
neither b op h (inl e) = ground arith
neither b op h (inr e) = ground arith

asks : {A B C : Type 0} → A ⊎ (B × C) → A ⊎ B
asks (inl a) = inl a
asks (inr (b, c)) = inr b

determined-rollbacking :
    (u : MilvusUpgrade)
    → (u.status.is_rollbacking ≡ true)
      ⊎ ((u.spec.operation ≡ rollback_operation)
          × (is_state_in u.status.state not_rollback_states ≡ true))
    → (determined u).status.is_rollbacking ≡ true
unfolding determine_current_state
determined-rollbacking u h =
    let P : UpgradeStatus → Type 0 = λ x. x.is_rollbacking ≡ true in
    let st = u.status in
    if-all P (st.is_rollbacking || is_rollback u.spec.operation) _ _
      (λ q.
        if-all P (is_state_in st.state not_rollback_states) _ _ (λ r. refl)
          (λ r. elim h [ inl a ↦ a | inr (a, b) ↦ absurd (true-ne-false (sym b ∙ r)) ]))
      (λ q. absurd (neither st.is_rollbacking u.spec.operation q (asks h)))

module _ {W : Type 0} (srv : Server W) where
  -- Every pass of the state machine ends, and keeps the upgrade well formed: it is in a state of
  -- the rollback exactly if it is marked as rolling back, it goes past the backup only with a
  -- backup taken, it changes the metadata only after that, and it retries the backup at most
  -- `max_retry` times.
  pub run_state_machine-Valid :
      (u : MilvusUpgrade) (w : W)
      → Valid (core u)
      → (e : Option Error) × (u' : MilvusUpgrade) × (w' : W) × (run_state_machine srv u w
          ≡ some (e, (u', w')))
        × Valid (core u')
  run_state_machine-Valid u w v =
      let (e, u', w', q, st) = run_state_machine-Passes srv u w in
      (e, u', w', q, Steps-Valid st (determined-Valid u v))

  -- A rollback is never left: from a well-formed upgrade that is rolling back, or that asks for a
  -- rollback in one of the states of the upgrade proper, every pass ends in a state of the rollback.
  pub rollback_stays :
      (u : MilvusUpgrade) (w : W)
      → Valid (core u)
      → (u.status.is_rollbacking ≡ true)
        ⊎ ((u.spec.operation ≡ rollback_operation)
            × (is_state_in u.status.state not_rollback_states ≡ true))
      → (e : Option Error) × (u' : MilvusUpgrade) × (w' : W) × (run_state_machine srv u w
          ≡ some (e, (u', w')))
        × (u'.status.is_rollbacking ≡ true)
        × (is_rollback_state u'.status.state ≡ true)
  rollback_stays u w v h =
      let (e, u', w', q, st) = run_state_machine-Passes srv u w in
      let r = Steps-rollbacking st (determined-rollbacking u h) in
      (e, u', w', q, r, (Steps-Valid st (determined-Valid u v)).rollback_flag ∙ r)
