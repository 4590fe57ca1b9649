-- ===== src/Upgrade/Conformance.antt =====
-- The handlers of the upgrade's state machine against the relation of its transitions.
use milvus_operator.Base.{
  ◌<◌, String, Bool, true, false, Option, none, some, List, [], ◌∷◌, Error, ◌≡◌, refl, sym, subst,
  ◌∙◌, ◌⊎◌, inl, inr, arith, if◌then◌else◌, Bool-cases, Option-cases, Result-cases, if-all,
}
use milvus_operator.Base.Int.{pos, ◌+ℤ◌, ltb_ℤ}
use milvus_operator.Deployment.{PodPhase, running, failed, phase_unknown}
use milvus_operator.Upgrade.{
  UpgradeState, pending, old_version_stopping, backup_meta, updating_meta, new_version_starting,
  succeeded, bakup_meta_failed, update_meta_failed, rollback_new_version_stopping,
  rollback_restoring_old_meta, rollback_old_version_starting, rollback_succeeded, rollback_failed,
  unexpected,
}
use milvus_operator.Upgrade.Server.{TaskKind, backup_task, update_task, rollback_task, Server, Job}
use milvus_operator.Upgrade.Replicas.{
  record_old_info, stop_milvus, start_milvus, is_milvus_stopped, is_milvus_stopping, with_status,
}
use milvus_operator.Upgrade.Handlers.{
  Answer, state_func, to, stay, do_on_pod_phase, handle_pod, handle_upgrade_failed,
  start_bakup_meta_pod, start_task_pod, start_update_meta_pod, start_rollback_meta_pod, start_with,
  set_image, when_stopped, rollback_new_version_stopping_func, old_version_stopping_func,
  backup_meta_func, updating_meta_func, rollback_restoring_old_meta_func, handle_bakup_meta_failed,
}
use milvus_operator.Upgrade.Machine.{is_pending}
use milvus_operator.Upgrade.Frame.{
  Core, core_of, start_bakup_meta_pod-Same, start_task_pod-Same, stop_milvus-Same,
  start_milvus-Same, record_old_info-Same, is_milvus_stopped-Same,
}
use milvus_operator.Upgrade.Transitions.{
  Step, backup, backuped, backup_fails, change, changed, change_fails, succeed, retry, roll_back,
  restore, restored, restore_fails, rolled_back, Steps, here, rank, one, same-Steps,
}

do_on_pod_phase-all :
    {A : Type 0} (P : A → Type 0) (ps : List PodPhase) (a b c d : A)
    → P a
    → P b
    → P c
    → P d
    → P (do_on_pod_phase ps a b c d)
do_on_pod_phase-all P [] a b c d pa pb pc pd = pa
do_on_pod_phase-all P (PodPhase.pending ∷ ps) a b c d pa pb pc pd = pd
do_on_pod_phase-all P (running ∷ ps) a b c d pa pb pc pd = pd
do_on_pod_phase-all P (PodPhase.succeeded ∷ ps) a b c d pa pb pc pd = pb
do_on_pod_phase-all P (failed ∷ ps) a b c d pa pb pc pd = pc
do_on_pod_phase-all P (phase_unknown ∷ ps) a b c d pa pb pc pd = pc

module _ {W : Type 0} (srv : Server W) where
  -- The loop of RunStateMachine ends with the answer.
  abbrev pub stops : Answer srv → Bool
  stops ((next, some e), j) = true
  stops ((next, none), j) = is_pending next

  -- What a handler may do from a state and a core: it leaves steps in the status and stops, or it
  -- goes on to a state by one step.
  pub data Ran (s : UpgradeState) (c : Core) : Answer srv → Type 0 where
    halts : {a : Answer srv} → stops a ≡ true → Steps c (core_of srv a.1) → Ran s c a
    goes :
        {next : UpgradeState} {j : Job W}
        → Step c (record (core_of srv j) { state = next })
        → rank next < rank s
        → Ran s c ((next, none), j)

  stay-Ran :
      (s : UpgradeState) (c : Core) (text : String) (r : Option Error × Job W)
      → Steps c (core_of srv r.1)
      → Ran s c (stay srv text r)
  stay-Ran s c text (some e, j) h = halts refl h
  stay-Ran s c text (none, j) h = halts refl h

  handle_pod-all :
      (P : Answer srv → Type 0) (kind : TaskKind) (f g h : Job W → Answer srv) (j : Job W)
      → ((w : W) → P (f (record j { world = w })))
      → ((w : W) → P (g (record j { world = w })))
      → ((w : W) → P (h (record j { world = w })))
      → ((w : W) (e : Error) → P ((pending, some e), record j { world = w }))
      → ((w : W) → P (to srv pending (record j { world = w })))
      → P (handle_pod srv kind f g h j)
  unfolding handle_pod
  handle_pod-all P kind f g h j pf pg ph pe pn =
      let r = srv.list_pods j.upgrade.name kind j.world in
      elim (Result-cases r.0) [
        | inl (e, q) ↦ rw (handle_pod, q) (pe r.1 _)
        | inr (ps, q) ↦
            let k = record j { world = r.1 } in
            rw (handle_pod, q)
              (do_on_pod_phase-all (λ act. P (act k)) ps f g h (to srv pending) (pf r.1) (pg r.1)
                (ph r.1) (pn r.1))
      ]

  on_stopped-Ran :
      (s next : UpgradeState) (c : Core) (k : Job W) (b : Bool)
      → core_of srv k ≡ c
      → Ran s c (to srv next k)
      → Ran s c (if b then to srv next k else to srv pending k)
  on_stopped-Ran s next c k true e h = h
  on_stopped-Ran s next c k false e h = halts refl (same-Steps e)

  when_stopped-Ran :
      (s next : UpgradeState) (j : Job W)
      → ((k : Job W) → core_of srv k ≡ core_of srv j → Ran s (core_of srv j) (to srv next k))
      → Ran s (core_of srv j) (when_stopped srv next j)
  unfolding when_stopped
  when_stopped-Ran s next j h =
      let r = is_milvus_stopped srv j in
      let same = is_milvus_stopped-Same srv j in
      elim (Result-cases r.0) [
        | inl (e, q) ↦ rw (when_stopped, q) (halts refl (same-Steps same))
        | inr (b, q) ↦ rw (when_stopped, q) (on_stopped-Ran s next _ r.1 b same (h r.1 same))
      ]

  -- A step named by the state that it goes to, taken from a job with the same core.
  moved :
      (s next : UpgradeState) (c : Core) (k : Job W)
      → core_of srv k ≡ c
      → Step c (record c { state = next })
      → rank next < rank s
      → Ran s c (to srv next k)
  moved s next c k e h r = goes (subst (λ d. Step c (record d { state = next })) (sym e) h) r

  old_version_stopping-Ran :
      (j : Job W)
      → j.upgrade.status.state ≡ old_version_stopping
      → Ran old_version_stopping (core_of srv j) (old_version_stopping_func srv j)
  unfolding old_version_stopping_func
  old_version_stopping-Ran j h = elim (Bool-cases (is_milvus_stopping srv j)) [
    | inl q ↦
        rw q (when_stopped-Ran _ backup_meta j (λ k e. moved _ _ _ k e (backup h) (omega arith)))
    | inr q ↦ rw q (
        stay-Ran _ _ "stop milvus" (stop_milvus srv (record_old_info srv j))
          (same-Steps (stop_milvus-Same srv (record_old_info srv j) ∙ record_old_info-Same srv j)))
  ]

  backup_meta-Ran :
      (j : Job W)
      → j.upgrade.status.state ≡ backup_meta
      → Ran backup_meta (core_of srv j) (backup_meta_func srv j)
  unfolding backup_meta_func
  backup_meta-Ran j h =
      handle_pod-all (Ran backup_meta (core_of srv j)) backup_task _ _ _ j
        (λ w.
          stay-Ran _ _ "start backup-meta pod" (start_bakup_meta_pod srv (record j { world = w }))
            (same-Steps (start_bakup_meta_pod-Same srv (record j { world = w }))))
        (λ w. goes (backuped h) (omega arith)) (λ w. goes (backup_fails h) (omega arith))
        (λ w e. halts refl here) (λ w. halts refl here)

  updating_meta-Ran :
      (j : Job W)
      → j.upgrade.status.state ≡ updating_meta
      → Ran updating_meta (core_of srv j) (updating_meta_func srv j)
  unfolding updating_meta_func start_update_meta_pod
  updating_meta-Ran j h =
      if-all (Ran updating_meta (core_of srv j)) j.upgrade.status.meta_storage_changed _ _
        (λ q.
          handle_pod-all (Ran updating_meta (core_of srv j)) update_task _ _ _ j
            (λ w. halts refl here) (λ w. goes (changed h q) (omega arith))
            (λ w. goes (change_fails h q) (omega arith)) (λ w e. halts refl here)
            (λ w. halts refl here))
        (λ q.
          let k = with_status srv j (record (j.upgrade.status) { meta_storage_changed = true }) in
          stay-Ran _ _ "start update-meta pod" (start_task_pod srv update_task k) (
            subst (λ d. Steps (core_of srv j) d) (sym (start_task_pod-Same srv update_task k))
              (one (change h))))

  starting-Ran :
      (s next : UpgradeState) (image : String) (j : Job W)
      → Step (core_of srv j) (record (core_of srv j) { state = next })
      → rank next < rank s
      → Ran s (core_of srv j) (start_with srv image next j)
  unfolding start_with
  starting-Ran s next image j h r =
      let i = set_image srv j image in
      let a = start_milvus srv i in
      let same = start_milvus-Same srv i in
      elim (Option-cases a.0) [
        | inl q ↦ rw (start_with, q) (moved s next (core_of srv j) a.1 same h r)
        | inr (e, q) ↦ rw (start_with, q) (halts refl (same-Steps same))
      ]

  failed_rank :
      {s : UpgradeState}
      → (s ≡ bakup_meta_failed) ⊎ (s ≡ update_meta_failed)
      → rank rollback_new_version_stopping < rank s
  failed_rank (inl e) = rw e (omega arith)
  failed_rank (inr e) = rw e (omega arith)

  failed_state :
      {s t : UpgradeState}
      → (s ≡ bakup_meta_failed) ⊎ (s ≡ update_meta_failed)
      → t ≡ s
      → (t ≡ bakup_meta_failed) ⊎ (t ≡ update_meta_failed)
  failed_state (inl e) h = inl (h ∙ e)
  failed_state (inr e) h = inr (h ∙ e)

  handle_upgrade_failed-Ran :
      (s : UpgradeState) (j : Job W)
      → (s ≡ bakup_meta_failed) ⊎ (s ≡ update_meta_failed)
      → j.upgrade.status.state ≡ s
      → Ran s (core_of srv j) (handle_upgrade_failed srv j)
  unfolding handle_upgrade_failed
  handle_upgrade_failed-Ran s j k h =
      if-all (Ran s (core_of srv j)) j.upgrade.spec.rollback_if_failed _ _
        (λ q. goes (roll_back (failed_state k h) q) (failed_rank k)) (λ q. halts refl here)

  handle_bakup_meta_failed-Ran :
      (j : Job W)
      → j.upgrade.status.state ≡ bakup_meta_failed
      → Ran bakup_meta_failed (core_of srv j) (handle_bakup_meta_failed srv j)
  unfolding handle_bakup_meta_failed
  handle_bakup_meta_failed-Ran j h =
      let tried = j.upgrade.status.retried_times +ℤ pos 1 in
      let r = srv.delete_pods j.upgrade.name backup_task j.world in
      if-all (Ran bakup_meta_failed (core_of srv j)) (ltb_ℤ j.upgrade.spec.max_retry tried) _ _
        (λ q. handle_upgrade_failed-Ran bakup_meta_failed j (inl refl) h)
        (λ q. elim (Option-cases r.0) [
          | inl d ↦ rw d (halts refl (one (retry h q)))
          | inr (e, d) ↦ rw d (halts refl here)
        ])

  rollback_new_version_stopping-Ran :
      (j : Job W)
      → j.upgrade.status.state ≡ rollback_new_version_stopping
      → Ran rollback_new_version_stopping (core_of srv j) (rollback_new_version_stopping_func srv j)
  unfolding rollback_new_version_stopping_func
  rollback_new_version_stopping-Ran j h = elim (Bool-cases (is_milvus_stopping srv j)) [
    | inl q ↦ rw q (
        when_stopped-Ran _ rollback_restoring_old_meta j
          (λ k e. moved _ _ _ k e (restore h) (omega arith)))
    | inr q ↦
        rw q (stay-Ran _ _ "stop milvus" (stop_milvus srv j) (same-Steps (stop_milvus-Same srv j)))
  ]

  rollback_restoring_old_meta-Ran :
      (j : Job W)
      → j.upgrade.status.state ≡ rollback_restoring_old_meta
      → Ran rollback_restoring_old_meta (core_of srv j) (rollback_restoring_old_meta_func srv j)
  unfolding rollback_restoring_old_meta_func start_rollback_meta_pod
  rollback_restoring_old_meta-Ran j h =
      if-all (Ran rollback_restoring_old_meta (core_of srv j)) j.upgrade.status.meta_backuped _ _
        (λ q.
          handle_pod-all (Ran rollback_restoring_old_meta (core_of srv j)) rollback_task _ _ _ j
            (λ w.
              stay-Ran _ _ "start backup-meta pod"
                (start_task_pod srv rollback_task (record j { world = w }))
                (same-Steps (start_task_pod-Same srv rollback_task (record j { world = w }))))
            (λ w. goes (restored h) (omega arith)) (λ w. goes (restore_fails h q) (omega arith))
            (λ w e. halts refl here) (λ w. halts refl here))
        (λ q. goes (restored h) (omega arith))

  -- The entries of the map of functions that make the steps of the relation.
  abbrev pub StateRan : UpgradeState → Option (Option (Job W → Answer srv)) → Type 0
  StateRan s none = Unit
  StateRan s (some none) = Unit
  StateRan s (some (some f)) =
      (j : Job W) → j.upgrade.status.state ≡ s → Ran s (core_of srv j) (f j)

  pub state_func-Ran : (s : UpgradeState) → StateRan s (state_func srv s)
  unfolding state_func
  state_func-Ran pending = tt
  state_func-Ran old_version_stopping = old_version_stopping-Ran
  state_func-Ran backup_meta = backup_meta-Ran
  state_func-Ran updating_meta = updating_meta-Ran
  state_func-Ran new_version_starting =
      λ j h. starting-Ran _ _ j.upgrade.spec.target_image j (succeed h) (omega arith)
  state_func-Ran succeeded = tt
  state_func-Ran bakup_meta_failed = handle_bakup_meta_failed-Ran
  state_func-Ran update_meta_failed = λ j h. handle_upgrade_failed-Ran _ j (inr refl) h
  state_func-Ran rollback_new_version_stopping = rollback_new_version_stopping-Ran
  state_func-Ran rollback_restoring_old_meta = rollback_restoring_old_meta-Ran
  state_func-Ran rollback_old_version_starting =
      λ j h. starting-Ran _ _ j.upgrade.status.source_image j (rolled_back h) (omega arith)
  state_func-Ran rollback_succeeded = tt
  state_func-Ran rollback_failed = tt
  state_func-Ran (unexpected s) = tt
