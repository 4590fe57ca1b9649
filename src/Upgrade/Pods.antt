-- ===== src/Upgrade/Pods.antt =====
-- What the pods of the tasks decide: UpdatingMeta and RollbackRestoringOldMeta.
use milvus_operator.Base.{
  ℕ, suc, Bool, true, false, some, List, [], ◌∷◌, errorf, ok, ◌≡◌, ◌≢◌, refl, sym, ap, ◌∙◌, inl,
  inr, arith, if◌then◌else◌,
}
use milvus_operator.Deployment.{PodPhase, running, failed, phase_unknown}
use milvus_operator.Upgrade.{
  UpgradeState, pending, updating_meta, new_version_starting, rollback_old_version_starting,
  upgrade_operation, update_meta_failed, UpgradeStatus, MilvusUpgrade, Milvus,
}
use milvus_operator.Upgrade.Server.{TaskKind, update_task, rollback_task, Server, Job}
use milvus_operator.Upgrade.Handlers.{
  Answer, do_on_pod_phase, handle_pod, to, updating_meta_func, rollback_restoring_old_meta_func,
  state_func,
}
use milvus_operator.Upgrade.Machine.{
  run_loop, run_state_machine, determine_current_state, update_condition, fuel, loaded, enter,
}
use milvus_operator.Upgrade.Frame.{core_of}
use milvus_operator.Base.{Result-cases, if-all}
use milvus_operator.Upgrade.Invariant.{Valid, true-ne-false}

module _ {W : Type 0} (srv : Server W) where
  -- The first pod of a task has succeeded.
  abbrev pub Succeeded : TaskKind → Job W → Type 0
  Succeeded kind j =
      (rest : List PodPhase) × ((srv.list_pods j.upgrade.name kind j.world).0
        ≡ ok (PodPhase.succeeded ∷ rest))

  on_phase-Succeeded :
      (next : UpgradeState) (ps : List PodPhase) (a b c d : Job W → Answer srv) (k : Job W)
      → ((a k).0.0 ≢ next) × ((c k).0.0 ≢ next) × ((d k).0.0 ≢ next)
      → (do_on_pod_phase ps a b c d k).0.0 ≡ next
      → (rest : List PodPhase) × (ps ≡ PodPhase.succeeded ∷ rest)
  on_phase-Succeeded next [] a b c d k n h = absurd (n.0 h)
  on_phase-Succeeded next (PodPhase.succeeded ∷ ps) a b c d k n h = (ps, refl)
  on_phase-Succeeded next (PodPhase.pending ∷ ps) a b c d k n h = absurd (n.2 h)
  on_phase-Succeeded next (running ∷ ps) a b c d k n h = absurd (n.2 h)
  on_phase-Succeeded next (failed ∷ ps) a b c d k n h = absurd (n.1 h)
  on_phase-Succeeded next (phase_unknown ∷ ps) a b c d k n h = absurd (n.1 h)

  handle_pod-Succeeded :
      (next : UpgradeState) (kind : TaskKind) (f g h : Job W → Answer srv) (j : Job W)
      → next ≢ pending
      → ((k : Job W) → (f k).0.0 ≢ next)
      → ((k : Job W) → (h k).0.0 ≢ next)
      → (handle_pod srv kind f g h j).0.0 ≡ next
      → Succeeded kind j
  unfolding handle_pod
  handle_pod-Succeeded next kind f g h j np nf nh e =
      let r = srv.list_pods j.upgrade.name kind j.world in
      elim (Result-cases r.0) [
        | inl (x, q) ↦ absurd (np (sym (rw (handle_pod, q) at e)))
        | inr (ps, q) ↦
            let k = record j { world = r.1 } in
            let (rest, p) =
              on_phase-Succeeded next ps f g h (to srv pending) k (nf k, nh k, λ x. np (sym x))
                (rw (handle_pod, q) at e) in
            (rest, q ∙ ap ok p)
      ]

  if_false-next :
      (next : UpgradeState) (b : Bool) (x y : Answer srv)
      → y.0.0 ≢ next
      → (if b then x else y).0.0 ≡ next
      → (b ≡ true) × (x.0.0 ≡ next)
  if_false-next next true x y n h = (refl, h)
  if_false-next next false x y n h = absurd (n h)

  if_true-next :
      (next : UpgradeState) (b : Bool) (x y : Answer srv)
      → b ≡ true
      → (if b then x else y).0.0 ≡ next
      → x.0.0 ≡ next
  if_true-next next true x y t h = h
  if_true-next next false x y t h = ground arith

  -- The new version starts only once the metadata was changed: its state follows the state
  -- UpdatingMeta only if the pod of the change was started before and the first pod of that task
  -- has succeeded.
  pub starts-Succeeded :
      (j : Job W)
      → (updating_meta_func srv j).0.0 ≡ new_version_starting
      → (j.upgrade.status.meta_storage_changed ≡ true) × Succeeded update_task j
  unfolding updating_meta_func
  starts-Succeeded j h =
      let (b, e) =
        if_false-next new_version_starting j.upgrade.status.meta_storage_changed _ _
          (λ x. ground arith) h in
      (
        b,
        handle_pod-Succeeded new_version_starting update_task _ _ _ j (λ x. ground arith)
            (λ k x. ground arith) (λ k x. ground arith) e,
      )

  -- A rollback restores the metadata that the upgrade changed: from a well-formed upgrade that
  -- changed it, the old version starts only once the first pod of the restoring task has succeeded.
  pub restores-Succeeded :
      (j : Job W)
      → Valid (core_of srv j)
      → j.upgrade.status.meta_storage_changed ≡ true
      → (rollback_restoring_old_meta_func srv j).0.0 ≡ rollback_old_version_starting
      → Succeeded rollback_task j
  unfolding rollback_restoring_old_meta_func
  restores-Succeeded j v c h =
      handle_pod-Succeeded rollback_old_version_starting rollback_task _ _ _ j (λ x. ground arith)
        (λ k x. ground arith) (λ k x. ground arith)
        (if_true-next rollback_old_version_starting j.upgrade.status.meta_backuped _ _
          (v.backup_first c) h)

  missing-answer :
      (j : Job W) (w2 : W)
      → j.upgrade.status.meta_storage_changed ≡ true
      → srv.list_pods j.upgrade.name update_task j.world ≡ (ok [], w2)
      → updating_meta_func srv j ≡ (
        (update_meta_failed, some (errorf "cannot find update-meta pod")),
        record j { world = w2 },
      )
  unfolding updating_meta_func
  missing-answer j w2 c l =
      if-all
        (λ x. x ≡ (
          (update_meta_failed, some (errorf "cannot find update-meta pod")),
          record j { world = w2 },
        ))
        j.upgrade.status.meta_storage_changed _ _
        (λ q. rw (handle_pod, ap (λ x. x.0) l, ap (λ x. x.1) l) refl)
        (λ q. absurd (true-ne-false (sym c ∙ q)))

  missing-loop :
      (n : ℕ) (j : Job W) (w2 : W)
      → j.upgrade.status.meta_storage_changed ≡ true
      → srv.list_pods j.upgrade.name update_task j.world ≡ (ok [], w2)
      → run_loop srv (suc n) updating_meta j
        ≡ some (record {
          returned = some (errorf "cannot find update-meta pod");
          seen = some (errorf "cannot find update-meta pod");
          job = record (enter srv updating_meta j) { world = w2 };
        })
  unfolding run_loop state_func
  missing-loop n j w2 c l = rw (missing-answer (enter srv updating_meta j) w2 c l) refl

  determined-updating :
      (st : UpgradeStatus)
      → st.state ≡ updating_meta
      → st.is_rollbacking ≡ false
      → determine_current_state upgrade_operation st ≡ st
  unfolding determine_current_state
  determined-updating st s r = rw (s, r) refl

  -- An upgrade whose pod of the metadata change is gone stays where it is: the pass returns the
  -- error of the missing pod and leaves the state UpdatingMeta, whatever rollback the spec allows.
  pub missing_pod-stays :
      (u : MilvusUpgrade) (m : Milvus) (w w1 w2 : W)
      → u.status.state ≡ updating_meta
      → u.status.is_rollbacking ≡ false
      → u.spec.operation ≡ upgrade_operation
      → u.status.meta_storage_changed ≡ true
      → srv.get_milvus w ≡ (ok m, w1)
      → srv.list_pods u.name update_task w1 ≡ (ok [], w2)
      → (u' : MilvusUpgrade) × (run_state_machine srv u w
          ≡ some (some (errorf "cannot find update-meta pod"), (u', w2)))
        × (u'.status.state ≡ updating_meta)
  unfolding run_state_machine update_condition
  missing_pod-stays u m w w1 w2 s r o c g l =
      let j = loaded srv u u.status m w1 in
      let left = (enter srv updating_meta j).upgrade in
      let gone = errorf "cannot find update-meta pod" in
      (
        record left { status = update_condition srv left.status (some gone) },
        rw
            (
              run_state_machine,
              ap (λ x. x.0) g,
              ap (λ x. x.1) g,
              ap (λ x. determine_current_state x u.status) o ∙ determined-updating u.status s r,
              ap (λ x. run_loop srv fuel x j) s ∙ missing-loop 7 j w2 c l,
            )
            refl,
        refl,
      )
