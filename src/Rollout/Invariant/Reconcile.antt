-- ===== src/Rollout/Invariant/Reconcile.antt =====
-- HandleStop, HandleManualMode and Reconcile of pkg/controllers/deploy_ctrl.go keep the invariant.
use milvus_operator.Base.{
  String, Bool, true, false, Option, none, some, ◌≡◌, refl, arith, Error, if-all, if◌then◌else◌,
  wrapped, ◌||◌,
}
use milvus_operator.Base.Int.{pos}
use milvus_operator.Deployment.{PodTemplate, Deployment, get_deploy_replicas, to_int32}
use milvus_operator.Component.{MilvusComponent}
use milvus_operator.Rollout.{Milvus, is_component_rolling}
use milvus_operator.Rollout.Server.{Server, Library, Job}
use milvus_operator.Rollout.View.{View, ServerLaws, WritesDigits}
use milvus_operator.Rollout.Store.{state_key}
use milvus_operator.Rollout.Updates.{
  update_deployment, update_milvus, clear_rolling, requeued, renew_deploy_annotation,
  update_pod_template, is_pod_template_changed,
}
use milvus_operator.Rollout.Controller.{
  stop_needed, stopped, stop_deploy_if_not, handle_stop, manual, handle_manual_mode, handle_rolling,
  handle_scaling, should_stop, reconcile_created,
}
use milvus_operator.Rollout.Ends.{Ends, then_do-Ends, wrapped-Ends, requeued-Ends}
use milvus_operator.Rollout.Invariant.Writes.{
  Holding-IsWell, Holding-IsIdle, swap_Held, IsSafe, IsWell-labels, IsIdle-same, Safe, Synced,
  Holding, update_deployment-Safe, update_milvus-Safe,
}
use milvus_operator.Rollout.Invariant.Reads.{get_deploys-Safe}
use milvus_operator.Rollout.Invariant.Rolling.{zero_replicas, cleared-IsIdle, handle_rolling-Safe}
use milvus_operator.Rollout.Invariant.Scaling.{handle_scaling-Safe}

stopped-zero : (x : Deployment) → get_deploy_replicas (stopped x) ≡ pos 0
unfolding get_deploy_replicas to_int32
stopped-zero x = refl

not_needed-zero : (x : Deployment) → stop_needed x ≡ false → get_deploy_replicas x ≡ pos 0
unfolding stop_needed
not_needed-zero x h = zero_replicas (get_deploy_replicas x) (ground arith)

module _ (lib : Library) (c : MilvusComponent) {W : Type 0} (srv : Server W) (view : W → View)
    (laws : ServerLaws srv view) (digits : WritesDigits lib) where
  abbrev Safely : (Job W → Type 0) → Option Error × Job W → Type 0
  Safely = Ends (Safe lib c srv view laws)

  -- The first of the two deployments is now `x`, with no replicas.
  abbrev Stopped : Deployment → Job W → Type 0
  Stopped y k =
      (x : Deployment) × (Holding lib c srv view laws x y k × (get_deploy_replicas x ≡ pos 0))

  stop_deploy_if_not-Safe :
      (x y : Deployment) (t : String) (j : Job W)
      → Safe lib c srv view laws j.world
      → Holding lib c srv view laws x y j
      → Safely (Stopped y) (wrapped t (stop_deploy_if_not lib c srv x j))
  unfolding stop_deploy_if_not
  stop_deploy_if_not-Safe x y t j s h =
      let done =
        update_deployment-Safe lib c srv view laws x y (stopped x) j s h refl
          (IsWell-labels lib c (stopped x) x refl (Holding-IsWell lib c srv view laws x y j s h).0)
          (λ r old. stopped-zero x) in
      wrapped-Ends (Safe lib c srv view laws) (Stopped y) t (stop_deploy_if_not lib c srv x j) (
        if-all (Safely (Stopped y)) (stop_needed x)
          (wrapped "stop current deployment" (update_deployment srv (stopped x) j)) (none, j)
          (λ _.
            wrapped-Ends (Safe lib c srv view laws) (Stopped y) _
              (update_deployment srv (stopped x) j)
              (done.0, λ q. (stopped x, (done.1 q, stopped-zero x))))
          (λ p. (s, λ _. (x, (h, not_needed-zero x p)))))

  both_stopped-Safe :
      (x y : Deployment) (j : Job W)
      → Safe lib c srv view laws j.world
      → Holding lib c srv view laws x y j
      → get_deploy_replicas x ≡ pos 0
      → get_deploy_replicas y ≡ pos 0
      → IsSafe lib c (record (view j.world) { milvus = (clear_rolling lib c srv j).milvus })
  both_stopped-Safe x y j s h p q = record {
    well = s.well;
    apart = s.apart;
    idle = λ r.
        cleared-IsIdle lib c srv view laws digits x y (view j.world)
          (clear_rolling lib c srv j).milvus h.1 (λ old. p, λ old. q);
  }

  handle_stop-Safe :
      (j : Job W)
      → Safe lib c srv view laws j.world
      → Synced lib c srv view laws j
      → Safely (Synced lib c srv view laws) (handle_stop lib c srv j)
  unfolding handle_stop
  handle_stop-Safe j s y =
      get_deploys-Safe lib c srv view laws (Synced lib c srv view laws) _ _ j s y
        (λ d e k sk hk cur old.
          then_do-Ends (Safe lib c srv view laws) (Stopped e) (Synced lib c srv view laws) _ _
            (stop_deploy_if_not-Safe d e "stop current deployment" k sk hk)
            (λ l sl hl.
              let (d2, (held, zero_d)) = hl in
              then_do-Ends (Safe lib c srv view laws) (Stopped d2) (Synced lib c srv view laws) _ _
                (stop_deploy_if_not-Safe e d2 "stop last deployment" l sl
                  (held.0, swap_Held lib c srv view laws (view l.world) d2 e held.1))
                (λ m sm hm.
                  let (e2, (both, zero_e)) = hm in
                  if-all (Safely (Synced lib c srv view laws))
                    (is_component_rolling m.milvus (state_key lib c))
                    (update_milvus srv (clear_rolling lib c srv m)) (none, m)
                    (λ _.
                      update_milvus-Safe lib c srv view laws (clear_rolling lib c srv m) sm
                        (both_stopped-Safe e2 d2 m sm both zero_e zero_d))
                    (λ _. (sm, λ _. both.0)))))

  abbrev SameScale : Deployment → Deployment → Type 0
  SameScale x d =
      (d.name ≡ x.name) × ((d.labels ≡ x.labels) × (get_deploy_replicas d ≡ get_deploy_replicas x))

  renew_deploy_annotation-SameScale :
      (m : Milvus) (x : Deployment) → SameScale x (renew_deploy_annotation lib c m x).0
  unfolding renew_deploy_annotation get_deploy_replicas
  renew_deploy_annotation-SameScale m x =
      if-all (λ (p : Deployment × Bool). SameScale x p.0) _ _ _ (λ _. (refl, (refl, refl)))
        (λ _. (refl, (refl, refl)))

  update_pod_template-SameScale :
      (x d : Deployment) (t : PodTemplate)
      → SameScale x d
      → SameScale x (update_pod_template lib c d t)
  unfolding update_pod_template get_deploy_replicas
  update_pod_template-SameScale x d t h = h

  -- The deployment that HandleManualMode may store.
  next_manual : Milvus → Deployment → PodTemplate → Bool → Deployment
  next_manual m x t changed =
      let d = (renew_deploy_annotation lib c m x).0 in
      if changed then update_pod_template lib c d t else d

  next_manual-SameScale :
      (m : Milvus) (x : Deployment) (t : PodTemplate) (b : Bool) → SameScale x (next_manual m x t b)
  unfolding next_manual
  next_manual-SameScale m x t true =
      update_pod_template-SameScale x _ t (renew_deploy_annotation-SameScale m x)
  next_manual-SameScale m x t false = renew_deploy_annotation-SameScale m x

  manual-Safe :
      (x y : Deployment) (j : Job W)
      → Safe lib c srv view laws j.world
      → Holding lib c srv view laws x y j
      → Safely (Synced lib c srv view laws) (manual lib c srv x j)
  unfolding manual next_manual
  manual-Safe x y j s h =
      let t = lib.render j.milvus (some x.template) c true in
      let changed = is_pod_template_changed lib c x t in
      let d = next_manual j.milvus x t changed in
      let (name, (labels, count)) = next_manual-SameScale j.milvus x t changed in
      if-all (Safely (Synced lib c srv view laws)) (stop_needed x) _ _ (λ _. (s, λ _. h.0))
        (λ _.
          if-all (Safely (Synced lib c srv view laws))
            ((renew_deploy_annotation lib c j.milvus x).1 || changed)
            (requeued (update_deployment srv d j)) (none, j)
            (λ _.
              requeued-Ends (Safe lib c srv view laws) (Holding lib c srv view laws d y)
                (Synced lib c srv view laws) (update_deployment srv d j)
                (update_deployment-Safe lib c srv view laws x y d j s h name
                  (IsWell-labels lib c d x labels (Holding-IsWell lib c srv view laws x y j s h).0)
                  (λ r.
                    IsIdle-same lib c j.milvus d x labels count
                      (Holding-IsIdle lib c srv view laws x y j s h r).0)))
            (λ _. (s, λ _. h.0)))

  handle_manual_mode-Safe :
      (j : Job W)
      → Safe lib c srv view laws j.world
      → Synced lib c srv view laws j
      → Safely (Synced lib c srv view laws) (handle_manual_mode lib c srv j)
  unfolding handle_manual_mode
  handle_manual_mode-Safe j s y =
      get_deploys-Safe lib c srv view laws (Synced lib c srv view laws) _ _ j s y
        (λ d e k sk hk cur old. manual-Safe d e k sk hk)

  -- Reconcile after HandleCreate.
  pub reconcile_created-Safe :
      (paused : Bool) (j : Job W)
      → Safe lib c srv view laws j.world
      → Synced lib c srv view laws j
      → Safely (Synced lib c srv view laws) (reconcile_created lib c srv paused j)
  unfolding reconcile_created
  reconcile_created-Safe paused j s y =
      if-all (Safely (Synced lib c srv view laws)) paused (none, j) _ (λ _. (s, λ _. y))
        (λ _.
          if-all (Safely (Synced lib c srv view laws)) j.milvus.spec.components.enable_manual_mode
            (handle_manual_mode lib c srv j) _ (λ _. handle_manual_mode-Safe j s y)
            (λ _.
              if-all (Safely (Synced lib c srv view laws)) (should_stop lib c j.milvus)
                (handle_stop lib c srv j) _ (λ _. handle_stop-Safe j s y)
                (λ _.
                  then_do-Ends (Safe lib c srv view laws) (Synced lib c srv view laws)
                    (Synced lib c srv view laws)
                    (wrapped "handle rolling" (handle_rolling lib c srv j)) _
                    (wrapped-Ends (Safe lib c srv view laws) (Synced lib c srv view laws) _
                      (handle_rolling lib c srv j)
                      (handle_rolling-Safe lib c srv view laws digits j s y))
                    (λ k sk yk.
                      wrapped-Ends (Safe lib c srv view laws) (Synced lib c srv view laws)
                        "handle scaling" (handle_scaling lib c srv k)
                        (handle_scaling-Safe lib c srv view laws k sk yk)))))
