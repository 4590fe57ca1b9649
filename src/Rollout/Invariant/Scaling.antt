-- ===== src/Rollout/Invariant/Scaling.antt =====
-- HandleScaling of pkg/controllers/deploy_ctrl.go keeps the invariant.
use milvus_operator.Base.{
  String, Bool, true, false, true≢false, Option, none, some, List, ◌≡◌, ◌≢◌, inl, inr, refl, sym,
  subst, ◌∙◌, arith, Error, wrap, Result, ok, err, eq_iff, if-all, Result-cases, then_do,
  with_value, wrapped_value,
}
use milvus_operator.Base.Int.{ℤ, pos, ◌==ℤ◌}
use milvus_operator.Api.Labels.{get}
use milvus_operator.Api.Spec.{ComponentKind, MilvusSpec}
use milvus_operator.Deployment.{Deployment, Pod, get_deploy_replicas}
use milvus_operator.Component.{MilvusComponent, kind_name}
use milvus_operator.Scale.{
  Target, current_deploy, last_deploy, ScaleKind, normal, rollout, hpa, external_hpa, force_upgrade,
  check_scale_kind, plan_by_kind, plan_next_scale_action, with_strategy, add_replicas, hpa_action,
  external_hpa_action, force_action, normal_action,
}
use milvus_operator.Strategy.{Scaling}
use milvus_operator.Rollout.{Milvus, is_component_rolling, get_label_group_id, get_current_group_id}
use milvus_operator.Rollout.Server.{Server, Library, Job}
use milvus_operator.Rollout.View.{View, ServerLaws}
use milvus_operator.Rollout.Store.{state_key, component_deploy_is_current_group, list_deploy_pods}
use milvus_operator.Rollout.Updates.{mark_milvus_component_group_id, update_deployment, requeued}
use milvus_operator.Rollout.Scaling.{
  get_deployment_group_id, parsed, mark_as, mark_deploy_as_current, check_last_deployment_stable,
  check_deployments_stable, current_stable, check_can_scale_now, scale_wait, Wait, wait_for_nothing,
  wait_for_last, wait_for_both, wait_until, do_scale_action, scale_deployments,
}
use milvus_operator.Rollout.Controller.{handle_scaling}
use milvus_operator.Rollout.Slots.{IsCurrent}
use milvus_operator.Rollout.Ends.{Ends, then_do-Ends, requeued-Ends}
use milvus_operator.Rollout.Invariant.Writes.{
  Holding-IsWell, Holding-IsIdle, swap_Held, IsWell, IsWell-labels, IsIdle, NotRolling, Safe,
  Synced, Holding, update_deployment-Safe,
}
use milvus_operator.Rollout.Invariant.Reads.{list_deploy_pods-job, get_deploys-Safe}

-- The plans for a last deployment with no replicas leave it alone.
hpa_action-idle : (m r x : ℤ) → (hpa_action m r x (pos 0)).deploy ≢ some last_deploy
unfolding hpa_action
hpa_action-idle m r x = ground arith

external_hpa_action-idle :
    (b : Bool) (r x : ℤ) → (external_hpa_action b r x (pos 0)).deploy ≢ some last_deploy
unfolding external_hpa_action
external_hpa_action-idle b r x = ground arith

force_action-idle : (n x : ℤ) → (force_action n x (pos 0)).deploy ≢ some last_deploy
unfolding force_action
force_action-idle n x = ground arith

normal_action-idle : (n x : ℤ) → (normal_action n x).deploy ≢ some last_deploy
unfolding normal_action
normal_action-idle n x = ground arith

check_scale_kind-idle :
    (c : MilvusComponent) (spec : MilvusSpec) (y : Deployment)
    → get_deploy_replicas y ≡ pos 0
    → check_scale_kind c spec y ≢ rollout
unfolding check_scale_kind
check_scale_kind-idle c spec y h = rw h (ground arith)

module _ (s : Scaling) (b : Bool) (c : MilvusComponent) (spec : MilvusSpec) (x y : Deployment) where
  plan_by_kind-idle :
      (k : ScaleKind)
      → k ≢ rollout
      → get_deploy_replicas y ≡ pos 0
      → (plan_by_kind s k b c spec x y).deploy ≢ some last_deploy
  plan_by_kind-idle normal n h = normal_action-idle _ _
  plan_by_kind-idle rollout n h = absurd (n refl)
  plan_by_kind-idle hpa n h = rw h (hpa_action-idle _ _ _)
  plan_by_kind-idle external_hpa n h = rw h (external_hpa_action-idle _ _ _)
  plan_by_kind-idle force_upgrade n h = rw h (force_action-idle _ _)

plan_next_scale_action-idle :
    (s : Scaling) (stand_by : ComponentKind → Bool) (b : Bool) (c : MilvusComponent)
    (spec : MilvusSpec) (x y : Deployment)
    → get_deploy_replicas y ≡ pos 0
    → (plan_next_scale_action s stand_by b c spec x y).deploy ≢ some last_deploy
unfolding plan_next_scale_action get_deploy_replicas
plan_next_scale_action-idle s stand_by b c spec x y h =
    plan_by_kind-idle s b c spec _ _ (check_scale_kind c spec y) (check_scale_kind-idle c spec y h)
      h

module _ (lib : Library) (c : MilvusComponent) {W : Type 0} (srv : Server W) (view : W → View)
    (laws : ServerLaws srv view) where
  abbrev Safely : (Job W → Type 0) → Option Error × Job W → Type 0
  Safely = Ends (Safe lib c srv view laws)

  -- An effect that leaves the resource in memory and what is stored.
  abbrev Same : Job W → Job W → Type 0
  Same j k = (k.milvus ≡ j.milvus) × (view k.world ≡ view j.world)

  then_do-Same :
      (j : Job W) (r : Option Error × Job W) (f : Job W → Option Error × Job W)
      → Same j r.1
      → ((k : Job W) → Same j k → Same j (f k).1)
      → Same j (then_do r f).1
  then_do-Same j (some e, k) f h g = h
  then_do-Same j (none, k) f h g = g k h

  with_pods-Same :
      (j : Job W) (t : String) (r : Result (List Pod) × Job W) (f : List Pod → Option Error)
      → Same j r.1
      → Same j (with_value (wrapped_value t r) (λ pods k. (f pods, k))).1
  with_pods-Same j t (ok pods, k) f h = h
  with_pods-Same j t (err e, k) f h = h

  check_last-Same :
      (y : Deployment) (j : Job W) → Same j (check_last_deployment_stable lib c srv y j).1
  unfolding check_last_deployment_stable
  check_last-Same y j = with_pods-Same j _ _ _ (list_deploy_pods-job lib c srv view laws y j)

  check_both-Same :
      (b : Bool) (x y : Deployment) (j : Job W)
      → Same j (check_deployments_stable lib c srv b x y j).1
  unfolding check_deployments_stable
  check_both-Same b x y j =
      then_do-Same j (check_last_deployment_stable lib c srv y j)
        (λ k.
          with_value (wrapped_value "list current deploy pods" (list_deploy_pods lib c srv x k))
            (λ pods l. (current_stable b x pods, l)))
        (check_last-Same y j)
        (λ k h.
          let (m, v) = list_deploy_pods-job lib c srv view laws x k in
          with_pods-Same j "list current deploy pods" (list_deploy_pods lib c srv x k)
            (current_stable b x) (m ∙ h.0, v ∙ h.1))

  wait_until-Same :
      (w : Wait) (x y : Deployment) (j : Job W) → Same j (wait_until lib c srv w x y j).1
  wait_until-Same wait_for_nothing x y j = (refl, refl)
  wait_until-Same wait_for_last x y j = check_last-Same y j
  wait_until-Same (wait_for_both b) x y j = check_both-Same b x y j

  Same-Safely :
      (x y : Deployment) (j : Job W) (r : Option Error × Job W)
      → Safe lib c srv view laws j.world
      → Holding lib c srv view laws x y j
      → Same j r.1
      → Safely (λ k. Holding lib c srv view laws x y k × (k.milvus ≡ j.milvus)) r
  Same-Safely x y j r s h (m, v) = (rw v s, λ _. ((rw (m, v) h.0, rw v h.1), m))

  mark-none :
      (n : ℤ) (j : Job W)
      → get_current_group_id j.milvus (state_key lib c) ≡ lib.itoa n
      → mark_milvus_component_group_id lib c srv n j ≡ (none, j)
  unfolding mark_milvus_component_group_id
  mark-none n j h = rw ((eq_iff _ _).1 h) refl

  current_id :
      (x : Deployment) (m : Milvus)
      → IsCurrent lib c m x true
      → get_label_group_id (kind_name c.kind) x.labels ≡ get_current_group_id m (state_key lib c)
  unfolding component_deploy_is_current_group
  current_id x m h = (eq_iff _ _).0 h

  mark_deploy_as_current-id :
      (x : Deployment) (j : Job W) (t : String)
      → get "app.kubernetes.io/component" x.labels ≡ t
      → mark_deploy_as_current lib c srv x j
        ≡ mark_as lib c srv (parsed lib c (lib.atoi (get_label_group_id t x.labels))) j
  unfolding mark_deploy_as_current get_deployment_group_id
  mark_deploy_as_current-id x j t h =
      subst
        (λ u.
          mark_deploy_as_current lib c srv x j
          ≡ mark_as lib c srv (parsed lib c (lib.atoi (get_label_group_id u x.labels))) j)
        h refl

  -- The current deployment carries the current group id already.
  mark_deploy_as_current-none :
      (x : Deployment) (j : Job W)
      → IsWell lib c x
      → IsCurrent lib c j.milvus x true
      → (e : Option Error) × (mark_deploy_as_current lib c srv x j ≡ (e, j))
  mark_deploy_as_current-none x j w cur =
      let id = lib.atoi (get_label_group_id (kind_name c.kind) x.labels) in
      elim (Result-cases id) [
        | inl (e, q) ↦ (
          some (wrap "get deployment group id" (wrap "parse component group id" e)),
          mark_deploy_as_current-id x j _ w.named ∙ rw q refl,
        )
        | inr (n, q) ↦
            let marked = mark-none n j (sym (current_id x j.milvus cur) ∙ sym (w.canonical n q)) in
            (none, mark_deploy_as_current-id x j _ w.named ∙ rw (q, marked) refl)
      ]

  updated-Safely :
      (u v d : Deployment) (z : ℤ) (j : Job W)
      → Safe lib c srv view laws j.world
      → Holding lib c srv view laws u v j
      → (d.name ≡ u.name) × (d.labels ≡ u.labels)
      → IsWell lib c u
      → (NotRolling lib c j.milvus → IsIdle lib c j.milvus (add_replicas d z))
      → Safely (Synced lib c srv view laws) (requeued (update_deployment srv (add_replicas d z) j))
  updated-Safely u v d z j s h same w idle =
      requeued-Ends (Safe lib c srv view laws) (Holding lib c srv view laws (add_replicas d z) v)
        (Synced lib c srv view laws) _
        (update_deployment-Safe lib c srv view laws u v (add_replicas d z) j s h same.0
          (IsWell-labels lib c (add_replicas d z) u same.1 w) idle)

  do_scale_action-Safe :
      (o : Option Target) (z : ℤ) (x y dx dy : Deployment) (j : Job W)
      → Safe lib c srv view laws j.world
      → Holding lib c srv view laws x y j
      → IsCurrent lib c j.milvus x true
      → (NotRolling lib c j.milvus → o ≢ some last_deploy)
      → (dx.name ≡ x.name) × (dx.labels ≡ x.labels)
      → (dy.name ≡ y.name) × (dy.labels ≡ y.labels)
      → Safely
          (Synced lib c srv view laws)
          (do_scale_action lib c srv (record { deploy = o; replica_change = z }) dx dy j)
  unfolding do_scale_action component_deploy_is_current_group
  do_scale_action-Safe none z x y dx dy j s h cur other sx sy =
      if-all (Safely (Synced lib c srv view laws)) (z ==ℤ pos 0) (none, j) (none, j)
        (λ _. (s, λ _. h.0)) (λ _. (s, λ _. h.0))
  do_scale_action-Safe (some current_deploy) z x y dx dy j s h cur other sx sy =
      if-all (Safely (Synced lib c srv view laws)) (z ==ℤ pos 0) (none, j) _ (λ _. (s, λ _. h.0))
        (λ _.
          updated-Safely x y dx z j s h sx (Holding-IsWell lib c srv view laws x y j s h).0
            (λ r old. absurd (true≢false (sym cur ∙ rw sx.1 at old))))
  do_scale_action-Safe (some last_deploy) z x y dx dy j s h cur other sx sy =
      if-all (Safely (Synced lib c srv view laws)) (z ==ℤ pos 0) (none, j) _ (λ _. (s, λ _. h.0))
        (λ _.
          updated-Safely y x dy z j s (h.0, swap_Held lib c srv view laws (view j.world) x y h.1) sy
            (Holding-IsWell lib c srv view laws x y j s h).1 (λ r. absurd (other r refl)))

  scale-Safe :
      (x y : Deployment) (b : Bool) (j : Job W)
      → Safe lib c srv view laws j.world
      → Holding lib c srv view laws x y j
      → IsCurrent lib c j.milvus x true
      → IsCurrent lib c j.milvus y false
      → Safely (Synced lib c srv view laws) (
          do_scale_action lib c srv
            (plan_next_scale_action lib.scaling lib.stand_by b c j.milvus.spec x y)
            (with_strategy lib.scaling lib.stand_by c j.milvus.spec x)
            (with_strategy lib.scaling lib.stand_by c j.milvus.spec y)
            j)
  scale-Safe x y b j s h cur old =
      let a = plan_next_scale_action lib.scaling lib.stand_by b c j.milvus.spec x y in
      do_scale_action-Safe a.deploy a.replica_change x y _ _ j s h cur
        (λ r.
          plan_next_scale_action-idle lib.scaling lib.stand_by b c j.milvus.spec x y
            ((Holding-IsIdle lib c srv view laws x y j s h r).1 old))
        (refl, refl) (refl, refl)

  mark-Safely :
      (x y : Deployment) (j : Job W)
      → Safe lib c srv view laws j.world
      → Holding lib c srv view laws x y j
      → IsCurrent lib c j.milvus x true
      → Safely
          (λ k. Holding lib c srv view laws x y k × (k.milvus ≡ j.milvus))
          (mark_deploy_as_current lib c srv x j)
  mark-Safely x y j s h cur =
      let (e, q) =
        mark_deploy_as_current-none x j (Holding-IsWell lib c srv view laws x y j s h).0 cur in
      rw q (s, λ _. (h, refl))

  scale_deployments-Safe :
      (x y : Deployment) (j : Job W)
      → Safe lib c srv view laws j.world
      → Holding lib c srv view laws x y j
      → IsCurrent lib c j.milvus x true
      → IsCurrent lib c j.milvus y false
      → Safely (Synced lib c srv view laws) (scale_deployments lib c srv x y j)
  unfolding scale_deployments check_can_scale_now
  scale_deployments-Safe x y j s h cur old =
      then_do-Ends (Safe lib c srv view laws)
        (λ k. Holding lib c srv view laws x y k × (k.milvus ≡ j.milvus))
        (Synced lib c srv view laws) (mark_deploy_as_current lib c srv x j) _
        (mark-Safely x y j s h cur)
        (λ k sk hk.
          then_do-Ends (Safe lib c srv view laws)
            (λ l. Holding lib c srv view laws x y l × (l.milvus ≡ k.milvus))
            (Synced lib c srv view laws) (check_can_scale_now lib c srv x y k) _
            (Same-Safely x y k _ sk hk.0 (wait_until-Same (scale_wait lib c k.milvus x y) x y k))
            (λ l sl hl.
              let same = hl.1 ∙ hk.1 in
              scale-Safe x y (is_component_rolling l.milvus (state_key lib c)) l sl hl.0
                (rw same cur) (rw same old)))

  pub handle_scaling-Safe :
      (j : Job W)
      → Safe lib c srv view laws j.world
      → Synced lib c srv view laws j
      → Safely (Synced lib c srv view laws) (handle_scaling lib c srv j)
  unfolding handle_scaling
  handle_scaling-Safe j s y =
      get_deploys-Safe lib c srv view laws (Synced lib c srv view laws) _ _ j s y
        (λ d e k sk hk cur old. scale_deployments-Safe d e k sk hk cur old)
