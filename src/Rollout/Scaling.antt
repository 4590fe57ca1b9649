-- ===== src/Rollout/Scaling.antt =====
-- The scaling of the two deployments: ScaleDeployments, checkCanScaleNow, checkLastDeploymentStable,
-- checkDeploymentsStable, markDeployAsCurrent and doScaleAction of
-- pkg/controllers/deploy_ctrl_util.go, and GetDeploymentGroupId of rollout_util.go.
use milvus_operator.Base.{
  String, Bool, false, not, ◌&&◌, Option, none, some, List, [], ◌∷◌, ◌==◌, length, if◌then◌else◌,
  Error, requeue, wrap, Result, ok, err, then_do, with_value, wrapped, wrapped_value, filter,
}
use milvus_operator.Base.Int.{ℤ, pos, ltb_ℤ, ◌==ℤ◌}
use milvus_operator.Api.Labels.{get}
use milvus_operator.Api.Status.{holds}
use milvus_operator.Deployment.{
  Deployment, Pod, PodCondition, pod_ready, pod_other, is_running, get_deploy_replicas,
  get_terminating_pods, deployment_is_stable,
}
use milvus_operator.Component.{MilvusComponent}
use milvus_operator.Strategy.{get_deployment_strategy, rollout_steps}
use milvus_operator.Scale.{
  current_deploy, last_deploy, ScaleAction, ScaleKind, rollout, hpa, force_upgrade,
  check_scale_kind, expected_replicas, plan_next_scale_action, with_strategy, add_replicas,
}
use milvus_operator.Rollout.{Milvus, get_label_group_id, is_component_rolling}
use milvus_operator.Rollout.Server.{Server, Library, Effect}
use milvus_operator.Rollout.Store.{state_key, list_deploy_pods}
use milvus_operator.Rollout.Updates.{update_deployment, requeued, mark_milvus_component_group_id}

-- The first readiness condition of a pod holds.
unfoldable pub pod_ready_holds : List PodCondition → Bool
pod_ready_holds [] = false
pod_ready_holds (p ∷ ps) =
    let rest = pod_ready_holds ps in elim p.type [ pod_ready ↦ holds p.status | pod_other ↦ rest ]

unfoldable pub is_ready_pod : Pod → Bool
unfolding pod_ready_holds
is_ready_pod p = not p.terminating && (is_running p && pod_ready_holds p.conditions)

-- The preceding scale has been observed and its terminations have ended.
unfoldable pub scale_observed : Deployment → List Pod → Bool
unfolding get_deploy_replicas get_terminating_pods
scale_observed d pods =
    (d.status.observed_generation == d.generation)
    && ((d.status.replicas ==ℤ get_deploy_replicas d)
        && ((d.status.updated_replicas ==ℤ d.status.replicas)
            && ((pos (length pods) ==ℤ get_deploy_replicas d)
                && (length (get_terminating_pods pods) == 0))))

abbrev pub not_stable : String → Option Error
not_stable text = some (wrap text requeue)

-- checkDeploymentsStable on the pods of the current deployment.
unfoldable pub current_stable : Bool → Deployment → List Pod → Option Error
unfolding is_ready_pod deployment_is_stable scale_observed
current_stable allow_unavailable d pods =
    let ready = pos (length (filter is_ready_pod pods)) in
    if allow_unavailable && ltb_ℤ ready d.status.available_replicas
    then not_stable "current deploy available replicas exceed ready pods"
    else elim (deployment_is_stable d pods) [
      | none ↦ none
      | some i ↦
          if allow_unavailable && scale_observed d pods
          then none
          else not_stable "current deploy is not stable[%s]"
    ]

abbrev pub last_stable : Deployment → List Pod → Option Error
last_stable d pods = elim (deployment_is_stable d pods) [
  | none ↦ none
  | some i ↦ not_stable "last deploy is not stable[%s]"
]

-- What checkCanScaleNow waits for.
pub data Wait : Type 0 where
  wait_for_nothing wait_for_last : Wait
  wait_for_both : Bool → Wait

abbrev pub wait_of_kind : ScaleKind → ℤ → ℤ → ℤ → ℤ → Wait
wait_of_kind hpa surge unavailable current expected = wait_for_nothing
wait_of_kind force_upgrade surge unavailable current expected = wait_for_nothing
wait_of_kind rollout surge unavailable current expected =
    wait_for_both ((surge ==ℤ pos 0) && ltb_ℤ (pos 0) unavailable)
wait_of_kind _ surge unavailable current expected =
    if (surge ==ℤ pos 0) && ltb_ℤ current expected then wait_for_last else wait_for_nothing

module _ (lib : Library) (c : MilvusComponent) where
  unfoldable pub scale_wait : Milvus → Deployment → Deployment → Wait
  unfolding expected_replicas get_deploy_replicas get_deployment_strategy rollout_steps
  scale_wait m current last =
      let expected = expected_replicas c m.spec in
      let strategy = get_deployment_strategy lib.stand_by m.spec c in
      let (surge, unavailable) = rollout_steps lib.scaling strategy expected in
      wait_of_kind (check_scale_kind c m.spec last) surge unavailable (get_deploy_replicas current)
        expected

  abbrev pub parsed : Result ℤ → Result ℤ
  parsed (ok id) = ok id
  parsed (err e) = err (wrap "parse component group id" e)

  unfoldable pub get_deployment_group_id : Deployment → Result ℤ
  unfolding get_label_group_id
  get_deployment_group_id d =
      let component = get "app.kubernetes.io/component" d.labels in
      parsed (lib.atoi (get_label_group_id component d.labels))

  module _ {W : Type 0} (srv : Server W) where
    unfoldable pub check_last_deployment_stable : Deployment → Effect W
    unfolding list_deploy_pods deployment_is_stable
    check_last_deployment_stable last j =
        with_value (wrapped_value "list last deploy pods" (list_deploy_pods lib c srv last j))
          (λ pods k. (last_stable last pods, k))

    unfoldable pub check_deployments_stable : Bool → Deployment → Deployment → Effect W
    unfolding check_last_deployment_stable list_deploy_pods current_stable
    check_deployments_stable allow_unavailable current last j =
        then_do (check_last_deployment_stable last j) (λ k.
          with_value
            (wrapped_value "list current deploy pods" (list_deploy_pods lib c srv current k))
            (λ pods l. (current_stable allow_unavailable current pods, l)))

    abbrev pub wait_until : Wait → Deployment → Deployment → Effect W
    wait_until wait_for_nothing current last j = (none, j)
    wait_until wait_for_last current last j =
        wrapped "check deployments stable" (check_last_deployment_stable last j)
    wait_until (wait_for_both allow) current last j =
        wrapped "check deployments stable" (check_deployments_stable allow current last j)

    unfoldable pub check_can_scale_now : Deployment → Deployment → Effect W
    unfolding scale_wait check_last_deployment_stable check_deployments_stable
    check_can_scale_now current last j =
        wait_until (scale_wait j.milvus current last) current last j

    unfoldable pub do_scale_action : ScaleAction → Deployment → Deployment → Effect W
    unfolding update_deployment
    do_scale_action a current last j =
        if a.replica_change ==ℤ pos 0 then (none, j) else elim a.deploy [
          | none ↦ (none, j)
          | some t ↦ elim t [
            | current_deploy ↦
                requeued (update_deployment srv (add_replicas current a.replica_change) j)
            | last_deploy ↦ requeued (update_deployment srv (add_replicas last a.replica_change) j)
          ]
        ]

    abbrev pub mark_as : Result ℤ → Effect W
    mark_as (err e) j = (some (wrap "get deployment group id" e), j)
    mark_as (ok id) j =
        wrapped "mark group id to %d" (mark_milvus_component_group_id lib c srv id j)

    unfoldable pub mark_deploy_as_current : Deployment → Effect W
    unfolding get_deployment_group_id mark_milvus_component_group_id
    mark_deploy_as_current current j = mark_as (get_deployment_group_id current) j

    unfoldable pub scale_deployments : Deployment → Deployment → Effect W
    unfolding mark_deploy_as_current check_can_scale_now do_scale_action plan_next_scale_action
        is_component_rolling state_key
    scale_deployments current last j = then_do (mark_deploy_as_current current j) (λ k.
        then_do (check_can_scale_now current last k) (λ l.
          let spec = l.milvus.spec in
          let rolling = is_component_rolling l.milvus (state_key lib c) in
          do_scale_action
            (plan_next_scale_action lib.scaling lib.stand_by rolling c spec current last)
            (with_strategy lib.scaling lib.stand_by c spec current)
            (with_strategy lib.scaling lib.stand_by c spec last) l))
