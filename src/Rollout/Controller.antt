-- ===== src/Rollout/Controller.antt =====
-- DeployControllerImpl and DeployControllerBizImpl: pkg/controllers/deploy_ctrl.go.
use milvus_operator.Base.{
  Bool, true, false, not, ◌&&◌, ◌||◌, Option, none, some, List, [], ◌∷◌, ltb, str_eq, if◌then◌else◌,
  is_some, Error, requeue, not_found, no_last_deployment, wrap, is_api_not_found, Result, ok, err,
  then_do, with_value, wrapped, wrapped_value,
}
use milvus_operator.Base.Int.{pos, ltb_ℤ, ◌==ℤ◌}
use milvus_operator.Api.Labels.{get}
use milvus_operator.Api.Status.{holds}
use milvus_operator.Api.Spec.{not_set, v1, v2, v3, query_node}
use milvus_operator.Api.Stopping.{nil_pointer, is_milvus_stopping_for_reconcile}
use milvus_operator.Conditions.{get_condition}
use milvus_operator.Deployment.{PodTemplate, Deployment, get_deploy_replicas, to_int32}
use milvus_operator.Component.{
  MilvusComponent, kind_name, is, plain, is_hpa_enabled, replicas_value, get_replicas,
}
use milvus_operator.Rollout.{
  Milvus, is_changing_mode, get_label_group_id, is_component_rolling, set_component_rolling,
}
use milvus_operator.Rollout.Metadata.{desired_deployment_labels, desired_deployment_annotations}
use milvus_operator.Rollout.Server.{Server, Library, Job, Effect}
use milvus_operator.Rollout.Store.{state_key, get_deploys, get_old_deploy}
use milvus_operator.Rollout.Updates.{
  requeued, update_milvus, update_deployment, mark_milvus_component_group_id, create_deploy,
  clear_rolling, is_pod_template_changed, should_rollback, last_rollout_finished,
  prepare_new_rollout, renew_deploy_annotation, update_pod_template,
}
use milvus_operator.Rollout.Scaling.{scale_deployments}

pub data DeployMode : Type 0 where
  one_deploy_mode two_deploy_mode : DeployMode

-- The parts that DeployControllerImpl and DeployControllerBizImpl are built from: the updater of
-- the rolling mode, the controller of one deployment, and DeployModeChanger.
pub record Parts (W : Type 0) : Type 0 where
  pub update_rolling_mode : Effect W
  pub one_deploy_reconcile : Effect W
  pub mark_deploy_mode_changing : Bool → Effect W
  pub change_to_two_deploy_mode : Effect W

abbrev upgrade_stopping : Milvus → Bool
upgrade_stopping m = str_eq (get "milvus.io/upgrade-stopping" m.annotations) "true"

unfoldable pub stop_needed : Deployment → Bool
unfolding get_deploy_replicas
stop_needed d = not (get_deploy_replicas d ==ℤ pos 0)

abbrev pub stopped : Deployment → Deployment
stopped d = record d { replicas = some (to_int32 (pos 0)) }

module _ (lib : Library) (c : MilvusComponent) where
  unfoldable pub is_updating : Milvus → Result Bool
  unfolding is_changing_mode state_key is_milvus_stopping_for_reconcile get_condition
  is_updating m =
      if is_changing_mode m (state_key lib c)
      then ok false
      else elim (is_milvus_stopping_for_reconcile lib.newer_than_2_6 (upgrade_stopping m) m.spec) [
        | err e ↦ err e
        | ok stopping ↦
            if stopping
            then ok false
            else if ltb m.status.observed_generation m.generation
            then ok true
            else elim (get_condition "MilvusUpdated" m.status.conditions) [
              | none ↦ ok true
              | some cond ↦ ok (not (holds cond.status))
            ]
      ]

  unfoldable pub is_paused : Milvus → Result Bool
  is_paused m =
      if m.spec.components.paused
      then ok true
      else elim (m.spec.components.field c.kind) [ none ↦ err nil_pointer | some f ↦ ok f.paused ]

  -- The guard of HandleStop in Reconcile.
  unfoldable pub should_stop : Milvus → Bool
  unfolding get_replicas is_hpa_enabled
  should_stop m =
      (replicas_value (get_replicas c m.spec) ==ℤ pos 0)
      && (not (is_hpa_enabled c m.spec) || upgrade_stopping m)

  -- The metadata that a group's deployment is to have.
  unfoldable pub with_group_metadata : Milvus → Deployment → Deployment
  unfolding desired_deployment_labels desired_deployment_annotations get_label_group_id kind_name
  with_group_metadata m d =
      let slot = get_label_group_id (kind_name c.kind) d.labels in
      record d {
        labels = desired_deployment_labels m.name c slot d.labels;
        annotations = desired_deployment_annotations c d.annotations;
      }

  unfoldable pub metadata_in_sync : Milvus → Deployment → Bool
  unfolding with_group_metadata
  metadata_in_sync m d =
      let e = with_group_metadata m d in
      lib.same_map e.labels d.labels && lib.same_map e.annotations d.annotations

  module _ {W : Type 0} (srv : Server W) where
    -- The loop of reconcileDeploymentGroupMetadata, and whether it has updated any.
    unfoldable pub sync_metadata : List Deployment → Bool → Effect W
    unfolding metadata_in_sync with_group_metadata update_deployment
    sync_metadata [] updated j =
        (if updated then some (wrap "deployment group metadata updated" requeue) else none, j)
    sync_metadata (d ∷ ds) updated j =
        if metadata_in_sync j.milvus d
        then sync_metadata ds updated j
        else then_do
            (wrapped "update deployment group metadata"
              (update_deployment srv (with_group_metadata j.milvus d) j))
            (λ k. sync_metadata ds true k)

    unfoldable pub reconcile_deployment_group_metadata : List Deployment → Effect W
    unfolding sync_metadata
    reconcile_deployment_group_metadata ds j =
        if is_some c.group then sync_metadata ds false j else (none, j)

    -- `switch err` of HandleCreate. The two sentinels come unwrapped from GetDeploys.
    abbrev pub create_missing : Error → Effect W
    create_missing not_found j =
        then_do
          (wrapped "mark milvus %s group id to %d"
            (mark_milvus_component_group_id lib c srv (pos 0) j))
          (λ k. wrapped "create %s deployment 0" (create_deploy lib c srv none (pos 0) k))
    create_missing no_last_deployment j = create_deploy lib c srv none (pos 1) j
    create_missing e j = (some (wrap "get %s deploys" e), j)

    abbrev pub create_or_sync : Result (Deployment × Deployment) × Job W → Option Error × Job W
    create_or_sync (ok (current, last), j) =
        reconcile_deployment_group_metadata (current ∷ last ∷ []) j
    create_or_sync (err e, j) = create_missing e j

    unfoldable pub handle_create : Effect W
    unfolding get_deploys reconcile_deployment_group_metadata mark_milvus_component_group_id
        create_deploy
    handle_create j = create_or_sync (get_deploys lib c srv j)

    unfoldable pub stop_deploy_if_not : Deployment → Effect W
    unfolding stop_needed update_deployment
    stop_deploy_if_not d j =
        if stop_needed d
        then wrapped "stop current deployment" (update_deployment srv (stopped d) j)
        else (none, j)

    unfoldable pub handle_stop : Effect W
    unfolding get_deploys stop_deploy_if_not is_component_rolling update_milvus
        set_component_rolling state_key
    handle_stop j =
        with_value (wrapped_value "get querynode deploys" (get_deploys lib c srv j)) (λ p k.
          then_do (wrapped "stop current deployment" (stop_deploy_if_not p.0 k)) (λ l.
            then_do (wrapped "stop last deployment" (stop_deploy_if_not p.1 l)) (λ m.
              if is_component_rolling m.milvus (state_key lib c)
              then update_milvus srv (clear_rolling lib c srv m)
              else (none, m))))

    unfoldable pub handle_scaling : Effect W
    unfolding get_deploys scale_deployments
    handle_scaling j =
        with_value (wrapped_value "get querynode deploys" (get_deploys lib c srv j))
          (λ p k. scale_deployments lib c srv p.0 p.1 k)

    -- What HandleRolling does after LastRolloutFinished.
    unfoldable pub roll_if_changed : Deployment → Deployment → PodTemplate → Effect W
    unfolding is_pod_template_changed get_deploy_replicas prepare_new_rollout
    roll_if_changed current last template j =
        let next = if ltb_ℤ (pos 0) (get_deploy_replicas current) then last else current in
        if is_pod_template_changed lib c current template
        then prepare_new_rollout lib c srv next template j
        else (none, j)

    abbrev pub after_last_rollout :
        Deployment → Deployment → PodTemplate → (Bool × Option Error) × Job W → Option Error × Job W
    after_last_rollout current last template ((finished, some e), j) =
        (some (wrap "check last rollout" e), j)
    after_last_rollout current last template ((false, none), j) = (none, j)
    after_last_rollout current last template ((true, none), j) =
        roll_if_changed current last template j

    -- HandleRolling with its two deployments, which GetDeploys answers only together.
    unfoldable pub roll : Deployment → Deployment → Effect W
    unfolding should_rollback prepare_new_rollout last_rollout_finished roll_if_changed
    roll current last j =
        let template = lib.render j.milvus (some current.template) c false in
        if should_rollback lib c current last template
        then prepare_new_rollout lib c srv last template j
        else after_last_rollout current last template
            (last_rollout_finished lib c srv current last j)

    unfoldable pub handle_rolling : Effect W
    unfolding get_deploys roll
    handle_rolling j =
        with_value (wrapped_value "get [%s] deploys" (get_deploys lib c srv j))
          (λ p k. roll p.0 p.1 k)

    -- HandleManualMode with the current deployment.
    unfoldable pub manual : Deployment → Effect W
    unfolding is_pod_template_changed stop_needed renew_deploy_annotation update_pod_template
        update_deployment
    manual current j =
        let template = lib.render j.milvus (some current.template) c true in
        let changed = is_pod_template_changed lib c current template in
        let (renewed, need_update) = renew_deploy_annotation lib c j.milvus current in
        let next = if changed then update_pod_template lib c renewed template else renewed in
        if stop_needed current
        then (
          if changed
              then some (wrap "pod template is out of sync in manual mode" requeue)
              else none,
          j,
        )
        else if need_update || changed
        then requeued (update_deployment srv next j)
        else (none, j)

    unfoldable pub handle_manual_mode : Effect W
    unfolding get_deploys manual
    handle_manual_mode j =
        with_value (wrapped_value "get [%s] deploys" (get_deploys lib c srv j))
          (λ p k. manual p.0 k)

    abbrev pub mode_in_cluster : Result Deployment × Job W → Result DeployMode × Job W
    mode_in_cluster (ok d, j) = (ok one_deploy_mode, j)
    mode_in_cluster (err e, j) =
        if is_api_not_found e
        then (ok two_deploy_mode, j)
        else (err (wrap "check rolling mode in cluster" (wrap "get deployments" e)), j)

    -- CheckDeployMode, where the rolling mode of the status does not settle it.
    unfoldable pub check_in_cluster : Job W → Result DeployMode × Job W
    unfolding is_changing_mode state_key get_old_deploy
    check_in_cluster j =
        if is_changing_mode j.milvus (state_key lib c)
        then (ok one_deploy_mode, j)
        else mode_in_cluster (get_old_deploy lib c srv j)

    unfoldable pub check_deploy_mode : Job W → Result DeployMode × Job W
    unfolding check_in_cluster is
    check_deploy_mode j = elim j.milvus.status.rolling_mode [
      | v3 ↦ (ok two_deploy_mode, j)
      | v2 ↦ if is c (plain query_node) then (ok two_deploy_mode, j) else check_in_cluster j
      | v1 ↦ check_in_cluster j
      | not_set ↦ check_in_cluster j
    ]

    -- Reconcile after HandleCreate, from its pause on.
    unfoldable pub reconcile_created : Bool → Effect W
    unfolding handle_manual_mode handle_stop handle_rolling handle_scaling should_stop
    reconcile_created paused j =
        if paused
        then (none, j)
        else if j.milvus.spec.components.enable_manual_mode
        then handle_manual_mode j
        else if should_stop j.milvus
        then handle_stop j
        else then_do (wrapped "handle rolling" (handle_rolling j))
            (λ k. wrapped "handle scaling" (handle_scaling k))

    -- Reconcile of an instance that has two deployments.
    unfoldable pub reconcile_two : Effect W
    unfolding handle_create reconcile_created is_paused
    reconcile_two j =
        then_do (wrapped "handle create" (handle_create j))
          (λ k. with_value (is_paused k.milvus, k) reconcile_created)

    module _ (parts : Parts W) where
      abbrev pub change_mode : Bool → Effect W
      change_mode true j = parts.one_deploy_reconcile j
      change_mode false j = then_do (parts.mark_deploy_mode_changing true j) (λ k.
          then_do (wrapped "change to two deployment mode" (parts.change_to_two_deploy_mode k))
            (λ l. then_do (parts.mark_deploy_mode_changing false l) reconcile_two))

      abbrev pub in_mode : DeployMode → Effect W
      in_mode one_deploy_mode j =
          with_value (wrapped_value "check if updating" (is_updating j.milvus, j)) change_mode
      in_mode two_deploy_mode j = then_do (parts.mark_deploy_mode_changing false j) reconcile_two

      unfoldable pub reconcile : Effect W
      unfolding check_deploy_mode is_updating reconcile_two
      reconcile j =
          then_do (wrapped "update milvus rolling mode status" (parts.update_rolling_mode j))
            (λ k. with_value (wrapped_value "check deploy mode" (check_deploy_mode k)) in_mode)
