-- ===== src/Rollout/Updates.antt =====
-- What a rollout writes: MarkMilvusComponentGroupId and UpdateAndRequeue of
-- pkg/controllers/rollout_util.go; CreateDeploy, ShouldRollback, LastRolloutFinished,
-- IsPodTemplateChanged, PrepareNewRollout and their helpers of deploy_ctrl_util.go.
use Prim.Native.String.{◌++◌}
use milvus_operator.Base.{
  ℕ, Bool, true, false, not, Option, none, some, List, [], ◌∷◌, ◌==◌, str_eq, if◌then◌else◌, insert,
  Error, requeue, wrap, then_do, with_value, wrapped,
}
use milvus_operator.Base.Int.{ℤ, pos, leb_ℤ, ◌==ℤ◌}
use milvus_operator.Api.Labels.{StringMap, get}
use milvus_operator.Api.Spec.{DeploymentGroup}
use milvus_operator.Deployment.{
  PodTemplate, Deployment, Pod, get_deploy_replicas, to_int32, logic_and,
}
use milvus_operator.Component.{
  MilvusComponent, kind_name, replicas_value, get_least_replicas_regarding_hpa,
}
use milvus_operator.Strategy.{get_deployment_strategy}
use milvus_operator.Rollout.{
  Milvus, get_label_group_id, set_group_id_str, get_current_group_id, set_current_group_id_str,
  is_component_rolling, set_component_rolling,
}
use milvus_operator.Rollout.Metadata.{get_selector_labels, merge_labels, group_labels}
use milvus_operator.Rollout.Server.{Server, Library, Job, Effect}
use milvus_operator.Rollout.Store.{
  state_key, get_deployment_name, dummy_image, merged_paused, set_image, list_deploy_pods,
}

abbrev pub set_milvus : {W : Type 0} → Job W → Milvus → Job W
set_milvus j m = record j { milvus = m }

abbrev pub group_annotations : Option DeploymentGroup → StringMap
group_annotations none = []
group_annotations (some g) = merge_labels (g.annotations ∷ [])

abbrev pub template_or : Option PodTemplate → PodTemplate → PodTemplate
template_or none t = t
template_or (some given) t = given

-- UpdateAndRequeue: an error whatever the update answers.
abbrev pub requeued : {W : Type 0} → Option Error × Job W → Option Error × Job W
requeued (some e, j) = (some (wrap "update object" e), j)
requeued (none, j) = (some (wrap "update and requeue" requeue), j)

module _ {W : Type 0} (srv : Server W) where
  unfoldable pub update_milvus : Effect W
  update_milvus j = let (e, w) = srv.update_milvus j.milvus j.world in (e, record j { world = w })

  unfoldable pub update_deployment : Deployment → Effect W
  update_deployment d j =
      let (e, w) = srv.update_deployment d j.world in (e, record j { world = w })

module _ (lib : Library) (c : MilvusComponent) where
  -- isPodTemplateEqual: up to the group id, which neither side counts.
  unfoldable pub is_pod_template_equal : Deployment → PodTemplate → Bool
  unfolding set_group_id_str kind_name
  is_pod_template_equal d template =
      let blank = λ (t : PodTemplate). record t {
        labels = set_group_id_str (kind_name c.kind) t.labels "";
      } in
      lib.same_template (blank d.template) (blank template)

  unfoldable pub is_pod_template_changed : Deployment → PodTemplate → Bool
  unfolding is_pod_template_equal
  is_pod_template_changed d template = not (is_pod_template_equal d template)

  unfoldable pub should_rollback : Deployment → Deployment → PodTemplate → Bool
  unfolding is_pod_template_equal
  should_rollback current last template =
      if is_pod_template_equal current template then false else is_pod_template_equal last template

  -- updatePodTemplateTwoDeployMode.
  unfoldable pub update_pod_template : Deployment → PodTemplate → Deployment
  unfolding set_group_id_str get_label_group_id kind_name
  update_pod_template d template =
      let id = get_label_group_id (kind_name c.kind) d.labels in
      record d {
        template = record template {
          labels = set_group_id_str (kind_name c.kind) template.labels id;
        };
      }

  -- RenewDeployAnnotation, and whether it changes the deployment.
  unfoldable pub renew_deploy_annotation : Milvus → Deployment → Deployment × Bool
  renew_deploy_annotation m d =
      let expected = lib.itoa (pos m.generation) in
      if str_eq (get "milvus.io/generation" d.annotations) expected
      then (d, false)
      else (record d { annotations = insert "milvus.io/generation" expected d.annotations }, true)

  -- The deployment of CreateDeploy. Its progress deadline and MinReadySeconds, which are
  -- constants, and its status and generation, which are the server's, are left out.
  unfoldable pub new_deploy : Milvus → PodTemplate → ℤ → Deployment
  unfolding get_selector_labels merge_labels set_group_id_str dummy_image merged_paused kind_name
      get_deployment_name
  new_deploy m template id =
      let containers =
        if id ==ℤ pos 0
        then template.containers
        else set_image (dummy_image m) template.containers in
      let labels =
        set_group_id_str (kind_name c.kind) (get_selector_labels c m.name) (lib.itoa id) in
      record {
        name = get_deployment_name c m.name ++ ("-" ++ lib.itoa id);
        generation = 0;
        labels = group_labels c.group labels;
        annotations = group_annotations c.group;
        selector = labels;
        paused = merged_paused c m;
        replicas = some (to_int32 (pos 0));
        strategy = get_deployment_strategy lib.stand_by m.spec c;
        template = record template {
          labels = merge_labels (template.labels ∷ labels ∷ []);
          containers = containers;
        };
        status = record {
          observed_generation = 0;
          replicas = pos 0;
          updated_replicas = pos 0;
          ready_replicas = pos 0;
          available_replicas = pos 0;
          unavailable_replicas = pos 0;
          conditions = [];
        };
      }

  -- The eight conditions of LastRolloutFinished.
  unfoldable pub finish_conditions : Milvus → Deployment → Deployment → List Bool
  unfolding get_least_replicas_regarding_hpa get_deploy_replicas
  finish_conditions m current last =
      let st = current.status in
      leb_ℤ (get_least_replicas_regarding_hpa c m.spec) (replicas_value current.replicas)
      ∷ (st.observed_generation == current.generation)
      ∷ (last.status.observed_generation == last.generation)
      ∷ (to_int32 (get_deploy_replicas current) ==ℤ st.updated_replicas)
      ∷ (st.updated_replicas ==ℤ st.replicas)
      ∷ (st.updated_replicas ==ℤ st.available_replicas)
      ∷ (get_deploy_replicas last ==ℤ pos 0)
      ∷ (last.status.replicas ==ℤ pos 0)
      ∷ []

  -- The first that fails.
  unfoldable pub deployments_show_finished : Milvus → Deployment → Deployment → Option ℕ
  unfolding finish_conditions logic_and
  deployments_show_finished m current last = logic_and (finish_conditions m current last) 0

  module _ {W : Type 0} (srv : Server W) where
    unfoldable pub mark_milvus_component_group_id : ℤ → Effect W
    unfolding get_current_group_id set_current_group_id_str update_milvus state_key
    mark_milvus_component_group_id id j =
        let text = lib.itoa id in
        let key = state_key lib c in
        if str_eq (get_current_group_id j.milvus key) text
        then (none, j)
        else requeued
            (update_milvus srv (set_milvus j (set_current_group_id_str j.milvus key text)))

    unfoldable pub create_deploy : Option PodTemplate → ℤ → Effect W
    unfolding new_deploy
    create_deploy given id j =
        let template = template_or given (lib.render j.milvus none c true) in
        let d = new_deploy j.milvus template id in
        elim (srv.set_controller_reference d) [
          | some e ↦ (some (wrap "set controller reference" e), j)
          | none ↦ let (e, w) = srv.create_deployment d j.world in (e, record j { world = w })
        ]

    abbrev pub clear_rolling : Job W → Job W
    clear_rolling j = set_milvus j (set_component_rolling lib.itoa j.milvus (state_key lib c) false)

    -- What follows when no pod of the last deployment is left, and otherwise.
    abbrev pub finish_without_pods : List Pod → Effect W
    finish_without_pods [] j = requeued (update_milvus srv (clear_rolling j))
    finish_without_pods (p ∷ ps) j = (none, j)

    -- LastRolloutFinished.
    unfoldable pub last_rollout_finished :
        Deployment → Deployment → Job W → (Bool × Option Error) × Job W
    unfolding is_component_rolling deployments_show_finished list_deploy_pods update_milvus
        set_component_rolling state_key
    last_rollout_finished current last j =
        if not (is_component_rolling j.milvus (state_key lib c))
        then ((true, none), j)
        else elim (deployments_show_finished j.milvus current last) [
          | some i ↦ ((false, none), j)
          | none ↦
              let (e, k) = with_value (list_deploy_pods lib c srv last j) finish_without_pods in
              ((false, e), k)
        ]

    -- PrepareNewRollout, of the deployment that is to become the current one.
    unfoldable pub prepare_new_rollout : Deployment → PodTemplate → Effect W
    unfolding update_pod_template renew_deploy_annotation update_deployment update_milvus
        set_current_group_id_str set_component_rolling get_label_group_id state_key kind_name
    prepare_new_rollout d template j =
        let id = get_label_group_id (kind_name c.kind) d.labels in
        let key = state_key lib c in
        let renewed = (renew_deploy_annotation j.milvus (update_pod_template d template)).0 in
        then_do (wrapped "updateDeployTemplate failed" (update_deployment srv renewed j)) (λ k.
          let marked = set_current_group_id_str k.milvus key id in
          requeued
            (update_milvus srv (set_milvus k (set_component_rolling lib.itoa marked key true))))
