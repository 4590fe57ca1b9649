-- ===== src/Examples/Statuses.antt =====
-- A standalone instance that serves.
use milvus_operator.Base.{
  ℕ, suc, String, Bool, true, false, not, ◌||◌, Option, none, some, List, [], ◌∷◌, All, all, filter,
  ◌≡◌, refl, ap, Error, errorf, ok, err, arith, api_not_found, lookup, insert,
}
use milvus_operator.Status.Deploys.{
  update_deploy_statuses, collect_workloads, collect_deployment, collect_status, aggregate_groups,
  found_or_nil, get_stateful_set_for_component,
}
use milvus_operator.Status.Ready.{
  get_milvus_instance_condition, check_listed, check_workloads, check_deployment,
  instance_condition, joined,
}
use milvus_operator.Status.Pods.{list_milvus_terminating_pods, filter_terminating_pod}
use milvus_operator.Api.Stopping.{
  is_milvus_stopping_for_reconcile, is_stopping, all_hold, replicas_are_zero,
}
use milvus_operator.Rollout.Metadata.{matches_deployment_group}
use milvus_operator.Api.Labels.{
  component_current_group_id_label, rolling_id_label, component_group_id_label,
}
use milvus_operator.Base.Int.{pos}
use milvus_operator.Api.Spec.{
  standalone, standalone_mode, Component, MilvusSpec, v2, use_cdc, component_or_groups_stopped,
}
use milvus_operator.Api.Status.{
  is_true, available, progressing, holds, get_state, DeploymentStatus, ComponentDeployStatus,
}
use milvus_operator.Api.Strategy.{recreate}
use milvus_operator.Component.{
  set_field, kind_name, get_component_workloads_by_spec, get_components_by_spec, expand,
  sort_groups, insert_group, get_deployment_groups, get_state_key, get_display_name, is_hpa_enabled,
  get_hpa_spec, is_idle_cluster_standalone, get_deployment_group_name, is,
}
use milvus_operator.Conditions.{update_condition, put_condition, get_condition}
use milvus_operator.Deployment.{Deployment}
use milvus_operator.Rollout.{Milvus, is_component_rolling, get_label_group_id, get_current_group_id}
use milvus_operator.Examples.{rolling_three}
use milvus_operator.StatefulSets.{component_uses_stateful_set}
use milvus_operator.Status.{
  healthy, unhealthy, pending, deployment_ready, aggregate_component_deploy_statuses,
  component_deploy_status, get_milvus_health_status,
}
use milvus_operator.Status.Aggregated.{joint_state, aggregate_component_deploy_statuses-state}
use milvus_operator.Status.Batches.{sync_batches}
use milvus_operator.Status.Once
use milvus_operator.Status.Once.{joined_groups, Fits, sync_batches-filter}
use milvus_operator.Status.Server.{Server}
use milvus_operator.Status.Syncer.{
  conditions_of, Instance, Environment, update_status_for_new_generation, check_instance,
  check_dependency_conditions, is_stopping_now, store_results, sync_updated_condition,
  finish_status, record_version, is_milvus_condition_true_by_type,
}
use milvus_operator.Status.Healthy.{IsServing, update_status_for_new_generation-IsServing}
use milvus_operator.Status.Updated.{is_as_wanted, get_milvus_updated_condition-holds}
use milvus_operator.Status.Workloads.{
  DeployStatuses, counted_workloads, is_updating_image, get_milvus_updated_condition,
  make_workload_deployment_map, put_workloads, serves, show_rolling, sort_deployments,
  insert_deployment, updating_components, workload_status, is_workload_updating,
}

abbrev ready_status : DeploymentStatus
ready_status = record {
  observed_generation = 1;
  replicas = pos 1;
  updated_replicas = pos 1;
  ready_replicas = pos 1;
  available_replicas = pos 1;
  unavailable_replicas = pos 0;
  conditions =
      record { type = available; status = is_true; reason = "" }
      ∷ record { type = progressing; status = is_true; reason = "NewReplicaSetAvailable" }
      ∷ [];
}

abbrev ready_group : ComponentDeployStatus
ready_group = record { generation = 1; image = "milvus:v2.5.1"; status = ready_status }

aggregate_component_deploy_statuses-state_example :
    (get_state (aggregate_component_deploy_statuses (ready_group ∷ ready_group ∷ []))
      ≡ joint_state (ready_group ∷ ready_group ∷ []))
    × (deployment_ready
          (aggregate_component_deploy_statuses (ready_group ∷ ready_group ∷ [])).status
        ≡ all (λ x. deployment_ready x.status) (ready_group ∷ ready_group ∷ []))
aggregate_component_deploy_statuses-state_example =
    aggregate_component_deploy_statuses-state ready_group (ready_group ∷ [])

abbrev same : String → String
same t = t

abbrev never : String → Bool
never v = false

abbrev always : Deployment → Milvus → Bool
always d m = true

abbrev one_standalone : MilvusSpec
one_standalone =
    let c : Component = record {
      paused = false;
      rolling_update = none;
      replicas = some (pos 1);
      hpa = none;
      groups = [];
      stateful_set = false;
    } in
    record (set_field standalone c rolling_three) { mode = standalone_mode }

abbrev milvus : Milvus
milvus = record {
  name = "m";
  generation = 2;
  labels = [];
  annotations = [];
  spec = one_standalone;
  status = record { rolling_mode = v2; observed_generation = 1; conditions = [] };
}

abbrev no_statuses : DeployStatuses
no_statuses = record { components = []; groups = [] }

get_milvus_updated_condition-holds_example :
    holds (get_milvus_updated_condition same never always milvus no_statuses).status
    ≡ all
        (λ c.
          is_idle_cluster_standalone milvus.spec c
          || is_as_wanted same never always milvus no_statuses c)
        (get_component_workloads_by_spec never milvus.spec)
get_milvus_updated_condition-holds_example =
    get_milvus_updated_condition-holds same never always milvus no_statuses

abbrev instance_of : Bool → Instance
instance_of b = record {
  milvus = milvus;
  deleting = b;
  health = pending;
  ingress_status = "";
  endpoint = "";
  current_image = "";
  current_version = "";
  deploy_statuses = no_statuses;
}

abbrev answer : List Instance → Option Error
answer is = some (errorf "a group failed")

sync_batches-filter_example :
    let is = instance_of false ∷ instance_of true ∷ instance_of false ∷ [] in
    let groups = (sync_batches (Once.recorded answer) 2 (λ i. not i.deleting) is [] none []).1 in
    (joined_groups groups ≡ filter (λ i. not i.deleting) is) × All (Fits 2) groups
sync_batches-filter_example =
    sync_batches-filter answer 2 (λ i. not i.deleting)
      (instance_of false ∷ instance_of true ∷ instance_of false ∷ []) (omega arith)

-- The one deployment of the instance.
abbrev deployment : Deployment
deployment = record {
  name = "m-milvus-standalone";
  generation = 1;
  labels = ("app.kubernetes.io/component", "standalone") ∷ [];
  annotations = [];
  selector = [];
  paused = false;
  replicas = some (pos 1);
  strategy = recreate;
  template = record { labels = []; containers = []; rest = "" };
  status = ready_status;
}

abbrev server : Deployment → Server ℕ
server d = record {
  list_deployments = λ labels n. (ok (d ∷ []), n);
  get_stateful_set = λ name n. (err api_not_found, n);
  list_pods = λ labels n. (ok [], n);
  kill_process = λ p c n. (none, n);
  error_detail = λ name d n. (ok "", n);
  stateful_set_error_detail = λ name s n. (ok "", n);
}

-- The world counts the statuses that are stored.
abbrev environment_of : Deployment → Environment ℕ
environment_of d = record {
  server = server d;
  now = λ n. n;
  debug = false;
  same_status = λ a b. false;
  probe_dependencies = λ i n. ([], n);
  error_texts = λ es. "";
  wants_ingress = λ i. false;
  get_ingress = λ name n. (ok "", n);
  get_milvus_endpoint = λ i n. ("m-milvus:19530", n);
  update_status = λ i n. (none, suc n);
  set_default = λ i. i;
}

abbrev environment : Environment ℕ
environment = environment_of deployment

abbrev updated : Option Error × (Instance × ℕ)
updated = update_status_for_new_generation same never always environment true (instance_of false, 0)

updated-serves : (updated.0 ≡ none) × (updated.1.0.health ≡ healthy)
unfolding update_status_for_new_generation check_instance check_dependency_conditions
    is_stopping_now store_results sync_updated_condition finish_status record_version
    is_milvus_condition_true_by_type update_deploy_statuses collect_workloads collect_deployment
    collect_status aggregate_groups found_or_nil get_stateful_set_for_component
    make_workload_deployment_map put_workloads serves show_rolling sort_deployments
    insert_deployment get_milvus_updated_condition updating_components is_updating_image
    counted_workloads workload_status is_workload_updating get_milvus_instance_condition
    check_listed check_workloads check_deployment instance_condition joined
    list_milvus_terminating_pods filter_terminating_pod deployment_ready component_deploy_status
    get_milvus_health_status aggregate_component_deploy_statuses component_uses_stateful_set
    is_milvus_stopping_for_reconcile is_stopping all_hold replicas_are_zero use_cdc
    component_or_groups_stopped get_state kind_name get_component_workloads_by_spec
    get_components_by_spec expand sort_groups insert_group get_deployment_groups get_state_key
    get_display_name is_hpa_enabled get_hpa_spec is_idle_cluster_standalone
    get_deployment_group_name is update_condition put_condition get_condition is_component_rolling
    get_label_group_id get_current_group_id matches_deployment_group
    component_current_group_id_label rolling_id_label component_group_id_label lookup insert
updated-serves = (refl, refl)

update_status_for_new_generation-IsServing_example :
    IsServing same never always environment updated.1.0
update_status_for_new_generation-IsServing_example =
    update_status_for_new_generation-IsServing same never always environment true
      (instance_of false, 0) updated.1.0 updated.1.1 (ap (λ e. (e, updated.1)) updated-serves.0)
      updated-serves.1

-- The same deployment, available without a ready pod, as one without replicas is.
abbrev idle : Deployment
idle = record deployment { status = record (deployment.status) { ready_replicas = pos 0 } }

abbrev then_idle : Option Error × (Instance × ℕ)
then_idle = update_status_for_new_generation same never always (environment_of idle) true updated.1

-- The condition stays true of an instance that has become unhealthy.
then_idle-ready :
    (then_idle.1.0.health ≡ unhealthy)
    × (is_milvus_condition_true_by_type (conditions_of then_idle.1.0) "MilvusReady" ≡ true)
unfolding update_status_for_new_generation check_instance check_dependency_conditions
    is_stopping_now store_results sync_updated_condition finish_status record_version
    is_milvus_condition_true_by_type update_deploy_statuses collect_workloads collect_deployment
    collect_status aggregate_groups found_or_nil get_stateful_set_for_component
    make_workload_deployment_map put_workloads serves show_rolling sort_deployments
    insert_deployment get_milvus_updated_condition updating_components is_updating_image
    counted_workloads workload_status is_workload_updating get_milvus_instance_condition
    check_listed check_workloads check_deployment instance_condition joined
    list_milvus_terminating_pods filter_terminating_pod deployment_ready component_deploy_status
    get_milvus_health_status aggregate_component_deploy_statuses component_uses_stateful_set
    is_milvus_stopping_for_reconcile is_stopping all_hold replicas_are_zero use_cdc
    component_or_groups_stopped get_state kind_name get_component_workloads_by_spec
    get_components_by_spec expand sort_groups insert_group get_deployment_groups get_state_key
    get_display_name is_hpa_enabled get_hpa_spec is_idle_cluster_standalone
    get_deployment_group_name is update_condition put_condition get_condition is_component_rolling
    get_label_group_id get_current_group_id matches_deployment_group
    component_current_group_id_label rolling_id_label component_group_id_label lookup insert
then_idle-ready = (refl, refl)
