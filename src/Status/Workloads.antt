-- ===== src/Status/Workloads.antt =====
-- The statuses of the workloads of an instance, and whether they are updated:
-- makeWorkloadDeploymentMap of pkg/controllers/conditions.go, UpdateDeploymentCondition of
-- error_detail.go, and the status updater and GetMilvusUpdatedCondition of status_cluster.go.
use Prim.Native.String.{◌++◌}
use Prim.Native.String
use Prim.Native.Nat.{Ordering}
use milvus_operator.Base.{
  String, Bool, true, false, not, ◌&&◌, ◌||◌, Option, none, some, List, [], ◌∷◌, map, any, filter,
  find?, lookup, insert, str_eq, if◌then◌else◌,
}
use milvus_operator.Api.Labels.{get}
use milvus_operator.Api.Spec.{ImageUpdateMode, rolling_upgrade, rolling_downgrade}
use milvus_operator.Api.Status.{
  ConditionStatus, is_true, is_false, DeploymentConditionType, available, progressing,
  replica_failure, DeploymentCondition, ComponentDeployStatus, get_state,
}
use milvus_operator.Component.{
  MilvusComponent, kind_name, get_component_workloads_by_spec, get_display_name,
  get_deployment_group_name, get_state_key, is_idle_cluster_standalone,
}
use milvus_operator.Conditions.{MilvusCondition}
use milvus_operator.Deployment.{Deployment}
use milvus_operator.Probes.{join}
use milvus_operator.Rollout.{Milvus, get_label_group_id, get_current_group_id, is_component_rolling}
use milvus_operator.Rollout.Metadata.{matches_deployment_group}
use milvus_operator.Status.{no_status, settles}

abbrev same_type : DeploymentConditionType → DeploymentConditionType → Bool
same_type available available = true
same_type progressing progressing = true
same_type replica_failure replica_failure = true
same_type _ _ = false

abbrev replaced : DeploymentCondition → List DeploymentCondition → List DeploymentCondition
replaced c [] = []
replaced c (d ∷ ds) =
    let rest = replaced c ds in if same_type d.type c.type then c ∷ rest else d ∷ rest

abbrev append_condition : DeploymentCondition → List DeploymentCondition → List DeploymentCondition
append_condition c [] = c ∷ []
append_condition c (d ∷ ds) = d ∷ append_condition c ds

-- Every condition of the type is replaced, and one is added if there is none.
unfoldable pub update_deployment_condition :
    List DeploymentCondition → DeploymentCondition → List DeploymentCondition
update_deployment_condition ds c =
    if any (λ d. same_type d.type c.type) ds then replaced c ds else append_condition c ds

-- `deploys[i].Name < deploys[j].Name`, stably.
abbrev deployment_less : Deployment → Deployment → Bool
deployment_less d e = elim (String.compare d.name e.name) [ Ordering.lt ↦ true | _ ↦ false ]

unfoldable pub insert_deployment : Deployment → List Deployment → List Deployment
insert_deployment d [] = d ∷ []
insert_deployment d (e ∷ es) =
    if deployment_less e d then e ∷ insert_deployment d es else d ∷ e ∷ es

unfoldable pub sort_deployments : List Deployment → List Deployment
unfolding insert_deployment
sort_deployments [] = []
sort_deployments (d ∷ ds) = insert_deployment d (sort_deployments ds)

-- `ComponentsDeployStatus` and `DeploymentGroupsDeployStatus` of the status.
pub record DeployStatuses : Type 0 where
  pub components : List (String × ComponentDeployStatus)
  pub groups : List (String × List (String × ComponentDeployStatus))

abbrev pub or_empty {ℓ} : {A : Type ℓ} → A → Option A → A
or_empty a none = a
or_empty a (some b) = b

-- What the status keeps of a workload.
unfoldable pub workload_status : DeployStatuses → MilvusComponent → ComponentDeployStatus
unfolding kind_name get_deployment_group_name
workload_status st c = elim c.group [
  | none ↦ or_empty no_status (lookup (kind_name c.kind) st.components)
  | some g ↦
      or_empty no_status
        (lookup (get_deployment_group_name c) (or_empty [] (lookup (kind_name c.kind) st.groups)))
]

-- `IsRollingUpdateEnabled` of milvus_types.go.
abbrev pub is_rolling_update_enabled : Milvus → Bool
is_rolling_update_enabled m = or_empty false m.spec.components.enable_rolling_update

abbrev updated_condition : ConditionStatus → String → String → MilvusCondition
updated_condition status reason message = record {
  type = "MilvusUpdated";
  status = status;
  last_transition_time = none;
  reason = reason;
  message = message;
}

abbrev pub components_condition : List MilvusComponent → String → MilvusCondition
components_condition [] names =
    updated_condition is_true "MilvusComponentsUpdated" "Milvus components are all updated"
components_condition (c ∷ cs) names =
    updated_condition is_false "MilvusComponentsUpdating"
      ("Milvus components[" ++ (names ++ "] are updating"))

-- The condition, from whether images are awaited and the components that are updating.
abbrev pub condition_of : Bool → ImageUpdateMode → List MilvusComponent → String → MilvusCondition
condition_of false mode updating names = components_condition updating names
condition_of true rolling_upgrade updating names =
    updated_condition is_false "MilvusUpgradingImage"
      ("Milvus is performing rolling upgrade pending components[" ++ (names ++ "]"))
condition_of true rolling_downgrade updating names =
    updated_condition is_false "MilvusDowngradingImage"
      ("{Milvus is performing rolling downgrade, pending components[" ++ (names ++ "]}"))
condition_of true mode updating names = components_condition updating names

-- `hash` stands for SHA-256, `newer` for a version after 2.5, and `controlled` for IsControlledBy.
module _ (hash : String → String) (newer : String → Bool)
    (controlled : Deployment → Milvus → Bool) where
  abbrev key_of : MilvusComponent → String
  key_of c = get_state_key hash c

  -- Whether a deployment is the active one of a workload.
  unfoldable pub serves : Milvus → MilvusComponent → Deployment → Bool
  unfolding matches_deployment_group get_label_group_id get_current_group_id kind_name get_state_key
  serves m c d =
      let slot = get_current_group_id m (key_of c) in
      controlled d m
      && (str_eq (get "app.kubernetes.io/component" d.labels) (kind_name c.kind)
          && (matches_deployment_group c d.labels
              && (str_eq slot "" || str_eq (get_label_group_id (kind_name c.kind) d.labels) slot)))

  -- The conditions of a deployment show its component's rollout.
  unfoldable pub show_rolling : Milvus → MilvusComponent → Deployment → Deployment
  unfolding is_component_rolling update_deployment_condition get_state_key
  show_rolling m c d =
      let rolling : DeploymentCondition = record {
        type = progressing;
        status = is_false;
        reason = "Rolling";
      } in
      if is_component_rolling m (key_of c)
      then record d {
        status = record (d.status) {
          conditions = update_deployment_condition d.status.conditions rolling;
        };
      }
      else d

  abbrev put_served :
      Milvus
      → MilvusComponent
      → Option Deployment
      → List (String × Deployment)
      → List (String × Deployment)
  put_served m c none ret = ret
  put_served m c (some d) ret = insert (key_of c) (show_rolling m c d) ret

  unfoldable pub put_workloads :
      Milvus
      → List Deployment
      → List MilvusComponent
      → List (String × Deployment)
      → List (String × Deployment)
  unfolding serves show_rolling get_state_key
  put_workloads m ds [] ret = ret
  put_workloads m ds (c ∷ cs) ret =
      put_workloads m ds cs (put_served m c (find? (serves m c) ds) ret)

  unfoldable pub make_workload_deployment_map :
      Milvus → List Deployment → List (String × Deployment)
  unfolding put_workloads sort_deployments get_component_workloads_by_spec
  make_workload_deployment_map m ds =
      put_workloads m (sort_deployments ds) (get_component_workloads_by_spec newer m.spec) []

  unfoldable pub is_workload_updating : Milvus → DeployStatuses → MilvusComponent → Bool
  unfolding get_state is_component_rolling workload_status get_state_key
  is_workload_updating m st c =
      if not (settles (get_state (workload_status st c)))
      then true
      else is_component_rolling m (key_of c)

  -- The workloads that count.
  unfoldable pub counted_workloads : Milvus → List MilvusComponent
  unfolding is_idle_cluster_standalone get_component_workloads_by_spec
  counted_workloads m =
      filter (λ c. not (is_idle_cluster_standalone m.spec c))
        (get_component_workloads_by_spec newer m.spec)

  unfoldable pub updating_components : Milvus → DeployStatuses → List MilvusComponent
  unfolding counted_workloads is_workload_updating
  updating_components m st = filter (is_workload_updating m st) (counted_workloads m)

  unfoldable pub is_updating_image : Milvus → DeployStatuses → Bool
  unfolding counted_workloads workload_status
  is_updating_image m st =
      any
        (λ c.
          is_rolling_update_enabled m
          && not (str_eq (workload_status st c).image m.spec.components.image))
        (counted_workloads m)

  unfoldable pub get_milvus_updated_condition : Milvus → DeployStatuses → MilvusCondition
  unfolding updating_components is_updating_image get_display_name join
  get_milvus_updated_condition m st =
      let updating = updating_components m st in
      condition_of (is_updating_image m st) m.spec.components.image_update_mode updating
        (join "," (map get_display_name updating))
