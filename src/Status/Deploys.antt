-- ===== src/Status/Deploys.antt =====
-- componentsDeployStatusUpdaterImpl.Update of pkg/controllers/status_cluster.go and
-- getStatefulSetForComponent of statefulset.go.
use Prim.Native.String.{◌++◌ as ◌+++◌}
use milvus_operator.Base.{
  String, Bool, true, false, Option, none, some, List, [], ◌∷◌, ◌++◌, lookup, insert, if◌then◌else◌,
  is_api_not_found, Result, ok, err, wrapped_value,
}
use milvus_operator.Api.Labels.{StringMap}
use milvus_operator.Api.Status.{ComponentDeployStatus}
use milvus_operator.Component.{
  MilvusComponent, kind_name, get_component_workloads_by_spec, get_deployment_group_name,
  get_state_key,
}
use milvus_operator.Deployment.{Deployment}
use milvus_operator.Rollout.{Milvus}
use milvus_operator.Rollout.Store.{get_deployment_name}
use milvus_operator.StatefulSets.{
  StatefulSet, component_uses_stateful_set, synthesize_stateful_set_status,
}
use milvus_operator.Status.{component_deploy_status, aggregate_component_deploy_statuses}
use milvus_operator.Status.Pods.{with_result}
use milvus_operator.Status.Server.{Server}
use milvus_operator.Status.Workloads.{DeployStatuses, or_empty, make_workload_deployment_map}

-- A missing one is nil.
unfoldable pub found_or_nil {ℓ} : {A : Type ℓ} → Result A → Result (Option A)
found_or_nil (ok a) = ok (some a)
found_or_nil (err e) = if is_api_not_found e then ok none else err e

-- What the loop over the workloads carries, with the statuses by component.
pub record Collected : Type 0 where
  pub statuses : DeployStatuses
  pub grouped : List (String × List ComponentDeployStatus)

-- `append(grouped[name], status)` and `groups[name][group] = status`, or `components[name] = status`.
unfoldable pub collect_status : MilvusComponent → ComponentDeployStatus → Collected → Collected
unfolding kind_name get_deployment_group_name
collect_status c s x =
    let name = kind_name c.kind in
    let st = x.statuses in
    elim c.group [
      | none ↦ record x { statuses = record st { components = insert name s st.components } }
      | some g ↦
          let before = or_empty [] (lookup name st.groups) in
          record {
            statuses = record st {
              groups = insert name (insert (get_deployment_group_name c) s before) st.groups;
            };
            grouped = insert name (or_empty [] (lookup name x.grouped) ++ (s ∷ [])) x.grouped;
          }
    ]

-- A deployment that is missing counts for a group, and not for a component without groups.
unfoldable pub collect_deployment : MilvusComponent → Option Deployment → Collected → Collected
unfolding collect_status component_deploy_status
collect_deployment c d x = elim c.group [
  | some g ↦ collect_status c (component_deploy_status c d) x
  | none ↦ elim d [ none ↦ x | some e ↦ collect_status c (component_deploy_status c (some e)) x ]
]

abbrev pub collect_stateful_set : MilvusComponent → Option StatefulSet → Collected → Collected
collect_stateful_set c none x = x
collect_stateful_set c (some s) x = collect_status c (synthesize_stateful_set_status c (some s)) x

-- The component's status is what its groups have together.
unfoldable pub aggregate_groups :
    List (String × List ComponentDeployStatus)
    → List (String × ComponentDeployStatus)
    → List (String × ComponentDeployStatus)
unfolding aggregate_component_deploy_statuses
aggregate_groups [] components = components
aggregate_groups ((name, ss) ∷ rest) components =
    aggregate_groups rest (insert name (aggregate_component_deploy_statuses ss) components)

abbrev pub app_labels : String → StringMap
app_labels instance_name =
    ("app.kubernetes.io/instance", instance_name) ∷ ("app.kubernetes.io/name", "milvus") ∷ []

-- `errors.Wrapf(err, "get %s statefulset", component.Name)`.
abbrev pub no_set_text : MilvusComponent → String
unfolding kind_name
no_set_text c = "get " +++ (kind_name c.kind +++ " statefulset")

unfoldable pub get_stateful_set_for_component :
    {W : Type 0} → Server W → Milvus → MilvusComponent → W → Result (Option StatefulSet) × W
unfolding found_or_nil get_deployment_name
get_stateful_set_for_component srv m c w =
    let (r, u) = srv.get_stateful_set (get_deployment_name c m.name) w in (found_or_nil r, u)

module _ (hash : String → String) (newer : String → Bool) (controlled : Deployment → Milvus → Bool)
    {W : Type 0} (srv : Server W) where
  unfoldable pub collect_workloads :
      Milvus
      → List (String × Deployment)
      → List MilvusComponent
      → Collected
      → W
      → Result Collected × W
  unfolding component_uses_stateful_set get_stateful_set_for_component collect_deployment
      synthesize_stateful_set_status collect_status get_state_key
  collect_workloads m ds [] x w = (ok x, w)
  collect_workloads m ds (c ∷ cs) x w = elim (component_uses_stateful_set m.spec c) [
    | true ↦
        with_result (wrapped_value (no_set_text c) (get_stateful_set_for_component srv m c w))
          (λ s u. collect_workloads m ds cs (collect_stateful_set c s x) u)
    | false ↦
        collect_workloads m ds cs (collect_deployment c (lookup (get_state_key hash c) ds) x) w
  ]

  abbrev pub nothing_collected : Collected
  nothing_collected = record { statuses = record { components = []; groups = [] }; grouped = [] }

  abbrev pub finish_collecting : Result Collected × W → Result DeployStatuses × W
  finish_collecting (err e, w) = (err e, w)
  finish_collecting (ok x, w) = (
    ok (record (x.statuses) { components = aggregate_groups x.grouped x.statuses.components }),
    w,
  )

  -- The statuses that Update stores.
  unfoldable pub update_deploy_statuses : Milvus → W → Result DeployStatuses × W
  unfolding collect_workloads aggregate_groups make_workload_deployment_map
      get_component_workloads_by_spec
  update_deploy_statuses m w =
      with_result
        (wrapped_value "list deployments failed" (srv.list_deployments (app_labels m.name) w))
        (λ ds u. finish_collecting (
          collect_workloads m (make_workload_deployment_map hash newer controlled m ds)
            (get_component_workloads_by_spec newer m.spec) nothing_collected u))
