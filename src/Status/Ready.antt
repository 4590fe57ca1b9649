-- ===== src/Status/Ready.antt =====
-- Whether an instance is ready: ComponentConditionGetterImpl of
-- pkg/controllers/component_condition.go.
use milvus_operator.Base.{
  String, Bool, true, false, not, ◌||◌, ◌&&◌, Option, none, some, List, [], ◌∷◌, ◌++◌, lookup,
  if◌then◌else◌, is_some, Result, ok, err, wrapped_value, str_eq,
}
use Prim.Native.String.{◌++◌ as ◌+++◌}
use milvus_operator.Base.Int.{pos, ltb_ℤ}
use milvus_operator.Api.Labels.{get}
use milvus_operator.Api.Spec.{proxy, standalone}
use milvus_operator.Api.Status.{ConditionStatus, is_true, is_false, unknown}
use milvus_operator.Api.Stopping.{is_milvus_stopping_for_reconcile}
use milvus_operator.Component.{
  MilvusComponent, get_component_workloads_by_spec, get_display_name, get_state_key,
  is_idle_cluster_standalone,
}
use milvus_operator.Conditions.{MilvusCondition}
use milvus_operator.Deployment.{Deployment}
use milvus_operator.Rollout.{Milvus}
use milvus_operator.StatefulSets.{
  StatefulSet, component_uses_stateful_set, synthesize_stateful_set_status,
}
use milvus_operator.Status.{deployment_ready}
use milvus_operator.Status.Deploys.{app_labels, no_set_text, get_stateful_set_for_component}
use milvus_operator.Status.Pods.{with_result, check_milvus_stopped}
use milvus_operator.Status.Server.{Server}
use milvus_operator.Status.Workloads.{make_workload_deployment_map}

-- What the loop over the workloads has seen: the ones that are not ready, the detail of the first,
-- and a ready pod to serve requests.
pub record Seen : Type 0 where
  pub not_ready : List String
  pub detail : Option String
  pub has_entry : Bool

-- IsService of components.go.
abbrev pub is_service : MilvusComponent → Bool
is_service c = elim c.kind [ proxy ↦ true | standalone ↦ true | _ ↦ false ]

abbrev pub is_ready_set : MilvusComponent → Option StatefulSet → Bool
is_ready_set c none = false
is_ready_set c (some s) = deployment_ready (synthesize_stateful_set_status c (some s)).status

abbrev pub is_ready_deployment : Option Deployment → Bool
is_ready_deployment none = false
is_ready_deployment (some d) = deployment_ready d.status

abbrev pub serves_requests : MilvusComponent → Option Deployment → Bool
serves_requests c none = false
serves_requests c (some d) = is_service c && ltb_ℤ (pos 0) d.status.ready_replicas

-- `fmt.Sprintf("%s", names)`, within its brackets.
unfoldable pub joined : List String → String
joined [] = ""
joined (s ∷ []) = s
joined (s ∷ t ∷ rest) = s +++ (" " +++ joined (t ∷ rest))

-- The detail of the first component that is not ready; later ones are not asked for.
abbrev pub note_not_ready :
    {W : Type 0} → String → Seen → (W → Result String × W) → W → Result Seen × W
note_not_ready name x detail w =
    let noted = record x { not_ready = x.not_ready ++ (name ∷ []) } in
    elim x.detail [
      | some _ ↦ (ok noted, w)
      | none ↦
          with_result (wrapped_value "failed to get component err detail" (detail w))
            (λ d u. (ok (record noted { detail = some d }), u))
    ]

abbrev pub ready_condition : ConditionStatus → String → String → MilvusCondition
ready_condition status reason message = record {
  type = "MilvusReady";
  status = status;
  last_transition_time = none;
  reason = reason;
  message = message;
}

-- `MilvusCondition{}`: its type is empty, which UpdateCondition ignores, and its status not `True`.
abbrev pub no_condition : MilvusCondition
no_condition = record {
  type = "";
  status = unknown;
  last_transition_time = none;
  reason = "";
  message = "";
}

abbrev pub text_of_detail : Option String → String
text_of_detail none = "<nil>"
text_of_detail (some d) = d

unfoldable pub instance_condition : Seen → MilvusCondition
unfolding joined
instance_condition x = elim x.not_ready [
  | [] ↦
      if x.has_entry
      then ready_condition is_true "ReasonMilvusHealthy" "All Milvus components are healthy"
      else no_condition
  | n ∷ ns ↦
      ready_condition is_false "MilvusComponentNotHealthy"
        ("[" +++ (joined (n ∷ ns) +++ ("] not ready, detail: " +++ text_of_detail x.detail)))
]

abbrev pub stopping_condition : Bool → MilvusCondition
stopping_condition true =
    ready_condition is_false "MilvusStopped" "All Milvus components are stopped"
stopping_condition false =
    ready_condition is_false "MilvusStopping" "All Milvus components are stopping"

module _ (hash : String → String) (newer : String → Bool) (controlled : Deployment → Milvus → Bool)
    {W : Type 0} (srv : Server W) where
  -- One turn of the loop for a stateful set, and for a deployment.
  unfoldable pub check_set : MilvusComponent → Seen → Option StatefulSet → W → Result Seen × W
  unfolding deployment_ready synthesize_stateful_set_status get_display_name
  check_set c x s w =
      let name = get_display_name c in
      elim (is_ready_set c s) [
        | true ↦ (ok x, w)
        | false ↦ note_not_ready name x (srv.stateful_set_error_detail name s) w
      ]

  unfoldable pub check_deployment :
      Milvus → MilvusComponent → Seen → Option Deployment → W → Result Seen × W
  unfolding deployment_ready is_idle_cluster_standalone get_display_name
  check_deployment m c x d w =
      let name = get_display_name c in
      elim (is_ready_deployment d) [
        | true ↦ (ok (record x { has_entry = x.has_entry || serves_requests c d }), w)
        | false ↦ elim (not (is_some d) && is_idle_cluster_standalone m.spec c) [
          | true ↦ (ok x, w)
          | false ↦ note_not_ready name x (srv.error_detail name d) w
        ]
      ]

  unfoldable pub check_workloads :
      Milvus → List (String × Deployment) → List MilvusComponent → Seen → W → Result Seen × W
  unfolding component_uses_stateful_set get_stateful_set_for_component check_set check_deployment
      get_state_key
  check_workloads m ds [] x w = (ok x, w)
  check_workloads m ds (c ∷ cs) x w =
      let next = check_workloads m ds cs in
      elim (component_uses_stateful_set m.spec c) [
        | true ↦
            with_result (wrapped_value (no_set_text c) (get_stateful_set_for_component srv m c w))
              (λ s u. with_result (check_set c x s u) next)
        | false ↦ with_result (check_deployment m c x (lookup (get_state_key hash c) ds) w) next
      ]

  abbrev pub report_stopping : Bool → W → Result MilvusCondition × W
  report_stopping b w = (ok (stopping_condition b), w)

  unfoldable pub get_stopping_condition : Milvus → W → Result MilvusCondition × W
  unfolding check_milvus_stopped
  get_stopping_condition m w = with_result (check_milvus_stopped srv m w) report_stopping

  abbrev pub nothing_seen : Seen
  nothing_seen = record { not_ready = []; detail = none; has_entry = false }

  abbrev pub report_seen : Seen → W → Result MilvusCondition × W
  report_seen x w = (ok (instance_condition x), w)

  unfoldable pub check_listed : Milvus → List Deployment → W → Result MilvusCondition × W
  unfolding check_workloads instance_condition make_workload_deployment_map
      get_component_workloads_by_spec
  check_listed m ds w =
      with_result
        (check_workloads m (make_workload_deployment_map hash newer controlled m ds)
          (get_component_workloads_by_spec newer m.spec) nothing_seen w)
        report_seen

  unfoldable pub get_milvus_instance_condition : Milvus → W → Result MilvusCondition × W
  unfolding is_milvus_stopping_for_reconcile get_stopping_condition check_listed
  get_milvus_instance_condition m w =
      let upgrade_stopping = str_eq (get "milvus.io/upgrade-stopping" m.annotations) "true" in
      elim (is_milvus_stopping_for_reconcile newer upgrade_stopping m.spec) [
        | err e ↦ (err e, w)
        | ok b ↦ elim b [
          | true ↦ get_stopping_condition m w
          | false ↦ with_result (srv.list_deployments (app_labels m.name) w) (check_listed m)
        ]
      ]
