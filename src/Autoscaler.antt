-- ===== src/Autoscaler.antt =====
-- The autoscalers that the operator keeps: pkg/controllers/hpa.go.
pub mod Kept
use Prim.Native.String.{◌++◌}
use milvus_operator.Base.{
  ℕ, String, Bool, true, false, not, ◌&&◌, ◌||◌, map, Option, none, some, List, [], ◌∷◌, str_eq,
  if◌then◌else◌, Error, errorf, wrap, is_api_not_found, Result, ok, err, is_some, Action, then_do,
  wrapped,
}
use milvus_operator.Base.Int.{ℤ, pos, ltb_ℤ, ◌==ℤ◌}
use milvus_operator.Api.Labels.{StringMap, get as get_entry}
use milvus_operator.Api.Spec.{
  HpaSpec, RollingMode, not_set, v1, v2, v3, query_node, MilvusSpec, DeploymentGroup,
}
use milvus_operator.Component.{
  MilvusComponent, plain, kind_name, kind_eq, get_hpa_spec, get_components_by_spec,
}
use milvus_operator.Rollout.{Milvus, is_component_rolling, get_current_group_id}
use milvus_operator.Rollout.Metadata.{new_component_app_labels}
use milvus_operator.Rollout.Store.{get_deployment_name}

-- `HorizontalPodAutoscalerSpec`; the metrics and the behaviour as their converted values.
pub record HpaObjectSpec : Type 0 where
  pub target : String
  pub min_replicas : Option ℤ
  pub max_replicas : ℤ
  pub metrics : List String
  pub behavior : Option String

pub record Hpa : Type 0 where
  pub name : String
  pub labels : StringMap
  pub owner : Option String
  pub spec : HpaObjectSpec

-- The calls of the API server, the conversions of `AsObject`, and semantic equality.
pub record Server (W : Type 0) : Type 0 where
  pub get : String → W → Result Hpa × W
  pub create : Hpa → W → Option Error × W
  pub update : Hpa → W → Option Error × W
  pub delete : Hpa → W → Option Error × W
  pub is_controlled_by : Hpa → Milvus → Bool
  pub set_controller_reference : Milvus → Hpa → Result Hpa
  pub metric_as_object : String → Option String
  pub behavior_as_object : String → Option String
  pub same_metrics : List String → List String → Bool
  pub same_behavior : Option String → Option String → Bool
  pub itoa : ℤ → String
  pub atoi : String → Result ℤ
  pub newer_than_2_6 : String → Bool

unfoldable pub get_hpa_name : MilvusComponent → String → String
unfolding kind_name
get_hpa_name c instance_name = instance_name ++ ("-milvus-" ++ (kind_name c.kind ++ "-hpa"))

unfoldable pub same_optional : Option ℤ → Option ℤ → Bool
same_optional none none = true
same_optional (some a) (some b) = a ==ℤ b
same_optional _ _ = false

abbrev is_v3 : RollingMode → Bool
is_v3 v3 = true
is_v3 _ = false

-- `component == QueryNode`: a query node outside a deployment group.
abbrev pub is_two_deploy : MilvusComponent → MilvusSpec → Bool
is_two_deploy c spec =
    (kind_eq c.kind query_node && not (is_some c.group)) || is_v3 spec.components.rolling_mode

abbrev below_min : HpaSpec → Bool
below_min spec = elim spec.min_replicas [ none ↦ false | some m ↦ ltb_ℤ spec.max_replicas m ]

module _ {W : Type 0} (srv : Server W) where
  -- The values that do not convert are skipped.
  unfoldable pub convert_metrics : List String → List String
  convert_metrics [] = []
  convert_metrics (m ∷ ms) =
      let rest = convert_metrics ms in
      elim (srv.metric_as_object m) [ none ↦ rest | some o ↦ o ∷ rest ]

  abbrev convert_behavior : Option String → Option String
  convert_behavior none = none
  convert_behavior (some b) = srv.behavior_as_object b

  unfoldable pub build_hpa : Milvus → MilvusComponent → HpaSpec → String → Result Hpa
  unfolding convert_metrics get_hpa_name new_component_app_labels kind_name
  build_hpa m c spec deployment_name = srv.set_controller_reference m (record {
    name = get_hpa_name c m.name;
    labels = new_component_app_labels m.name (kind_name c.kind);
    owner = none;
    spec = record {
      target = deployment_name;
      min_replicas = elim spec.min_replicas [ none ↦ some (pos 1) | some n ↦ some n ];
      max_replicas = spec.max_replicas;
      metrics = convert_metrics spec.metrics;
      behavior = convert_behavior spec.behavior;
    };
  })

  unfoldable pub hpa_spec_needs_update : HpaObjectSpec → HpaObjectSpec → Bool
  unfolding same_optional
  hpa_spec_needs_update existing desired =
      if not (str_eq existing.target desired.target)
      then true
      else if not (same_optional existing.min_replicas desired.min_replicas)
      then true
      else if not (existing.max_replicas ==ℤ desired.max_replicas)
      then true
      else if not (srv.same_metrics existing.metrics desired.metrics)
      then true
      else not (srv.same_behavior existing.behavior desired.behavior)

  -- deleteHPAIfExists, on what `Get` answers: an autoscaler of somebody else stays.
  abbrev pub delete_found : Milvus → Result Hpa × W → Option Error × W
  delete_found m (err e, w) = if is_api_not_found e then (none, w) else (some (wrap "get HPA" e), w)
  delete_found m (ok h, w) =
      if srv.is_controlled_by h m then wrapped "delete HPA" (srv.delete h w) else (none, w)

  unfoldable pub delete_hpa_if_exists : Milvus → MilvusComponent → Action W
  unfolding get_hpa_name
  delete_hpa_if_exists m c w = delete_found m (srv.get (get_hpa_name c m.name) w)

  abbrev pub put_found : Hpa → Result Hpa × W → Option Error × W
  put_found desired (err e, w) =
      if is_api_not_found e then srv.create desired w else (some (wrap "get HPA" e), w)
  put_found desired (ok h, w) =
      if hpa_spec_needs_update h.spec desired.spec
      then srv.update (record h { spec = desired.spec }) w
      else (none, w)

  abbrev pub put_built : String → Result Hpa → Action W
  put_built name (err e) w = (some (wrap "build HPA" e), w)
  put_built name (ok desired) w = put_found desired (srv.get name w)

  unfoldable pub create_or_update_hpa : Milvus → MilvusComponent → HpaSpec → String → Action W
  unfolding build_hpa hpa_spec_needs_update get_hpa_name
  create_or_update_hpa m c spec deployment_name w =
      put_built (get_hpa_name c m.name) (build_hpa m c spec deployment_name) w

  -- The current group's number, 0 if there is none or none that parses.
  abbrev pub group_number : String → ℤ
  group_number text =
      if str_eq text "" then pos 0 else elim (srv.atoi text) [ ok n ↦ n | err e ↦ pos 0 ]

  unfoldable pub two_deploy_target : Milvus → MilvusComponent → String
  unfolding get_deployment_name get_current_group_id kind_name
  two_deploy_target m c =
      get_deployment_name c m.name
      ++ ("-" ++ srv.itoa (group_number (get_current_group_id m (kind_name c.kind))))

  unfoldable pub reconcile_two_deploy_hpa : Milvus → MilvusComponent → HpaSpec → Action W
  unfolding is_component_rolling delete_hpa_if_exists create_or_update_hpa two_deploy_target
      kind_name
  reconcile_two_deploy_hpa m c spec w =
      if is_component_rolling m (kind_name c.kind)
      then delete_hpa_if_exists m c w
      else create_or_update_hpa m c spec (two_deploy_target m c) w

  abbrev upgrade_stopping : Milvus → Bool
  upgrade_stopping m = str_eq (get_entry "milvus.io/upgrade-stopping" m.annotations) "true"

  abbrev pub reconcile_spec : Milvus → MilvusComponent → HpaSpec → Action W
  reconcile_spec m c spec w =
      if below_min spec
      then (some (errorf "invalid HPA spec for component %s"), w)
      else if is_two_deploy c m.spec
      then reconcile_two_deploy_hpa m c spec w
      else create_or_update_hpa m c spec (get_deployment_name c m.name) w

  unfoldable pub reconcile_component_hpa : Milvus → MilvusComponent → Action W
  unfolding get_hpa_spec delete_hpa_if_exists reconcile_two_deploy_hpa create_or_update_hpa
      get_deployment_name
  reconcile_component_hpa m c w = elim (get_hpa_spec c m.spec) [
    | none ↦ delete_hpa_if_exists m c w
    | some spec ↦
        if upgrade_stopping m then delete_hpa_if_exists m c w else reconcile_spec m c spec w
  ]

  unfoldable pub reconcile_all : Milvus → List MilvusComponent → Action W
  unfolding reconcile_component_hpa
  reconcile_all m [] w = (none, w)
  reconcile_all m (c ∷ cs) w =
      then_do (wrapped "reconcile HPA for component %s" (reconcile_component_hpa m c w))
        (reconcile_all m cs)

  -- ReconcileHPAs.
  unfoldable pub reconcile_hpas : Milvus → Action W
  unfolding reconcile_all get_components_by_spec
  reconcile_hpas m = reconcile_all m (map plain (get_components_by_spec srv.newer_than_2_6 m.spec))
