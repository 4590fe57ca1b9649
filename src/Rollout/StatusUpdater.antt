-- ===== src/Rollout/StatusUpdater.antt =====
-- When the rolling mode of the spec is recorded in the status:
-- pkg/controllers/rolling_mode_status_updater.go.
use milvus_operator.Base.{
  Bool, true, false, not, ◌&&◌, Option, none, some, List, [], ◌∷◌, filter, if◌then◌else◌, Error,
  wrap, Result, ok, err, with_value, wrapped, wrapped_value,
}
use milvus_operator.Api.Spec.{RollingMode, not_set, v1, v2, v3, query_node, MilvusSpec, is_cluster}
use milvus_operator.Component.{
  MilvusComponent, is, plain, get_component_workloads_by_spec, is_idle_cluster_standalone,
}
use milvus_operator.Rollout.{Milvus}
use milvus_operator.Rollout.Server.{Server, Library, Job, Effect}
use milvus_operator.Rollout.Updates.{set_milvus}
use milvus_operator.Rollout.Controller.{
  DeployMode, one_deploy_mode, two_deploy_mode, check_deploy_mode,
}

abbrev same_mode : RollingMode → RollingMode → Bool
same_mode not_set not_set = true
same_mode v1 v1 = true
same_mode v2 v2 = true
same_mode v3 v3 = true
same_mode _ _ = false

-- `StatefulSetEnabled` of the spec's query node.
abbrev query_node_is_stateful : MilvusSpec → Bool
query_node_is_stateful spec = elim (spec.components.field query_node) [
  | none ↦ false
  | some f ↦ f.stateful_set
]

module _ (lib : Library) where
  unfoldable pub get_expected_two_deploy_components : MilvusSpec → List MilvusComponent
  unfolding get_component_workloads_by_spec is_idle_cluster_standalone is
  get_expected_two_deploy_components spec =
      let all = get_component_workloads_by_spec lib.newer_than_2_6 spec in
      let query_nodes =
        if is_cluster spec.mode
        then filter (λ c. is c (plain query_node) && not (query_node_is_stateful spec)) all
        else [] in
      elim spec.components.rolling_mode [
        | v3 ↦ filter (λ c. not (is_idle_cluster_standalone spec c)) all
        | v2 ↦ query_nodes
        | v1 ↦ query_nodes
        | not_set ↦ query_nodes
      ]

  module _ {W : Type 0} (srv : Server W) where
    abbrev pub if_two :
        Result DeployMode × Job W → (Job W → Result Bool × Job W) → Result Bool × Job W
    if_two (err e, j) rest = (err (wrap "check deploy mode" e), j)
    if_two (ok one_deploy_mode, j) rest = (ok false, j)
    if_two (ok two_deploy_mode, j) rest = rest j

    -- Whether all of the components have two deployments, up to the first that has not.
    unfoldable pub all_two : List MilvusComponent → Job W → Result Bool × Job W
    unfolding check_deploy_mode
    all_two [] j = (ok true, j)
    all_two (c ∷ cs) j = if_two (check_deploy_mode lib c srv j) (all_two cs)

    -- checkUpdated: it sets the mode in memory when it answers true.
    abbrev pub with_mode : Result Bool × Job W → Result Bool × Job W
    with_mode (err e, j) = (err e, j)
    with_mode (ok false, j) = (ok false, j)
    with_mode (ok true, j) =
        let status = record (j.milvus.status) {
          rolling_mode = j.milvus.spec.components.rolling_mode;
        } in
        (ok true, set_milvus j (record (j.milvus) { status = status }))

    unfoldable pub check_updated : Job W → Result Bool × Job W
    unfolding all_two get_expected_two_deploy_components
    check_updated j =
        if same_mode j.milvus.status.rolling_mode j.milvus.spec.components.rolling_mode
        then (ok false, j)
        else with_mode (all_two (get_expected_two_deploy_components j.milvus.spec) j)

    module _ (update_status : Milvus → W → Option Error × W) where
      unfoldable pub update : Effect W
      unfolding check_updated
      update j = with_value (wrapped_value "check updated" (check_updated j)) (λ updated k.
          let (e, w) = update_status k.milvus k.world in
          if updated then wrapped "update milvus status" (e, record k { world = w }) else (none, k))
