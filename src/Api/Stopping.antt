-- ===== src/Api/Stopping.antt =====
-- IsStopping of apis/milvus.io/v1beta1/milvus_types.go and isMilvusStoppingForReconcile of
-- pkg/controllers/components.go. A nil pointer panics in the source; here it is an error.
use milvus_operator.Base.{
  String, Bool, true, false, not, Option, none, some, List, [], ◌∷◌, ◌++◌, any, if◌then◌else◌,
  Error, errorf, Result, ok, err,
}
use milvus_operator.Base.Int.{pos, ◌==ℤ◌}
use milvus_operator.Api.Spec.{
  mix_coord, root_coord, data_coord, query_coord, index_coord, data_node, query_node, index_node,
  streaming_node, proxy, standalone, cdc, Component, MilvusSpec, is_cluster, is_set, use_cdc,
  use_mix_coord, use_streaming_node, component_or_groups_stopped,
}
use milvus_operator.Component.{is_hpa_enabled, get_component_workloads_by_spec}

abbrev pub nil_pointer : Error
nil_pointer = errorf "nil pointer dereference"

-- `*f.Replicas == 0`.
unfoldable pub replicas_are_zero : Option Component → Result Bool
replicas_are_zero none = err nil_pointer
replicas_are_zero (some f) = elim f.replicas [ none ↦ err nil_pointer | some r ↦ ok (r ==ℤ pos 0) ]

unfoldable pub groups_are_zero : Option Component → Result Bool
unfolding component_or_groups_stopped
groups_are_zero none = err nil_pointer
groups_are_zero (some f) = ok (component_or_groups_stopped f.replicas f.groups)

-- The tests one after another, until one is false.
unfoldable pub all_hold : List (Result Bool) → Result Bool
all_hold [] = ok true
all_hold (err e ∷ ts) = err e
all_hold (ok b ∷ ts) = let rest = all_hold ts in if b then rest else ok false

abbrev pub when : Bool → Result Bool → List (Result Bool)
when b t = if b then t ∷ [] else []

module _ (newer : String → Bool) where
  -- The tests of the components in cluster mode.
  unfoldable pub cluster_stopped : MilvusSpec → List (Result Bool)
  unfolding use_mix_coord use_streaming_node replicas_are_zero groups_are_zero
  cluster_stopped spec =
      let f = spec.components.field in
      let coords =
        if use_mix_coord spec
        then replicas_are_zero (f mix_coord) ∷ []
        else replicas_are_zero (f index_coord)
          ∷ replicas_are_zero (f data_coord)
          ∷ replicas_are_zero (f query_coord)
          ∷ replicas_are_zero (f root_coord)
          ∷ [] in
      coords
      ++ (groups_are_zero (f proxy)
          ∷ groups_are_zero (f data_node)
          ∷ when (is_set (f index_node)) (replicas_are_zero (f index_node)))
      ++ (groups_are_zero (f query_node)
          ∷ when (use_streaming_node newer spec) (groups_are_zero (f streaming_node)))

  unfoldable pub is_stopping : MilvusSpec → Result Bool
  unfolding use_cdc cluster_stopped all_hold replicas_are_zero
  is_stopping spec =
      let f = spec.components.field in
      let first =
        replicas_are_zero (f standalone) ∷ when (use_cdc spec) (replicas_are_zero (f cdc)) in
      if spec.components.enable_manual_mode
      then ok false
      else if is_cluster spec.mode
      then all_hold (first ++ cluster_stopped spec)
      else all_hold first

  -- An explicit HPA keeps an instance running, unless an upgrade has stopped it.
  unfoldable pub is_milvus_stopping_for_reconcile : Bool → MilvusSpec → Result Bool
  unfolding is_stopping is_hpa_enabled get_component_workloads_by_spec
  is_milvus_stopping_for_reconcile upgrade_stopping spec = elim (is_stopping spec) [
    | err e ↦ err e
    | ok b ↦
        if not b
        then ok false
        else if upgrade_stopping
        then ok true
        else ok
            (not (any (λ c. is_hpa_enabled c spec) (get_component_workloads_by_spec newer spec)))
  ]
