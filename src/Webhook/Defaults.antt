-- ===== src/Webhook/Defaults.antt =====
-- DefaultComponents and defaultComponentsReplicas of apis/milvus.io/v1beta1/milvus_webhook.go, on
-- the fields that a spec keeps. An image update mode that is not set is `rolling_upgrade`.
pub mod Filled
pub mod Given
pub mod Settled
pub mod Stages
pub mod Total
pub mod Stops
use milvus_operator.Base.{
  String, Bool, true, false, not, ◌&&◌, Option, none, some, List, [], ◌∷◌, ◌++◌, str_eq,
  if◌then◌else◌, Result, ok, err,
}
use milvus_operator.Base.Int.{ℤ, pos}
use milvus_operator.Api.Spec.{
  ComponentKind, mix_coord, root_coord, data_coord, query_coord, index_coord, data_node, query_node,
  index_node, streaming_node, proxy, standalone, cdc, Component, RollingMode, not_set, v2,
  MilvusSpec, is_cluster, is_set, is_version_greater_than_2_6, use_streaming_node, use_mix_coord,
  use_cdc,
}
use milvus_operator.Api.Stopping.{nil_pointer}
use milvus_operator.Component.{set_field}

abbrev pub empty_component : Component
empty_component = record {
  paused = false;
  rolling_update = none;
  replicas = none;
  hpa = none;
  groups = [];
  stateful_set = false;
}

-- `if field == nil { field = &T{} }`.
unfoldable pub fill : ComponentKind → MilvusSpec → MilvusSpec
fill k s = elim (s.components.field k) [ none ↦ set_field k empty_component s | some c ↦ s ]

unfoldable pub fill_all : List ComponentKind → MilvusSpec → MilvusSpec
unfolding fill
fill_all [] s = s
fill_all (k ∷ ks) s = fill_all ks (fill k s)

-- `if field.Replicas == nil { field.Replicas = &r }`.
abbrev pub given : ComponentKind → ℤ → MilvusSpec → Option Component → Result MilvusSpec
given k r s none = err nil_pointer
given k r s (some c) = elim c.replicas [
  | none ↦ ok (set_field k (record c { replicas = some r }) s)
  | some n ↦ ok s
]

unfoldable pub give : ComponentKind → ℤ → MilvusSpec → Result MilvusSpec
give k r s = given k r s (s.components.field k)

-- `if err != nil { return err }`, here for a panic.
abbrev pub and_then : Result MilvusSpec → (MilvusSpec → Result MilvusSpec) → Result MilvusSpec
and_then (err e) f = err e
and_then (ok s) f = f s

unfoldable pub give_all : ℤ → List ComponentKind → MilvusSpec → Result MilvusSpec
unfolding give
give_all r [] s = ok s
give_all r (k ∷ ks) s = and_then (give k r s) (give_all r ks)

abbrev pub when : Bool → ComponentKind → List ComponentKind
when b k = if b then k ∷ [] else []

unfoldable pub no_coord_specified_by_user : MilvusSpec → Bool
no_coord_specified_by_user s =
    let f = s.components.field in
    not (is_set (f root_coord))
    && (not (is_set (f data_coord))
        && (not (is_set (f index_coord)) && not (is_set (f query_coord))))

unfoldable pub set_default_str : String → String → String
set_default_str text default = if str_eq text "" then default else text

abbrev pub default_rolling_mode : RollingMode → RollingMode
default_rolling_mode not_set = v2
default_rolling_mode m = m

unfoldable pub default_settings : String → MilvusSpec → MilvusSpec
unfolding set_default_str
default_settings default_image s = record s {
  components = record (s.components) {
    image = set_default_str s.components.image default_image;
    rolling_mode = default_rolling_mode s.components.rolling_mode;
  };
}

abbrev pub four_coords : List ComponentKind
four_coords = root_coord ∷ data_coord ∷ index_coord ∷ query_coord ∷ []

abbrev pub made_kinds : Bool → Bool → Bool → Bool → Bool → List ComponentKind
made_kinds false mix no_coord greater_than_2_6 streaming = standalone ∷ []
made_kinds true mix no_coord greater_than_2_6 streaming =
    standalone
    ∷ (proxy
        ∷ ((if mix then [] else if no_coord then mix_coord ∷ [] else four_coords)
            ++ (data_node
                ∷ (when (not greater_than_2_6) index_node
                    ++ (query_node ∷ when streaming streaming_node)))))

abbrev pub node_kinds : Bool → Bool → List ComponentKind
node_kinds mix greater_than_2_6 =
    (if mix then mix_coord ∷ [] else four_coords)
    ++ (proxy ∷ (data_node ∷ (when (not greater_than_2_6) index_node ++ (query_node ∷ []))))

abbrev pub set_streaming_mode : Bool → MilvusSpec → MilvusSpec
set_streaming_mode b s = record s { components = record (s.components) { streaming_mode = some b } }

module _ (newer : String → Bool) where
  -- The components that are made where they are missing, in this order.
  unfoldable pub made_components : MilvusSpec → List ComponentKind
  unfolding no_coord_specified_by_user use_mix_coord use_streaming_node is_version_greater_than_2_6
  made_components s =
      made_kinds (is_cluster s.mode) (use_mix_coord s) (no_coord_specified_by_user s)
        (is_version_greater_than_2_6 newer s) (use_streaming_node newer s)

  -- The components of cluster mode that get a replica, once the coordinators are settled.
  unfoldable pub node_components : MilvusSpec → List ComponentKind
  unfolding use_mix_coord is_version_greater_than_2_6
  node_components s = node_kinds (use_mix_coord s) (is_version_greater_than_2_6 newer s)

  unfoldable pub default_cluster_replicas : MilvusSpec → Result MilvusSpec
  unfolding give_all fill node_components use_streaming_node is_version_greater_than_2_6
  default_cluster_replicas s = and_then (give standalone (pos 0) s) (λ a.
      and_then (give_all (pos 1) (when (use_streaming_node newer a) streaming_node) a) (λ b.
        let c = if is_version_greater_than_2_6 newer b then fill mix_coord b else b in
        give_all (pos 1) (node_components c) c))

  unfoldable pub default_components_replicas : MilvusSpec → Result MilvusSpec
  unfolding default_cluster_replicas give give_all use_cdc
  default_components_replicas s =
      and_then (if is_cluster s.mode then default_cluster_replicas s else give standalone (pos 1) s)
        (λ t. give_all (pos 1) (when (use_cdc t) cdc) t)

  abbrev pub with_mode : MilvusSpec → MilvusSpec → MilvusSpec
  with_mode s t = if is_cluster s.mode then set_streaming_mode (use_streaming_node newer s) t else t

  unfoldable pub default_components : String → MilvusSpec → Result MilvusSpec
  unfolding default_settings made_components fill_all use_streaming_node default_components_replicas
  default_components default_image given_spec =
      let s = default_settings default_image given_spec in
      default_components_replicas (with_mode s (fill_all (made_components s) s))
