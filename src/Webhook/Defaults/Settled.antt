-- ===== src/Webhook/Defaults/Settled.antt =====
-- What DefaultComponents leaves, and that it has nothing more to do then.
use milvus_operator.Base.{
  String, Bool, true, false, not, ◌&&◌, ◌||◌, some, all, ◌≡◌, refl, sym, ap, ◌∙◌, arith,
  if◌then◌else◌, Result, ok,
}
use milvus_operator.Base.Int.{pos}
use milvus_operator.Api.Spec.{
  ComponentKind, mix_coord, root_coord, data_coord, query_coord, index_coord, data_node, query_node,
  index_node, streaming_node, proxy, standalone, cdc, MilvusSpec, is_cluster,
  is_version_greater_than_2_6, use_streaming_node, use_cdc,
}
use milvus_operator.Component.{kind_eq}
use milvus_operator.Webhook.Defaults.{
  fill, fill_all, give, and_then, give_all, when, made_kinds, node_kinds, made_components,
  node_components, set_default_str, default_rolling_mode, default_settings, set_streaming_mode,
  with_mode, default_cluster_replicas, default_components_replicas, default_components,
}
use milvus_operator.Webhook.Defaults.Filled.{has, is_ready, any_kind, fill-same, fill_all-same}
use milvus_operator.Webhook.Defaults.Given.{give-same, give_all-same}

abbrev pub no_coord_in : (ComponentKind → Bool) → Bool
no_coord_in h =
    not (h root_coord) && (not (h data_coord) && (not (h index_coord) && not (h query_coord)))

-- In cluster mode, with the components that are made, all are there that a later run would make or
-- give replicas to.
pub made_cluster :
    (mix no_coord newest streaming : Bool) (before h : ComponentKind → Bool)
    → before mix_coord ≡ mix
    → ((j : ComponentKind)
        → h j ≡ (
            (newest && kind_eq mix_coord j)
            || (any_kind j (made_kinds true mix no_coord newest streaming) || before j)))
    → (all h (made_kinds true (h mix_coord) (no_coord_in h) newest streaming) ≡ true)
      × (all h (node_kinds (h mix_coord) newest) ≡ true)
made_cluster true no_coord true streaming before h m e = ground (
  arith,
  m,
  e mix_coord,
  e root_coord,
  e data_coord,
  e index_coord,
  e query_coord,
  e data_node,
  e index_node,
  e query_node,
  e streaming_node,
  e proxy,
  e standalone,
)
made_cluster true no_coord false streaming before h m e = ground (
  arith,
  m,
  e mix_coord,
  e root_coord,
  e data_coord,
  e index_coord,
  e query_coord,
  e data_node,
  e index_node,
  e query_node,
  e streaming_node,
  e proxy,
  e standalone,
)
made_cluster false true newest streaming before h m e = ground (
  arith,
  m,
  e mix_coord,
  e root_coord,
  e data_coord,
  e index_coord,
  e query_coord,
  e data_node,
  e index_node,
  e query_node,
  e streaming_node,
  e proxy,
  e standalone,
)
made_cluster false false true streaming before h m e = ground (
  arith,
  m,
  e mix_coord,
  e root_coord,
  e data_coord,
  e index_coord,
  e query_coord,
  e data_node,
  e index_node,
  e query_node,
  e streaming_node,
  e proxy,
  e standalone,
)
made_cluster false false false streaming before h m e = ground (
  arith,
  m,
  e mix_coord,
  e root_coord,
  e data_coord,
  e index_coord,
  e query_coord,
  e data_node,
  e index_node,
  e query_node,
  e streaming_node,
  e proxy,
  e standalone,
)

module _ (newer : String → Bool) (default_image : String) where
  -- A spec on which DefaultComponents has nothing to do.
  pub record IsDefaulted (t : MilvusSpec) : Type 0 where
    pub image : set_default_str t.components.image default_image ≡ t.components.image
    pub rolling_mode : default_rolling_mode t.components.rolling_mode ≡ t.components.rolling_mode
    pub made : all (λ k. has k t) (made_components newer t) ≡ true
    pub streaming :
        is_cluster t.mode ≡ true → t.components.streaming_mode ≡ some (use_streaming_node newer t)
    pub mix :
        is_cluster t.mode ≡ true
        → is_version_greater_than_2_6 newer t ≡ true
        → has mix_coord t ≡ true
    pub standalone_ready : is_ready standalone t ≡ true
    pub streaming_ready :
        is_cluster t.mode ≡ true
        → all (λ k. is_ready k t) (when (use_streaming_node newer t) streaming_node) ≡ true
    pub nodes_ready :
        is_cluster t.mode ≡ true → all (λ k. is_ready k t) (node_components newer t) ≡ true
    pub cdc_ready : all (λ k. is_ready k t) (when (use_cdc t) cdc) ≡ true

  same_settings : (t : MilvusSpec) → IsDefaulted t → default_settings default_image t ≡ t
  unfolding default_settings
  same_settings t d = rw (d.image, d.rolling_mode) refl

  same_mode :
      (t : MilvusSpec) (b : Bool)
      → (b ≡ true → t.components.streaming_mode ≡ some (use_streaming_node newer t))
      → (if b then set_streaming_mode (use_streaming_node newer t) t else t) ≡ t
  same_mode t true h = rw (sym (h refl)) refl
  same_mode t false h = refl

  same_mix :
      (t : MilvusSpec) (b : Bool)
      → (b ≡ true → has mix_coord t ≡ true)
      → (if b then fill mix_coord t else t) ≡ t
  same_mix t true h = fill-same mix_coord t (h refl)
  same_mix t false h = refl

  same_replicas :
      (t : MilvusSpec)
      → IsDefaulted t
      → is_cluster t.mode ≡ true
      → default_cluster_replicas newer t ≡ ok t
  unfolding default_cluster_replicas
  same_replicas t d c =
      ap (λ a. and_then a rest) (give-same (pos 0) standalone t d.standalone_ready)
      ∙ (ap (λ a. and_then a after)
            (give_all-same (pos 1) (when (use_streaming_node newer t) streaming_node) t
              (d.streaming_ready c))
          ∙ (ap (λ u. give_all (pos 1) (node_components newer u) u)
                (same_mix t (is_version_greater_than_2_6 newer t) (d.mix c))
              ∙ give_all-same (pos 1) (node_components newer t) t (d.nodes_ready c)))
    where
      after : MilvusSpec → Result MilvusSpec
      after b =
          let u = if is_version_greater_than_2_6 newer b then fill mix_coord b else b in
          give_all (pos 1) (node_components newer u) u

      rest : MilvusSpec → Result MilvusSpec
      rest a =
          and_then (give_all (pos 1) (when (use_streaming_node newer a) streaming_node) a) after

  same_all_replicas : (t : MilvusSpec) → IsDefaulted t → default_components_replicas newer t ≡ ok t
  unfolding default_components_replicas
  same_all_replicas t d =
      ap (λ a. and_then a (λ u. give_all (pos 1) (when (use_cdc u) cdc) u))
        (by_mode (is_cluster t.mode) (same_replicas t d))
      ∙ give_all-same (pos 1) (when (use_cdc t) cdc) t d.cdc_ready
    where
      by_mode :
          (b : Bool)
          → (b ≡ true → default_cluster_replicas newer t ≡ ok t)
          → (if b then default_cluster_replicas newer t else give standalone (pos 1) t) ≡ ok t
      by_mode true h = h refl
      by_mode false h = give-same (pos 1) standalone t d.standalone_ready

  pub default_components-same :
      (t : MilvusSpec) → IsDefaulted t → default_components newer default_image t ≡ ok t
  unfolding default_components
  default_components-same t d =
      ap
        (λ s.
          default_components_replicas newer
            (with_mode newer s (fill_all (made_components newer s) s)))
        (same_settings t d)
      ∙ (ap (λ u. default_components_replicas newer (with_mode newer t u))
            (fill_all-same (made_components newer t) t d.made)
          ∙ (ap (default_components_replicas newer) (same_mode t (is_cluster t.mode) d.streaming)
              ∙ same_all_replicas t d))
