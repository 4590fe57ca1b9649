-- ===== src/Component/Dependencies.antt =====
-- The order in which components roll: pkg/controllers/dependency_graph.go, GetDependencies and
-- GetDependenciesFor2_6Upgrade in components.go.
pub mod Reverse
use milvus_operator.Base.{
  ℕ, String, Bool, true, false, not, ◌&&◌, ◌||◌, List, [], ◌∷◌, ◌++◌, any, if◌then◌else◌, ◌≡◌, refl,
  sym, ap, ◌∙◌, inl, inr, arith, Bool-cases,
}
use milvus_operator.Api.Spec.{
  ComponentKind, mix_coord, root_coord, data_coord, query_coord, index_coord, data_node, query_node,
  index_node, streaming_node, proxy, standalone, cdc, ImageUpdateMode, rolling_downgrade,
  rolling_upgrade, MilvusSpec, is_cluster, use_streaming_node, use_mix_coord,
  is_version_greater_than_2_6,
}
use milvus_operator.Component.{MilvusComponent, kind_eq}
use milvus_operator.Component.Replicas.{kind_eq_sound}

-- The two maps of a graph; a missing key reads as the empty list. Groups are cleared before a
-- lookup, so that a key is a kind.
pub record DependencyGraph : Type 0 where
  pub dependencies : ComponentKind → List ComponentKind
  pub reversed_dependencies : ComponentKind → List ComponentKind

abbrev pub new_dependency_graph : DependencyGraph
new_dependency_graph = record { dependencies = λ k. []; reversed_dependencies = λ k. [] }

abbrev pub has : ComponentKind → List ComponentKind → Bool
has k ks = any (λ j. kind_eq k j) ks

-- Appending the component to the reversed lists of its dependencies, one after another.
unfoldable pub add_reversed :
    ComponentKind
    → List ComponentKind
    → (ComponentKind → List ComponentKind)
    → ComponentKind
    → List ComponentKind
add_reversed c [] reversed = reversed
add_reversed c (d ∷ ds) reversed =
    add_reversed c ds (λ k. if kind_eq d k then reversed k ++ c ∷ [] else reversed k)

unfoldable pub add_dependency :
    ComponentKind → List ComponentKind → DependencyGraph → DependencyGraph
unfolding add_reversed
add_dependency c ds g = record {
  dependencies = λ k. if kind_eq c k then ds else g.dependencies k;
  reversed_dependencies = add_reversed c ds g.reversed_dependencies;
}

unfoldable pub add_dependencies :
    List (ComponentKind × List ComponentKind) → DependencyGraph → DependencyGraph
unfolding add_dependency
add_dependencies [] g = g
add_dependencies ((c, ds) ∷ rest) g = add_dependencies rest (add_dependency c ds g)

abbrev pub cluster_dependencies : List (ComponentKind × List ComponentKind)
cluster_dependencies =
    (index_node, [])
    ∷ (root_coord, index_node ∷ [])
    ∷ (data_coord, root_coord ∷ [])
    ∷ (index_coord, data_coord ∷ [])
    ∷ (query_coord, index_coord ∷ [])
    ∷ (query_node, query_coord ∷ [])
    ∷ (data_node, query_node ∷ [])
    ∷ (proxy, data_node ∷ [])
    ∷ []

abbrev pub mix_coord_cluster_dependencies : List (ComponentKind × List ComponentKind)
mix_coord_cluster_dependencies =
    (index_node, [])
    ∷ (mix_coord, index_node ∷ [])
    ∷ (query_node, mix_coord ∷ [])
    ∷ (data_node, query_node ∷ [])
    ∷ (proxy, data_node ∷ [])
    ∷ []

abbrev pub streaming_node_cluster_dependencies : List (ComponentKind × List ComponentKind)
streaming_node_cluster_dependencies =
    (mix_coord, [])
    ∷ (streaming_node, mix_coord ∷ [])
    ∷ (query_node, streaming_node ∷ [])
    ∷ (data_node, query_node ∷ [])
    ∷ (proxy, data_node ∷ [])
    ∷ []

abbrev pub upgrade_2_6_cluster_dependencies : List (ComponentKind × List ComponentKind)
upgrade_2_6_cluster_dependencies =
    (streaming_node, [])
    ∷ (mix_coord, streaming_node ∷ [])
    ∷ (query_node, mix_coord ∷ [])
    ∷ (data_node, query_node ∷ [])
    ∷ (proxy, data_node ∷ [])
    ∷ []

-- No component is added twice, nor is one that the graph has.
abbrev pub keys_fresh : List (ComponentKind × List ComponentKind) → List ComponentKind → Bool
keys_fresh [] seen = true
keys_fresh ((c, ds) ∷ rest) seen = not (has c seen) && keys_fresh rest (c ∷ seen)

abbrev pub graph_of : List (ComponentKind × List ComponentKind) → DependencyGraph
graph_of adds = add_dependencies adds new_dependency_graph

abbrev pub is_downgrade : ImageUpdateMode → Bool
is_downgrade rolling_downgrade = true
is_downgrade _ = false

abbrev pub with_mode : ImageUpdateMode → MilvusSpec → MilvusSpec
with_mode mode spec = record spec {
  components = record (spec.components) { image_update_mode = mode };
}

module _ (newer : String → Bool) where
  -- The graph of a cluster.
  unfoldable pub graph_for : MilvusSpec → List (ComponentKind × List ComponentKind)
  unfolding use_streaming_node use_mix_coord
  graph_for spec =
      if use_streaming_node newer spec
      then streaming_node_cluster_dependencies
      else if use_mix_coord spec
      then mix_coord_cluster_dependencies
      else cluster_dependencies

  unfoldable pub get_dependencies : MilvusSpec → MilvusComponent → List ComponentKind
  unfolding graph_for add_dependencies
  get_dependencies spec c =
      let graph = graph_of (graph_for spec) in
      if not (is_cluster spec.mode)
      then []
      else if is_downgrade spec.components.image_update_mode
      then graph.reversed_dependencies c.kind
      else graph.dependencies c.kind

abbrev pub kind_dependencies_2_6 : ComponentKind → List ComponentKind
kind_dependencies_2_6 = (graph_of upgrade_2_6_cluster_dependencies).dependencies

unfoldable pub get_dependencies_for_2_6_upgrade : MilvusSpec → MilvusComponent → List ComponentKind
unfolding add_dependencies
get_dependencies_for_2_6_upgrade spec c =
    if not (is_cluster spec.mode) then [] else kind_dependencies_2_6 c.kind
