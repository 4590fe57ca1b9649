-- ===== src/Component.antt =====
-- The components of an instance and their workloads: pkg/controllers/components.go. Struct fields
-- that the code reads by reflection on `FieldName` are read by the component's kind.
pub mod Replicas
pub mod Dependencies
use Prim.Native.String.{◌++◌}
use Prim.Native.String
use Prim.Native.Nat.{Ordering}
use milvus_operator.Base.{
  ℕ, zero, suc, String, Bool, true, false, not, ◌&&◌, ◌||◌, Option, none, some, List, [], ◌∷◌,
  ◌++◌ as ◌+++◌, map, ◌==◌, if◌then◌else◌, str_eq, Result, ok, err, errorf, ◌≡◌, refl,
}
use milvus_operator.Base.Int.{ℤ, pos, negsuc, ltb_ℤ, ◌==ℤ◌}
use milvus_operator.Api.Spec.{
  ComponentKind, mix_coord, root_coord, data_coord, query_coord, index_coord, data_node, query_node,
  index_node, streaming_node, proxy, standalone, cdc, HpaSpec, DeploymentGroup, Component,
  MilvusComponents, MilvusSpec, is_cluster, is_set, is_version_greater_than_2_6, use_streaming_node,
  use_mix_coord, use_cdc,
}

-- `Name`, `FieldName` and `DefaultPort` are functions of the kind: every `MilvusComponent` of the
-- program is a value of this table with some deployment group.
pub record MilvusComponent : Type 0 where
  pub kind : ComponentKind
  pub group : Option DeploymentGroup

unfoldable pub kind_name : ComponentKind → String
kind_name mix_coord = "mixcoord"
kind_name root_coord = "rootcoord"
kind_name data_coord = "datacoord"
kind_name query_coord = "querycoord"
kind_name index_coord = "indexcoord"
kind_name data_node = "datanode"
kind_name query_node = "querynode"
kind_name index_node = "indexnode"
kind_name streaming_node = "streamingnode"
kind_name proxy = "proxy"
kind_name standalone = "standalone"
kind_name cdc = "cdc"

abbrev pub kind_index : ComponentKind → ℕ
kind_index mix_coord = 0
kind_index root_coord = 1
kind_index data_coord = 2
kind_index query_coord = 3
kind_index index_coord = 4
kind_index data_node = 5
kind_index query_node = 6
kind_index index_node = 7
kind_index streaming_node = 8
kind_index proxy = 9
kind_index standalone = 10
kind_index cdc = 11

abbrev pub kind_eq : ComponentKind → ComponentKind → Bool
kind_eq a b = kind_index a == kind_index b

abbrev pub plain : ComponentKind → MilvusComponent
plain k = record { kind = k; group = none }

-- `c.Is(component)`: the names agree.
unfoldable pub is : MilvusComponent → MilvusComponent → Bool
unfolding kind_name
is c d = str_eq (kind_name c.kind) (kind_name d.kind)

abbrev pub mixture_components : List ComponentKind
mixture_components = mix_coord ∷ data_node ∷ query_node ∷ index_node ∷ proxy ∷ standalone ∷ []

abbrev pub milvus_components : List ComponentKind
milvus_components =
    root_coord ∷ data_coord ∷ query_coord ∷ index_coord ∷ data_node ∷ query_node ∷ index_node
    ∷ proxy ∷ standalone ∷ []

abbrev pub milvus_2_6_components : List ComponentKind
milvus_2_6_components =
    mix_coord ∷ data_node ∷ streaming_node ∷ query_node ∷ proxy ∷ standalone ∷ []

abbrev pub supports_groups : ComponentKind → Bool
supports_groups proxy = true
supports_groups data_node = true
supports_groups query_node = true
supports_groups streaming_node = true
supports_groups _ = false

abbrev pub groups_of : Option Component → List DeploymentGroup
groups_of none = []
groups_of (some c) = c.groups

unfoldable pub get_deployment_groups : ComponentKind → MilvusSpec → List DeploymentGroup
get_deployment_groups k spec = if supports_groups k then groups_of (spec.components.field k) else []

-- `groups[i].Name < groups[j].Name` is an order of byte strings.
abbrev pub name_less : DeploymentGroup → DeploymentGroup → Bool
name_less g h = elim (String.compare g.name h.name) [ Ordering.lt ↦ true | _ ↦ false ]

-- `sort.SliceStable` by name, as a stable insertion sort.
unfoldable pub insert_group : DeploymentGroup → List DeploymentGroup → List DeploymentGroup
insert_group g [] = g ∷ []
insert_group g (h ∷ hs) = if name_less h g then h ∷ insert_group g hs else g ∷ h ∷ hs

unfoldable pub sort_groups : List DeploymentGroup → List DeploymentGroup
unfolding insert_group
sort_groups [] = []
sort_groups (g ∷ gs) = insert_group g (sort_groups gs)

-- One workload per deployment group, or the component itself when it has none.
abbrev pub workloads_of : ComponentKind → List DeploymentGroup → List MilvusComponent
workloads_of k [] = plain k ∷ []
workloads_of k (g ∷ gs) = map (λ h. record { kind = k; group = some h }) (sort_groups (g ∷ gs))

unfoldable pub expand : MilvusSpec → List ComponentKind → List MilvusComponent
unfolding get_deployment_groups sort_groups
expand spec [] = []
expand spec (k ∷ ks) = workloads_of k (get_deployment_groups k spec) +++ expand spec ks

module _ (newer : String → Bool) where
  unfoldable pub get_components_by_spec : MilvusSpec → List ComponentKind
  unfolding is_version_greater_than_2_6 use_streaming_node use_mix_coord use_cdc
  get_components_by_spec spec =
      let cdcs = if use_cdc spec then cdc ∷ [] else [] in
      let streaming = if use_streaming_node newer spec then streaming_node ∷ [] else [] in
      let coords = if use_mix_coord spec then mixture_components else milvus_components in
      if not (is_cluster spec.mode)
      then cdcs +++ standalone ∷ []
      else if is_version_greater_than_2_6 newer spec
      then cdcs +++ milvus_2_6_components
      else cdcs +++ (coords +++ streaming)

  unfoldable pub get_component_workloads_by_spec : MilvusSpec → List MilvusComponent
  unfolding get_components_by_spec expand
  get_component_workloads_by_spec spec = expand spec (get_components_by_spec spec)

abbrev pub group_name : Option DeploymentGroup → String
group_name none = ""
group_name (some g) = g.name

unfoldable pub get_deployment_group_name : MilvusComponent → String
get_deployment_group_name c = group_name c.group

unfoldable pub get_display_name : MilvusComponent → String
unfolding kind_name
get_display_name c = elim c.group [
  | none ↦ kind_name c.kind
  | some g ↦ kind_name c.kind ++ ("/" ++ g.name)
]

-- `hash` stands for the first eight bytes of SHA-256 in hexadecimal.
unfoldable pub get_state_key : (String → String) → MilvusComponent → String
unfolding kind_name
get_state_key hash c = elim c.group [
  | none ↦ kind_name c.kind
  | some g ↦ kind_name c.kind ++ ("-" ++ hash g.name)
]

abbrev pub component_replicas : Option Component → Option ℤ
component_replicas none = some (pos 1)
component_replicas (some c) = c.replicas

unfoldable pub get_replicas : MilvusComponent → MilvusSpec → Option ℤ
get_replicas c spec = elim c.group [
  | some g ↦ g.replicas
  | none ↦ component_replicas (spec.components.field c.kind)
]

abbrev pub component_hpa : Option Component → Option HpaSpec
component_hpa none = none
component_hpa (some c) = c.hpa

unfoldable pub get_hpa_spec : MilvusComponent → MilvusSpec → Option HpaSpec
get_hpa_spec c spec = component_hpa (spec.components.field c.kind)

unfoldable pub is_hpa_enabled : MilvusComponent → MilvusSpec → Bool
unfolding get_hpa_spec
is_hpa_enabled c spec = is_set (get_hpa_spec c spec)

-- pkg/controllers/utils.go: a nil replica count reads as one.
abbrev pub replicas_value : Option ℤ → ℤ
replicas_value none = pos 1
replicas_value (some r) = r

unfoldable pub get_least_replicas_regarding_hpa : MilvusComponent → MilvusSpec → ℤ
unfolding get_replicas
get_least_replicas_regarding_hpa c spec =
    let replicas = replicas_value (get_replicas c spec) in
    if ltb_ℤ replicas (pos 0) then pos 1 else replicas

-- The components with the field of one kind replaced.
abbrev pub set_field : ComponentKind → Component → MilvusSpec → MilvusSpec
set_field k c spec = record spec {
  components = record (spec.components) {
    field = λ j. if kind_eq k j then some c else spec.components.field j;
  };
}

-- The first group of the name gets the replicas.
unfoldable pub set_group_replicas :
    String → Option ℤ → List DeploymentGroup → Option (List DeploymentGroup)
set_group_replicas n r [] = none
set_group_replicas n r (g ∷ gs) =
    let rest = set_group_replicas n r gs in
    if str_eq g.name n
    then some (record g { replicas = r } ∷ gs)
    else elim rest [ none ↦ none | some gs' ↦ some (g ∷ gs') ]

abbrev pub set_component_replicas :
    ComponentKind → Option DeploymentGroup → Option ℤ → Component → MilvusSpec → Result MilvusSpec
set_component_replicas k none r c spec = ok (set_field k (record c { replicas = r }) spec)
set_component_replicas k (some g) r c spec =
    if not (supports_groups k)
    then err (errorf "component %s does not support deployment groups")
    else elim (set_group_replicas g.name r c.groups) [
      | none ↦ err (errorf "deployment group %s/%s not found")
      | some gs ↦ ok (set_field k (record c { groups = gs }) spec)
    ]

unfoldable pub set_replicas : MilvusComponent → MilvusSpec → Option ℤ → Result MilvusSpec
unfolding set_group_replicas
set_replicas c spec r = elim (spec.components.field c.kind) [
  | none ↦ err (errorf "component %s is nil")
  | some f ↦ set_component_replicas c.kind c.group r f spec
]

-- Zero desired replicas of the standalone in cluster mode, with no HPA.
unfoldable pub is_idle_cluster_standalone : MilvusSpec → MilvusComponent → Bool
unfolding is
is_idle_cluster_standalone spec c =
    if not (is c (plain standalone)) || not (is_cluster spec.mode)
    then false
    else elim (spec.components.field standalone) [
      | none ↦ true
      | some s ↦
          if is_set s.hpa then false else elim s.replicas [ none ↦ true | some r ↦ r ==ℤ pos 0 ]
    ]
