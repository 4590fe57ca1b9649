-- ===== src/Api/Spec.antt =====
-- The spec of a Milvus resource: milvus_types.go and components_types.go.
use Prim.Native.Char.{code}
use text.Mathlib.Text.{starts_with}
use milvus_operator.Base.{
  String, Bool, true, false, not, ◌&&◌, Option, none, some, List, [], ◌∷◌, ◌==◌, if◌then◌else◌,
  str_eq,
}
use milvus_operator.Base.Int.{ℤ, pos, ◌==ℤ◌}
use milvus_operator.Api.Strategy.{RollingUpdate}
use milvus_operator.Api.Labels.{StringMap}

pub data ComponentKind : Type 0 where
  mix_coord root_coord data_coord query_coord index_coord : ComponentKind
  data_node query_node index_node streaming_node proxy standalone cdc : ComponentKind

pub ComponentKind-discrete : Discrete ComponentKind
ComponentKind-discrete = hlevel

-- The metrics and the behaviour are free-form values.
pub record HpaSpec : Type 0 where
  pub min_replicas : Option ℤ
  pub max_replicas : ℤ
  pub metrics : List String
  pub behavior : Option String

pub record DeploymentGroup : Type 0 where
  pub name : String
  pub labels : StringMap
  pub annotations : StringMap
  pub replicas : Option ℤ

-- `Component` with its embedded spec. `groups` is empty for the kinds that have no such field, and
-- `stateful_set` is the answer of `StatefulSetEnabled`.
pub record Component : Type 0 where
  pub paused : Bool
  pub rolling_update : Option RollingUpdate
  pub replicas : Option ℤ
  pub hpa : Option HpaSpec
  pub groups : List DeploymentGroup
  pub stateful_set : Bool

pub data ImageUpdateMode : Type 0 where
  rolling_upgrade rolling_downgrade all_at_once force : ImageUpdateMode

pub data RollingMode : Type 0 where
  not_set v1 v2 v3 : RollingMode

pub data MilvusMode : Type 0 where
  cluster standalone_mode : MilvusMode

-- `MilvusComponents`. The twelve pointer fields are one function of the kind, as the code reads
-- them by reflection on `FieldName`.
pub record MilvusComponents : Type 0 where
  pub paused : Bool
  pub image : String
  pub dummy_image : String
  pub version : String
  pub rolling_update : Option RollingUpdate
  pub image_update_mode : ImageUpdateMode
  pub enable_rolling_update : Option Bool
  pub rolling_mode : RollingMode
  pub enable_manual_mode : Bool
  pub streaming_mode : Option Bool
  pub field : ComponentKind → Option Component

pub record MilvusSpec : Type 0 where
  pub mode : MilvusMode
  pub components : MilvusComponents

abbrev pub is_cluster : MilvusMode → Bool
is_cluster cluster = true
is_cluster standalone_mode = false

abbrev pub is_force : ImageUpdateMode → Bool
is_force force = true
is_force _ = false

abbrev pub is_set {ℓ} : {A : Type ℓ} → Option A → Bool
is_set none = false
is_set (some a) = true

-- What follows the last colon, if there is one: the last of `strings.Split(image, ":")`.
unfoldable pub image_tag : String → Option String
image_tag String.[] = none
image_tag (String.◌∷◌ c s) = elim (image_tag s) [
  | some t ↦ some t
  | none ↦ if code c == b':' then some s else none
]

-- `newer` stands for `semver.ParseTolerant(v)` succeeding with a version greater than 2.5.999.
module _ (newer : String → Bool) where
  unfoldable pub is_image_version_greater_than_2_6 : String → String → Bool
  is_image_version_greater_than_2_6 version image =
      if not (str_eq version "") then newer version else elim (image_tag image) [
        | none ↦ false
        | some tag ↦ if starts_with tag "master-" then true else newer tag
      ]

  unfoldable pub is_version_greater_than_2_6 : MilvusSpec → Bool
  unfolding is_image_version_greater_than_2_6
  is_version_greater_than_2_6 ms =
      is_image_version_greater_than_2_6 ms.components.version ms.components.image

  unfoldable pub use_streaming_node : MilvusSpec → Bool
  use_streaming_node ms =
      if is_version_greater_than_2_6 ms then true else elim ms.components.streaming_mode [
        | some b ↦ b
        | none ↦ is_set (ms.components.field streaming_node)
      ]

unfoldable pub use_mix_coord : MilvusSpec → Bool
use_mix_coord ms = is_set (ms.components.field mix_coord)

unfoldable pub use_cdc : MilvusSpec → Bool
use_cdc ms = is_set (ms.components.field cdc)

-- `replicas != nil && *replicas == 0`.
abbrev pub is_zero : Option ℤ → Bool
is_zero none = false
is_zero (some r) = r ==ℤ pos 0

unfoldable pub groups_stopped : List DeploymentGroup → Bool
groups_stopped [] = true
groups_stopped (g ∷ gs) = is_zero g.replicas && groups_stopped gs

unfoldable pub component_or_groups_stopped : Option ℤ → List DeploymentGroup → Bool
unfolding groups_stopped
component_or_groups_stopped replicas [] = is_zero replicas
component_or_groups_stopped replicas (g ∷ gs) = groups_stopped (g ∷ gs)
