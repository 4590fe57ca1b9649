-- ===== src/Rollout.antt =====
-- A rollout with two deployments of one component: pkg/controllers/deploy_ctrl.go,
-- deploy_ctrl_util.go and rollout_util.go, with the labels and annotations of
-- apis/milvus.io/v1beta1/label_annotations.go in which they keep their state.
pub mod Metadata
pub mod Maps
pub mod Server
pub mod Store
pub mod Updates
pub mod Scaling
pub mod Controller
pub mod Slots
pub mod View
pub mod Ends
pub mod Invariant
pub mod Reachable
pub mod ModeChange
pub mod StatusUpdater
use milvus_operator.Base.{
  ℕ, String, Bool, true, false, not, List, str_eq, if◌then◌else◌, insert, delete,
}
use milvus_operator.Base.Int.{ℤ, pos}
use milvus_operator.Api.Spec.{MilvusSpec, RollingMode}
use milvus_operator.Api.Labels.{
  StringMap, get, changing_mode_label, component_group_id_label, component_current_group_id_label,
  rolling_id_label,
}
use milvus_operator.Conditions.{MilvusCondition}

pub record MilvusStatus : Type 0 where
  pub rolling_mode : RollingMode
  pub observed_generation : ℕ
  pub conditions : List MilvusCondition

pub record Milvus : Type 0 where
  pub name : String
  pub generation : ℕ
  pub labels : StringMap
  pub annotations : StringMap
  pub spec : MilvusSpec
  pub status : MilvusStatus

unfoldable pub is_changing_mode : Milvus → String → Bool
is_changing_mode m component = str_eq (get (changing_mode_label component) m.annotations) "true"

unfoldable pub set_changing_mode : Milvus → String → Bool → Milvus
set_changing_mode m component changing =
    let key = changing_mode_label component in
    record m {
      annotations = if changing then insert key "true" m.annotations else delete key m.annotations;
    }

-- On the labels of a deployment, a pod or a template.
unfoldable pub get_label_group_id : String → StringMap → String
get_label_group_id component labels = get (component_group_id_label component) labels

unfoldable pub set_group_id_str : String → StringMap → String → StringMap
set_group_id_str component labels id = insert (component_group_id_label component) id labels

unfoldable pub get_current_group_id : Milvus → String → String
get_current_group_id m component = get (component_current_group_id_label component) m.annotations

unfoldable pub set_current_group_id_str : Milvus → String → String → Milvus
set_current_group_id_str m component id = record m {
  annotations = insert (component_current_group_id_label component) id m.annotations;
}

unfoldable pub is_component_rolling : Milvus → String → Bool
is_component_rolling m component = not (str_eq (get (rolling_id_label component) m.labels) "")

-- `itoa` writes the generation, which is kept from the start of the rollout.
unfoldable pub set_component_rolling : (ℤ → String) → Milvus → String → Bool → Milvus
set_component_rolling itoa m component rolling =
    let key = rolling_id_label component in
    let started =
      if str_eq (get key m.labels) ""
      then insert key (itoa (pos m.generation)) m.labels
      else m.labels in
    record m { labels = if rolling then started else delete key m.labels }
