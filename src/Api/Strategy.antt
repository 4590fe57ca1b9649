-- ===== src/Api/Strategy.antt =====
-- `intstr.IntOrString`, `RollingUpdateDeployment` and `DeploymentStrategy` of Kubernetes, as far as
-- apis/milvus.io/v1beta1/rolling_update.go and rolling_update_validation.go use them.
use milvus_operator.Base.{ℕ, String, Option, none, some}
use milvus_operator.Base.Int.{ℤ}

-- `other` is an IntOrString whose type tag is neither Int nor String.
pub data IntOrString : Type 0 where
  int : ℤ → IntOrString
  str : String → IntOrString
  other : ℕ → IntOrString

pub record RollingUpdate : Type 0 where
  pub max_surge : Option IntOrString
  pub max_unavailable : Option IntOrString

-- `rolling none` is the type RollingUpdate with a nil parameter block.
pub data DeploymentStrategy : Type 0 where
  recreate : DeploymentStrategy
  rolling : Option RollingUpdate → DeploymentStrategy

abbrev pub override {ℓ} : {A : Type ℓ} → Option A → Option A → Option A
override (some a) old = some a
override none old = old

-- `global.DeepCopy()`, or an empty block when that is nil.
abbrev pub or_empty : Option RollingUpdate → RollingUpdate
or_empty none = record { max_surge = none; max_unavailable = none }
or_empty (some ru) = ru

-- The fields of `component` that are set replace those of `merged`.
abbrev pub overlay : RollingUpdate → Option RollingUpdate → RollingUpdate
overlay merged none = merged
overlay merged (some c) = record {
  max_surge = override c.max_surge merged.max_surge;
  max_unavailable = override c.max_unavailable merged.max_unavailable;
}

unfoldable pub merge_rolling_update :
    Option RollingUpdate → Option RollingUpdate → Option RollingUpdate
merge_rolling_update none none = none
merge_rolling_update global component = some (overlay (or_empty global) component)
