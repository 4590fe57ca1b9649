-- ===== src/Strategy.antt =====
-- The rolling-update strategy of a workload: its validation (apis/milvus.io/v1beta1
-- rolling_update_validation.go), its choice (GetDeploymentStrategy in pkg/controllers/components.go
-- and deployment_updater.go) and the step sizes read from it (rolloutSteps in deploy_ctrl_util.go).
pub mod Progress
pub mod StepSizes
pub mod Admission
use milvus_operator.Base.{
  ℕ, ◌+◌, ◌*◌, ◌/◌, String, Bool, true, false, not, ◌&&◌, ◌||◌, Option, none, some, List, [], ◌∷◌,
  ◌++◌, ◌≡◌, if◌then◌else◌,
}
use milvus_operator.Base.Int.{ℤ, pos, ltb_ℤ, leb_ℤ, ◌==ℤ◌, min_ℤ, max_ℤ}
use milvus_operator.Api.Strategy.{
  IntOrString, int, str, other, RollingUpdate, DeploymentStrategy, recreate, rolling,
  merge_rolling_update,
}
use milvus_operator.Api.Spec.{
  ComponentKind, mix_coord, root_coord, data_coord, query_coord, index_coord, data_node, query_node,
  index_node, streaming_node, proxy, standalone, cdc, Component, MilvusSpec, is_force,
}
use milvus_operator.Component.{MilvusComponent}

-- `intstr.GetScaledValueFromIntOrPercent value total roundUp`, `none` for its error, and whether
-- `validation.IsValidPercent` finds nothing wrong with a text.
pub record Scaling : Type 0 where
  pub scaled : IntOrString → ℤ → Bool → Option ℤ
  pub is_valid_percent : String → Bool

-- The documented behaviour: an integer is its own value, and a text that reads as p percent is p
-- hundredths of the total, rounded up or down.
pub record ScalingLaws (s : Scaling) : Type 0 where
  pub int_value : (v total : ℤ) (up : Bool) → s.scaled (int v) total up ≡ some v
  pub percent_up :
      (t : String) (p n : ℕ)
      → s.scaled (str t) (pos 100) false ≡ some (pos p)
      → s.scaled (str t) (pos n) true ≡ some (pos ((p * n + 99) / 100))
  pub percent_down :
      (t : String) (p n : ℕ)
      → s.scaled (str t) (pos 100) false ≡ some (pos p)
      → s.scaled (str t) (pos n) false ≡ some (pos (p * n / 100))
  pub hundred : s.scaled (str "100%") (pos 100) false ≡ some (pos 100)

pub data FieldError : Type 0 where
  invalid_surge invalid_unavailable exceeds_total both_zero : FieldError

-- `v.Type == intstr.String`.
abbrev pub is_text : IntOrString → Bool
is_text (int v) = false
is_text (str t) = true
is_text (other n) = false

abbrev pub or_zero : Option ℤ → ℤ
or_zero none = pos 0
or_zero (some v) = v

-- A parameter that is set, and non-negative when scaled, replaces the default.
abbrev pub scaled_or : ℤ → Option ℤ → ℤ
scaled_or d none = d
scaled_or d (some v) = if leb_ℤ (pos 0) v then v else d

abbrev pub positive : Option ℤ → Bool
positive none = false
positive (some v) = ltb_ℤ (pos 0) v

module _ (s : Scaling) where
  abbrev pub well_formed : IntOrString → Bool
  well_formed (int v) = leb_ℤ (pos 0) v
  well_formed (str t) = s.is_valid_percent t
  well_formed (other n) = false

  abbrev pub in_range : Option ℤ → Bool
  in_range none = false
  in_range (some n) = leb_ℤ (pos 0) n

  unfoldable pub check_surge : Option IntOrString → List FieldError
  check_surge none = []
  check_surge (some v) =
      if well_formed v && in_range (s.scaled v (pos 100) false) then [] else invalid_surge ∷ []

  unfoldable pub check_unavailable : Option IntOrString → List FieldError
  check_unavailable none = []
  check_unavailable (some v) =
      let n = s.scaled v (pos 100) false in
      if not (well_formed v && in_range n)
      then invalid_unavailable ∷ []
      else if is_text v && ltb_ℤ (pos 100) (or_zero n)
      then exceeds_total ∷ []
      else []

  abbrev pub scaled_surge : Option IntOrString → ℤ
  scaled_surge none = pos 1
  scaled_surge (some v) = or_zero (s.scaled v (pos 100) true)

  abbrev pub scaled_unavailable : Option IntOrString → ℤ
  scaled_unavailable none = pos 0
  scaled_unavailable (some v) = or_zero (s.scaled v (pos 100) false)

  abbrev pub check_both : RollingUpdate → List FieldError → List FieldError
  check_both ru (e ∷ es) = e ∷ es
  check_both ru [] =
      if scaled_surge ru.max_surge ==ℤ pos 0 && scaled_unavailable ru.max_unavailable ==ℤ pos 0
      then both_zero ∷ []
      else []

  unfoldable pub validate_rolling_update : Option RollingUpdate → List FieldError
  unfolding check_surge check_unavailable
  validate_rolling_update none = []
  validate_rolling_update (some ru) =
      check_both ru (check_surge ru.max_surge ++ check_unavailable ru.max_unavailable)

  abbrev pub validate_component : Option RollingUpdate → Option Component → List FieldError
  validate_component global none = []
  validate_component global (some c) =
      validate_rolling_update (merge_rolling_update global c.rolling_update)

  -- Every configured component, in the order of the struct's fields.
  unfoldable pub validate_components : MilvusSpec → List ComponentKind → List FieldError
  unfolding validate_rolling_update merge_rolling_update
  validate_components spec [] = []
  validate_components spec (k ∷ ks) =
      validate_component spec.components.rolling_update (spec.components.field k)
      ++ validate_components spec ks

  abbrev pub field_order : List ComponentKind
  field_order =
      proxy ∷ mix_coord ∷ root_coord ∷ index_coord ∷ data_coord ∷ query_coord ∷ index_node
      ∷ data_node ∷ query_node ∷ streaming_node ∷ standalone ∷ cdc ∷ []

  unfoldable pub validate_rolling_updates : MilvusSpec → List FieldError
  unfolding validate_components
  validate_rolling_updates spec =
      validate_rolling_update spec.components.rolling_update ++ validate_components spec field_order

  -- A positive percentage that rounds down to nothing still allows one when there is no surge.
  abbrev pub forced_unavailable : IntOrString → ℤ → ℤ → ℤ
  forced_unavailable v surge n =
      if surge ==ℤ pos 0 && n ==ℤ pos 0 && positive (s.scaled v (pos 100) false) then pos 1 else n

  abbrev pub unavailable_step : IntOrString → ℤ → Option ℤ → ℤ
  unavailable_step v surge none = pos 0
  unavailable_step v surge (some n) =
      if leb_ℤ (pos 0) n then forced_unavailable v surge n else pos 0

  abbrev pub surge_of : Option IntOrString → ℤ → ℤ
  surge_of none replicas = pos 1
  surge_of (some v) replicas = scaled_or (pos 1) (s.scaled v replicas true)

  abbrev pub unavailable_of : Option IntOrString → ℤ → ℤ → ℤ
  unavailable_of none surge replicas = pos 0
  unavailable_of (some v) surge replicas = unavailable_step v surge (s.scaled v replicas false)

  -- The surge and the unavailable step for a number of replicas.
  unfoldable pub rollout_steps : DeploymentStrategy → ℤ → ℤ × ℤ
  rollout_steps recreate replicas = (pos 1, pos 0)
  rollout_steps (rolling none) replicas = (pos 1, pos 0)
  rollout_steps (rolling (some ru)) replicas =
      let surge = surge_of ru.max_surge replicas in
      (surge, min_ℤ (unavailable_of ru.max_unavailable surge replicas) (max_ℤ (pos 0) replicas))

abbrev pub default_rolling_update : RollingUpdate
default_rolling_update = record {
  max_surge = some (int (pos 1));
  max_unavailable = some (int (pos 0));
}

abbrev pub component_rolling_update : Option Component → Option RollingUpdate
component_rolling_update none = none
component_rolling_update (some c) = c.rolling_update

-- `enable_active_stand_by coord` is the Boolean that the configuration holds for a coordinator.
module _ (enable_active_stand_by : ComponentKind → Bool) where
  abbrev pub all_stand_by : Bool
  all_stand_by =
      enable_active_stand_by root_coord
      && enable_active_stand_by data_coord
      && enable_active_stand_by index_coord
      && enable_active_stand_by query_coord

  unfoldable pub use_rolling_update : ComponentKind → Bool
  use_rolling_update root_coord = enable_active_stand_by root_coord
  use_rolling_update data_coord = enable_active_stand_by data_coord
  use_rolling_update query_coord = enable_active_stand_by query_coord
  use_rolling_update index_coord = enable_active_stand_by index_coord
  use_rolling_update mix_coord = all_stand_by
  use_rolling_update standalone = all_stand_by
  use_rolling_update _ = true

  unfoldable pub component_deployment_strategy : MilvusComponent → MilvusSpec → DeploymentStrategy
  unfolding use_rolling_update merge_rolling_update
  component_deployment_strategy c ms =
      let effective =
        merge_rolling_update ms.components.rolling_update
          (component_rolling_update (ms.components.field c.kind)) in
      if use_rolling_update c.kind
      then rolling (merge_rolling_update (some default_rolling_update) effective)
      else recreate

  unfoldable pub get_deployment_strategy : MilvusSpec → MilvusComponent → DeploymentStrategy
  unfolding component_deployment_strategy
  get_deployment_strategy ms c =
      let all : Option IntOrString = some (str "100%") in
      if is_force ms.components.image_update_mode || ms.components.enable_manual_mode
      then rolling (some (record { max_surge = all; max_unavailable = all }))
      else component_deployment_strategy c ms
