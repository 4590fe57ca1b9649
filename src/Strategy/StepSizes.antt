-- ===== src/Strategy/StepSizes.antt =====
-- The step sizes of rolloutSteps in pkg/controllers/deploy_ctrl_util.go as natural numbers.
use milvus_operator.Base.{
  ℕ, ◌≤◌, min, max, Bool, true, false, Option, none, some, ◌≡◌, refl, arith, if◌then◌else◌,
}
use milvus_operator.Base.Int.{ℤ, pos, negsuc, min_ℤ_pos, max_ℤ_pos}
use milvus_operator.Api.Strategy.{DeploymentStrategy, recreate, rolling, IntOrString}
use milvus_operator.Strategy.{
  Scaling, scaled_or, surge_of, unavailable_of, unavailable_step, forced_unavailable, rollout_steps,
}

-- The step sizes are natural numbers, and no more pods may be unavailable than are desired.
abbrev pub NatSteps : ℕ → ℤ × ℤ → Type 0
NatSteps e r = (k : ℕ) × (u : ℕ) × (r ≡ (pos k, pos u)) × (u ≤ e)

scaled_or_nat : (o : Option ℤ) → (k : ℕ) × (scaled_or (pos 1) o ≡ pos k)
scaled_or_nat none = (1, refl)
scaled_or_nat (some (pos k)) = (k, ground arith)
scaled_or_nat (some (negsuc k)) = (1, ground arith)

if_nat : (b : Bool) (m n : ℕ) → (u : ℕ) × ((if b then pos m else pos n) ≡ pos u)
if_nat true m n = (m, refl)
if_nat false m n = (n, refl)

module _ (s : Scaling) where
  surge_nat : (v : Option IntOrString) (r : ℤ) → (k : ℕ) × (surge_of s v r ≡ pos k)
  surge_nat none r = (1, refl)
  surge_nat (some v) r = scaled_or_nat (s.scaled v r true)

  forced_nat :
      (v : IntOrString) (surge : ℤ) (n : ℕ)
      → (u : ℕ) × (forced_unavailable s v surge (pos n) ≡ pos u)
  forced_nat v surge n = if_nat _ 1 n

  unavailable_step_nat :
      (v : IntOrString) (surge : ℤ) (o : Option ℤ)
      → (u : ℕ) × (unavailable_step s v surge o ≡ pos u)
  unavailable_step_nat v surge none = (0, refl)
  unavailable_step_nat v surge (some (negsuc n)) = (0, ground arith)
  unavailable_step_nat v surge (some (pos n)) =
      let (u, e) = forced_nat v surge n in (u, ground (arith, e))

  unavailable_nat :
      (v : Option IntOrString) (surge r : ℤ) → (u : ℕ) × (unavailable_of s v surge r ≡ pos u)
  unavailable_nat none surge r = (0, refl)
  unavailable_nat (some v) surge r = unavailable_step_nat v surge (s.scaled v r false)

  pub rollout_steps_nat :
      (st : DeploymentStrategy) (e : ℕ) → NatSteps e (rollout_steps s st (pos e))
  unfolding rollout_steps
  rollout_steps_nat recreate e = (1, 0, refl, omega arith)
  rollout_steps_nat (rolling none) e = (1, 0, refl, omega arith)
  rollout_steps_nat (rolling (some ru)) e =
      let (k, surge) = surge_nat ru.max_surge (pos e) in
      let (u, unavailable) =
        unavailable_nat ru.max_unavailable (surge_of s ru.max_surge (pos e)) (pos e) in
      (
        k,
        min u e,
        ground (arith, surge, unavailable, max_ℤ_pos 0 e, min_ℤ_pos u (max 0 e)),
        omega arith,
      )
