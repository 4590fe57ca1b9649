-- ===== src/Strategy/Progress.antt =====
-- Rolling-update strategies of positive steps, for validateRollingUpdate of
-- apis/milvus.io/v1beta1/rolling_update_validation.go and rolloutSteps.
use milvus_operator.Base.{
  ℕ, zero, suc, ◌+◌, ◌-◌, ◌*◌, ◌/◌, ◌≤◌, String, true, false, Option, none, some, List, [], ◌∷◌,
  ◌++◌, ◌≡◌, refl, ◌⊎◌, inl, inr, arith, append-eq-nil,
}
use milvus_operator.Base.Int.{ℤ, pos, negsuc, ◌<ℤ◌, min_ℤ, max_ℤ}
use milvus_operator.Api.Strategy.{
  IntOrString, int, str, other, RollingUpdate, rolling, override, overlay, merge_rolling_update,
}
use milvus_operator.Strategy.{
  Scaling, ScalingLaws, FieldError, in_range, check_both, scaled_or, check_surge, check_unavailable,
  scaled_surge, scaled_unavailable, surge_of, unavailable_of, validate_rolling_update,
  rollout_steps, default_rolling_update,
}

zero_or_suc : (n : ℕ) → (n ≡ 0) ⊎ ((m : ℕ) × (n ≡ suc m))
zero_or_suc zero = inl refl
zero_or_suc (suc m) = inr (m, refl)

mul-suc_pos : (p n : ℕ) → 1 ≤ suc p * suc n
mul-suc_pos p n = grind arith

-- A scaled value in range is a natural number.
in_range_value : (s : Scaling) (o : Option ℤ) → in_range s o ≡ true → (p : ℕ) × (o ≡ some (pos p))
in_range_value s none h = cc
in_range_value s (some (pos p)) h = (p, refl)
in_range_value s (some (negsuc p)) h = ground arith

-- A step of the rollout: pods to add above the desired number, or to take away below it.
abbrev pub HasStep : ℤ × ℤ → Type 0
HasStep steps = (pos 0 <ℤ steps.0) ⊎ (pos 0 <ℤ steps.1)

scaled_or_nonneg : (o : Option ℤ) → (scaled_or (pos 1) o ≡ pos 0) ⊎ (pos 0 <ℤ scaled_or (pos 1) o)
scaled_or_nonneg none = inr (omega arith)
scaled_or_nonneg (some (pos zero)) = inl refl
scaled_or_nonneg (some (pos (suc m))) = inr (ground arith)
scaled_or_nonneg (some (negsuc m)) = inr (ground arith)

module _ (s : Scaling) (laws : ScalingLaws s) (n : ℕ) where
  surge_of_text :
      (t : String) (p : ℕ)
      → s.scaled (str t) (pos 100) false ≡ some (pos p)
      → (scaled_surge s (some (str t)) ≡ pos 0)
        ⊎ ((m : ℕ) × (surge_of s (some (str t)) (pos (suc n)) ≡ pos (suc m)))
  surge_of_text t zero e = inl (ground (arith, laws.percent_up t 0 100 e))
  surge_of_text t (suc p) e = inr (
    (suc p * suc n + 99) / 100 - 1,
    ground (arith, mul-suc_pos p n, laws.percent_up t (suc p) (suc n) e),
  )

  surge_in_range :
      (t : String)
      → check_surge s (some (str t)) ≡ []
      → in_range s (s.scaled (str t) (pos 100) false) ≡ true
  unfolding check_surge
  surge_in_range t h = ground arith

  unavailable_in_range :
      (t : String)
      → check_unavailable s (some (str t)) ≡ []
      → in_range s (s.scaled (str t) (pos 100) false) ≡ true
  unfolding check_unavailable
  unavailable_in_range t h = ground arith

  -- An admitted surge is zero in the validation, or positive for every positive number of replicas.
  surge_grows :
      (v : Option IntOrString)
      → check_surge s v ≡ []
      → (scaled_surge s v ≡ pos 0)
        ⊎ ((m : ℕ) × (surge_of s (override v (some (int (pos 1)))) (pos (suc n)) ≡ pos (suc m)))
  unfolding check_surge
  surge_grows none h = inr (0, ground (arith, laws.int_value (pos 1) (pos (suc n)) true))
  surge_grows (some (int (pos zero))) h =
      inl (ground (arith, laws.int_value (pos 0) (pos 100) true))
  surge_grows (some (int (pos (suc m)))) h =
      inr (m, ground (arith, laws.int_value (pos (suc m)) (pos (suc n)) true))
  surge_grows (some (int (negsuc m))) h = ground arith
  surge_grows (some (str t)) h =
      let (p, e) = in_range_value s _ (surge_in_range t h) in surge_of_text t p e
  surge_grows (some (other m)) h = ground arith

  unavailable_of_text :
      (t : String) (p : ℕ)
      → s.scaled (str t) (pos 100) false ≡ some (pos p)
      → (scaled_unavailable s (some (str t)) ≡ pos 0)
        ⊎ ((m : ℕ) × (unavailable_of s (some (str t)) (pos 0) (pos (suc n)) ≡ pos (suc m)))
  unavailable_of_text t zero e = inl (ground (arith, e))
  unavailable_of_text t (suc p) e = elim (zero_or_suc (suc p * suc n / 100)) [
    | inl z ↦ inr (0, ground (arith, z, e, laws.percent_down t (suc p) (suc n) e))
    | inr (m, z) ↦ inr (m, ground (arith, z, e, laws.percent_down t (suc p) (suc n) e))
  ]

  -- With no surge, the same holds of an admitted number of unavailable replicas.
  unavailable_grows :
      (v : Option IntOrString)
      → check_unavailable s v ≡ []
      → (scaled_unavailable s v ≡ pos 0)
        ⊎ ((m : ℕ) × (unavailable_of s (override v (some (int (pos 0)))) (pos 0) (pos (suc n))
              ≡ pos (suc m)))
  unfolding check_unavailable
  unavailable_grows none h = inl refl
  unavailable_grows (some (int (pos zero))) h =
      inl (ground (arith, laws.int_value (pos 0) (pos 100) false))
  unavailable_grows (some (int (pos (suc m)))) h =
      inr (m, ground (arith, laws.int_value (pos (suc m)) (pos (suc n)) false))
  unavailable_grows (some (int (negsuc m))) h = ground arith
  unavailable_grows (some (str t)) h =
      let (p, e) = in_range_value s _ (unavailable_in_range t h) in unavailable_of_text t p e
  unavailable_grows (some (other m)) h = ground arith

  surge_nonneg :
      (v : Option IntOrString)
      → (surge_of s (override v (some (int (pos 1)))) (pos (suc n)) ≡ pos 0)
        ⊎ (pos 0 <ℤ surge_of s (override v (some (int (pos 1)))) (pos (suc n)))
  surge_nonneg none = scaled_or_nonneg (s.scaled (int (pos 1)) (pos (suc n)) true)
  surge_nonneg (some v) = scaled_or_nonneg (s.scaled v (pos (suc n)) true)

  unavailable_step_pos :
      (u : ℤ) (m : ℕ) → u ≡ pos (suc m) → pos 0 <ℤ min_ℤ u (max_ℤ (pos 0) (pos (suc n)))
  unfolding min_ℤ max_ℤ
  unavailable_step_pos u m e = ground arith

  check_both_nil :
      (ru : RollingUpdate) (errors : List FieldError)
      → check_both s ru errors ≡ []
      → (errors ≡ [])
        × ((scaled_surge s ru.max_surge ≡ pos 0)
            → (scaled_unavailable s ru.max_unavailable ≡ pos 0)
            → ⊥)
  check_both_nil ru [] h = (refl, λ a b. ground arith)
  check_both_nil ru (e ∷ es) h = cc

  both_not_zero :
      (ru : RollingUpdate)
      → validate_rolling_update s (some ru) ≡ []
      → (check_surge s ru.max_surge ≡ [])
        × (check_unavailable s ru.max_unavailable ≡ [])
        × ((scaled_surge s ru.max_surge ≡ pos 0)
            → (scaled_unavailable s ru.max_unavailable ≡ pos 0)
            → ⊥)
  unfolding validate_rolling_update
  both_not_zero ru h =
      let errors = check_surge s ru.max_surge ++ check_unavailable s ru.max_unavailable in
      let (checked, apart) = check_both_nil ru errors h in
      let (surge, unavailable) = append-eq-nil _ _ checked in (surge, unavailable, apart)

  no_surge-HasStep :
      (ru : RollingUpdate)
      → validate_rolling_update s (some ru) ≡ []
      → surge_of s (override ru.max_surge (some (int (pos 1)))) (pos (suc n)) ≡ pos 0
      → HasStep (
          rollout_steps s (rolling (some (overlay default_rolling_update (some ru)))) (pos (suc n)))
  unfolding rollout_steps
  no_surge-HasStep ru h z =
      let (surge, unavailable, apart) = both_not_zero ru h in
      elim (surge_grows ru.max_surge surge) [
        | inr (m, e) ↦ inl (ground (arith, e))
        | inl zs ↦ elim (unavailable_grows ru.max_unavailable unavailable) [
          | inl zu ↦ absurd (apart zs zu)
          | inr (m, e) ↦ inr (rw z (unavailable_step_pos _ m e))
        ]
      ]

  validated-HasStep :
      (ru : RollingUpdate)
      → validate_rolling_update s (some ru) ≡ []
      → HasStep (
          rollout_steps s (rolling (some (overlay default_rolling_update (some ru)))) (pos (suc n)))
  unfolding rollout_steps
  validated-HasStep ru h = elim (surge_nonneg ru.max_surge) [
    | inl z ↦ no_surge-HasStep ru h z
    | inr p ↦ inl p
  ]

  pub full-HasStep :
      let all = some (str "100%") in
      HasStep (
        rollout_steps s
          (rolling (some (record { max_surge = all; max_unavailable = all })))
          (pos (suc n)))
  unfolding rollout_steps
  full-HasStep = inl (ground (arith, laws.percent_up "100%" 100 (suc n) laws.hundred))

  pub merged-HasStep :
      (ru : Option RollingUpdate)
      → validate_rolling_update s ru ≡ []
      → HasStep (
          rollout_steps s
            (rolling (merge_rolling_update (some default_rolling_update) ru))
            (pos (suc n)))
  unfolding merge_rolling_update
  merged-HasStep none h =
      unfold rollout_steps in inl (ground (arith, laws.int_value (pos 1) (pos (suc n)) true))
  merged-HasStep (some ru) h = validated-HasStep ru h
