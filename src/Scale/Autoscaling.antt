-- ===== src/Scale/Autoscaling.antt =====
-- Rollouts of autoscaled components: planScaleForHPA in pkg/controllers/deploy_ctrl_util.go, whose
-- plan the controller stores.
pub mod Ends
use milvus_operator.Base.{
  ℕ, zero, suc, ◌≤◌, ◌<◌, ◌-◌, ◌^◌, max, true, false, Bool, none, some, ◌≡◌, ◌⊎◌, inl, inr, refl,
  sym, ap, ◌∙◌, arith, Bool-cases, dec_lt,
}
use milvus_operator.Base.Int.{ℤ, pos, negsuc, ◌+ℤ◌, ◌-ℤ◌, ◌==ℤ◌, ◌≤ℤ◌, ltb_ℤ}
use milvus_operator.Api.Spec.{ComponentKind, HpaSpec, MilvusSpec, is_force}
use milvus_operator.Component.{MilvusComponent, get_hpa_spec, is_hpa_enabled}
use milvus_operator.Strategy.{Scaling}
use milvus_operator.Deployment.{Deployment, get_deploy_replicas}
use milvus_operator.Scale.{
  scale, current_deploy, last_deploy, no_scale_action, hpa_action, check_scale_kind, hpa,
  min_replicas_or_one, plan_next_scale_action, with_strategy, apply_action,
}
use milvus_operator.Scale.Rounds.{Counts}
use milvus_operator.Scale.Force.{swap_in, change_ne, apply-current, apply-last}

-- minReplicas of an HPA, 1 where it is absent.
abbrev pub minimum : HpaSpec → ℤ
minimum h = elim h.min_replicas [ none ↦ pos 1 | some r ↦ r ]

hpa_action-up :
    (m a q : ℕ) (ready : ℤ)
    → a < max m (suc q)
    → hpa_action (pos m) ready (pos a) (pos (suc q))
      ≡ scale current_deploy (pos (max m (suc q)) -ℤ pos a)
unfolding hpa_action ◌-ℤ◌
hpa_action-up m a q ready h = ground arith

hpa_action-wait :
    (m a q : ℕ) (ready : ℤ)
    → max m (suc q) ≤ a
    → ltb_ℤ ready (pos (max m (suc q))) ≡ true
    → hpa_action (pos m) ready (pos a) (pos (suc q)) ≡ no_scale_action
unfolding hpa_action
hpa_action-wait m a q ready h low = ground arith

hpa_action-down :
    (m a q : ℕ) (ready : ℤ)
    → max m (suc q) ≤ a
    → ltb_ℤ ready (pos (max m (suc q))) ≡ false
    → hpa_action (pos m) ready (pos a) (pos (suc q)) ≡ scale last_deploy (negsuc 0)
unfolding hpa_action
hpa_action-down m a q ready h enough = ground arith

hpa_action-first :
    (m : ℕ) (ready : ℤ) → hpa_action (pos m) ready (pos 0) (pos 0) ≡ scale current_deploy (pos m)
unfolding hpa_action
hpa_action-first m ready = ground arith

hpa_action-done :
    (m a : ℕ) (ready : ℤ) → hpa_action (pos m) ready (pos (suc a)) (pos 0) ≡ no_scale_action
unfolding hpa_action
hpa_action-done m a ready = ground arith

-- The counts that the plan of an HPA with minimum m leaves, by the case that it takes.
module _ (current last : Deployment) (m : ℕ) (ready : ℤ) where
  abbrev pub Leaves : ℕ → ℕ → ℕ → ℕ → Type 0
  Leaves a b p q = Counts (apply_action (hpa_action (pos m) ready (pos a) (pos b)) current last) p q

  pub up-Counts :
      (a q : ℕ)
      → Counts (current, last) a (suc q)
      → a < max m (suc q)
      → max m (suc q) < 2 ^ 31
      → Leaves a (suc q) (max m (suc q)) (suc q)
  up-Counts a q n h small =
      let e = max m (suc q) in
      rw (hpa_action-up m a q ready h) (
        apply-current current last a (suc q) e (pos e -ℤ pos a) n
          (change_ne a e (λ same. absurd (omega (arith, same, h)))) (swap_in a e) small)

  wait-Counts :
      (a q : ℕ)
      → Counts (current, last) a (suc q)
      → max m (suc q) ≤ a
      → ltb_ℤ ready (pos (max m (suc q))) ≡ true
      → Leaves a (suc q) a (suc q)
  unfolding apply_action
  wait-Counts a q n h low = rw (hpa_action-wait m a q ready h low) n

  one_less : (q : ℕ) → pos (suc q) +ℤ negsuc 0 ≡ pos q
  unfolding ◌+ℤ◌
  one_less q = ground arith

  pub down-Counts :
      (a q : ℕ)
      → Counts (current, last) a (suc q)
      → max m (suc q) ≤ a
      → ltb_ℤ ready (pos (max m (suc q))) ≡ false
      → q < 2 ^ 31
      → Leaves a (suc q) a q
  down-Counts a q n h enough small =
      rw (hpa_action-down m a q ready h enough)
        (apply-last current last a (suc q) q (negsuc 0) n refl (one_less q) small)

  pub done-Counts : (a : ℕ) → Counts (current, last) (suc a) 0 → Leaves (suc a) 0 (suc a) 0
  unfolding apply_action
  done-Counts a n = rw (hpa_action-done m a ready) n

first_change : (m : ℕ) → (pos (suc m) ==ℤ pos 0) ≡ false
first_change m = ground arith

first_sum : (m : ℕ) → pos 0 +ℤ pos (suc m) ≡ pos (suc m)
unfolding ◌+ℤ◌
first_sum m = ground arith

none-Counts :
    (current last : Deployment) (ready : ℤ)
    → Counts (current, last) 0 0
    → Leaves current last 0 ready 0 0 0 0
unfolding apply_action
none-Counts current last ready n = rw (hpa_action-first 0 ready) n

first-Counts :
    (current last : Deployment) (m : ℕ) (ready : ℤ)
    → Counts (current, last) 0 0
    → m < 2 ^ 31
    → Leaves current last m ready 0 0 m 0
first-Counts current last zero ready n small = none-Counts current last ready n
first-Counts current last (suc m) ready n small =
    rw (hpa_action-first (suc m) ready)
      (apply-current current last 0 0 (suc m) (pos (suc m)) n (first_change m) (first_sum m) small)

-- Nothing is taken from the current deployment, and no more is given than the minimum and the last
-- one need; or a single pod of the last one is taken, and the replicas and the ready pods of the
-- current one cover the last one and the minimum.
abbrev pub IsGradual : ℕ → ℤ → ℕ → ℕ → ℕ → ℕ → Type 0
IsGradual m ready a b p q =
    ((q ≡ b) × (a ≤ p) × (p ≤ max a (max m b)))
    ⊎ ((b ≡ suc q) × (p ≡ a) × (max m b ≤ a) × (pos (max m b) ≤ℤ ready))

not_low : (n : ℕ) (ready : ℤ) → ltb_ℤ ready (pos n) ≡ false → pos n ≤ℤ ready
not_low n ready h = ground arith

Leaves-IsGradual :
    (current last : Deployment) (m : ℕ) (ready : ℤ) (a b : ℕ)
    → Counts (current, last) a b
    → max m b < 2 ^ 31
    → (p : ℕ) × (q : ℕ) × Leaves current last m ready a b p q × IsGradual m ready a b p q
Leaves-IsGradual current last m ready zero zero n small = (
  m,
  0,
  first-Counts current last m ready n (omega (arith, small)),
  inl (refl, omega arith, omega arith),
)
Leaves-IsGradual current last m ready (suc a) zero n small =
    (suc a, 0, done-Counts current last m ready a n, inl (refl, omega arith, omega arith))
Leaves-IsGradual current last m ready a (suc q) n small = elim (dec_lt a (max m (suc q))) [
  | yes h ↦ (
    max m (suc q),
    suc q,
    up-Counts current last m ready a q n h small,
    inl (refl, omega (arith, h), omega (arith, h)),
  )
  | no h ↦
      let covers : max m (suc q) ≤ a = omega (arith, h) in
      elim (Bool-cases (ltb_ℤ ready (pos (max m (suc q))))) [
        | inl low ↦ (
          a,
          suc q,
          wait-Counts current last m ready a q n covers low,
          inl (refl, omega arith, omega arith),
        )
        | inr enough ↦ (
          a,
          q,
          down-Counts current last m ready a q n covers enough (omega (arith, small)),
          inr (refl, refl, covers, not_low (max m (suc q)) ready enough),
        )
      ]
]

module _ (s : Scaling) (stand_by : ComponentKind → Bool) (rolling : Bool) (c : MilvusComponent)
    (spec : MilvusSpec) where
  -- The two deployments after one plan, stored.
  abbrev pub planned : Deployment → Deployment → Deployment × Deployment
  planned current last =
      apply_action (plan_next_scale_action s stand_by rolling c spec current last)
        (with_strategy s stand_by c spec current) (with_strategy s stand_by c spec last)

  kind_hpa :
      (h : HpaSpec) (last : Deployment)
      → is_force spec.components.image_update_mode ≡ false
      → get_hpa_spec c spec ≡ some h
      → check_scale_kind c spec last ≡ hpa
  unfolding check_scale_kind is_hpa_enabled
  kind_hpa h last calm scaled = rw (calm, scaled) refl

  pub plan_hpa :
      (h : HpaSpec) (m a b : ℕ) (current last : Deployment)
      → is_force spec.components.image_update_mode ≡ false
      → get_hpa_spec c spec ≡ some h
      → minimum h ≡ pos m
      → Counts (current, last) a b
      → plan_next_scale_action s stand_by rolling c spec current last
        ≡ hpa_action (pos m) current.status.ready_replicas (pos a) (pos b)
  unfolding plan_next_scale_action get_deploy_replicas
  plan_hpa h m a b current last calm scaled least n =
      let lowest : min_replicas_or_one (get_hpa_spec c spec) ≡ pos m =
        ap min_replicas_or_one scaled ∙ least in
      rw (kind_hpa h last calm scaled, lowest, n.0, n.1) refl

  -- For a component with an HPA, outside a forced update, what the controller stores after one plan
  -- takes nothing from the current deployment and leaves it no more than the most of its own
  -- replicas, of the last one's and of the HPA's minimum. It takes at most one pod from the last
  -- deployment, and that only if the current one has the minimum and the replicas of the last one,
  -- and has as many ready pods. The replica counts are at least 0, and the minimum and the last
  -- count are int32.
  pub plan_next_scale_action-IsGradual :
      (h : HpaSpec) (m a b : ℕ) (current last : Deployment)
      → is_force spec.components.image_update_mode ≡ false
      → get_hpa_spec c spec ≡ some h
      → minimum h ≡ pos m
      → Counts (current, last) a b
      → max m b < 2 ^ 31
      → (p : ℕ) × (q : ℕ) × Counts (planned current last) p q
        × IsGradual m current.status.ready_replicas a b p q
  unfolding get_deploy_replicas
  plan_next_scale_action-IsGradual h m a b current last calm scaled least n small =
      rw (plan_hpa h m a b current last calm scaled least n) (
        Leaves-IsGradual (with_strategy s stand_by c spec current)
          (with_strategy s stand_by c spec last) m current.status.ready_replicas a b n small)
