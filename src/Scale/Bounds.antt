-- ===== src/Scale/Bounds.antt =====
-- How many pods a rollout step may add above the desired number, and how many it may take away.
use milvus_operator.Base.{
  ℕ, suc, ◌+◌, ◌-◌, ◌≤◌, ◌<◌, min, max, true, false, ◌≡◌, ◌⊎◌, inl, inr, refl, arith, dec_lt,
}
use milvus_operator.Base.Int.{
  ℤ, pos, pos_part, neg, ltb_ℤ, min_ℤ, ◌-ℤ◌, +ℤ_pos, -ℤ_pos, +ℤ_neg, min_ℤ_pos, max_ℤ_pos,
}
use milvus_operator.Api.Spec.{MilvusSpec}
use milvus_operator.Component.{MilvusComponent}
use milvus_operator.Strategy.{Scaling, rollout_steps}
use milvus_operator.Deployment.{Deployment}
use milvus_operator.Scale.{
  scale, current_deploy, last_deploy, no_scale_action, no_surge_action, equal_limits_action,
  plan_scale_for_rollout, expected_replicas, compare_deploy_resource_limit_equal,
}
use milvus_operator.Scale.Steps.{after, equal_limits-shrink, equal_limits-grow}
use milvus_operator.Scale.Rounds.{Counts, positive_ne}

-- The sum of the two replica counts.
abbrev pub total : ℤ × ℤ → ℕ
total r = pos_part r.0 + pos_part r.1

-- The total stays below the surge limit, or does not grow, and it falls by no more than the
-- unavailable step, or by one.
abbrev pub WithinSurge : ℕ → ℕ → ℕ → ℕ → ℤ × ℤ → Type 0
WithinSurge e k u before r = (total r ≤ max before (e + k)) × (before ≤ total r + max 1 u)

shrink-total :
    (c l d : ℕ)
    → d ≤ l
    → total (after (scale last_deploy (neg (pos d))) (pos c) (pos l)) ≡ c + l - d
unfolding after
shrink-total c l d h = rw (+ℤ_neg l d h) (omega arith)

grow-total : (c l d : ℕ) → total (after (scale current_deploy (pos d)) (pos c) (pos l)) ≡ c + l + d
unfolding after
grow-total c l d = rw (+ℤ_pos c d) (omega arith)

equal_limits-WithinSurge :
    (e u c l k : ℕ)
    → WithinSurge e (suc k) u (c + suc l) (
        after
          (equal_limits_action (pos e) (pos (suc k)) (pos u) (pos c) (pos (suc l)))
          (pos c)
          (pos (suc l)))
equal_limits-WithinSurge e u c l k = elim (dec_lt e (suc l + c)) [
  | yes h ↦
      rw (equal_limits-shrink e u c l k h)
        (omega (arith, shrink-total c (suc l) (min (max 1 u) (suc l)) (omega arith)))
  | no h ↦
      rw (equal_limits-grow e u c l k (omega arith))
        (omega (arith, grow-total c (suc l) (min (suc k) (min (e - c) (e + suc k - (suc l + c))))))
]

-- A rollout step with a positive surge, between deployments of equal resource limits, keeps the
-- total within the desired number plus the surge (or does not raise it), and takes no more pods away
-- than the unavailable step, or one.
pub plan_scale_for_rollout-WithinSurge :
    (s : Scaling) (c : MilvusComponent) (spec : MilvusSpec) (current last : Deployment)
    (e k u a b : ℕ)
    → expected_replicas c spec ≡ pos e
    → rollout_steps s current.strategy (pos e) ≡ (pos (suc k), pos u)
    → compare_deploy_resource_limit_equal current last ≡ true
    → Counts (current, last) a (suc b)
    → WithinSurge e
        (suc k)
        u
        (a + suc b)
        (after (plan_scale_for_rollout s c spec current last) (pos a) (pos (suc b)))
unfolding plan_scale_for_rollout
plan_scale_for_rollout-WithinSurge s c spec current last e k u a b desired steps same n =
    rw (desired, steps, n.0, n.1, positive_ne k, same) (equal_limits-WithinSurge e u a b k)

-- With no surge: the total does not pass the desired number, or does not grow, the current
-- deployment loses nothing, and what is taken from the last one leaves the desired number less the
-- unavailable step of the available pods, even if every pod that goes was available.
abbrev pub WithinBudget : ℕ → ℕ → ℕ → ℕ → ℕ → ℤ × ℤ → Type 0
WithinBudget e u a b available r =
    (total r ≤ max (a + b) e)
    × (a ≤ pos_part r.0)
    × ((pos_part r.1 ≡ b) ⊎ ((e - u) + (b - pos_part r.1) ≤ available))

-- The pods that the plan takes away.
down : ℕ → ℕ → ℕ → ℕ → ℕ
down e u b available = min b (available - (e - u))

no_surge-out :
    (e u a b x y : ℕ)
    → b + a < e
    → no_surge_action (pos e) (pos u) (pos a) (pos b) (pos x) (pos y)
      ≡ scale current_deploy (pos (e - (b + a)))
unfolding no_surge_action
no_surge-out e u a b x y h = ground (arith, +ℤ_pos b a, -ℤ_pos e (b + a))

no_surge-in :
    (e u a b x y : ℕ)
    → e ≤ b + a
    → u ≤ e
    → e - u < min x a + min y b
    → 0 < b
    → no_surge_action (pos e) (pos u) (pos a) (pos b) (pos x) (pos y)
      ≡ scale last_deploy (neg (pos (down e u b (min x a + min y b))))
unfolding no_surge_action down
no_surge-in e u a b x y h k p z = ground (
  arith,
  +ℤ_pos b a,
  min_ℤ_pos x a,
  min_ℤ_pos y b,
  +ℤ_pos (min x a) (min y b),
  -ℤ_pos e u,
  max_ℤ_pos 0 (e - u),
  -ℤ_pos (min x a + min y b) (e - u),
  min_ℤ_pos b (min x a + min y b - (e - u)),
)

nothing_spare : (b m n : ℕ) → m ≤ n → ltb_ℤ (pos 0) (min_ℤ (pos b) (pos m -ℤ pos n)) ≡ false
unfolding min_ℤ ◌-ℤ◌
nothing_spare b m n h = ground arith

no_surge-wait :
    (e u a b x y : ℕ)
    → e ≤ b + a
    → u ≤ e
    → min x a + min y b ≤ e - u
    → no_surge_action (pos e) (pos u) (pos a) (pos b) (pos x) (pos y) ≡ no_scale_action
unfolding no_surge_action
no_surge-wait e u a b x y h k p = ground (
  arith,
  +ℤ_pos b a,
  min_ℤ_pos x a,
  min_ℤ_pos y b,
  +ℤ_pos (min x a) (min y b),
  -ℤ_pos e u,
  max_ℤ_pos 0 (e - u),
  nothing_spare b (min x a + min y b) (e - u),
)

last-shrink :
    (c l d : ℕ)
    → d ≤ l
    → pos_part (after (scale last_deploy (neg (pos d))) (pos c) (pos l)).1 ≡ l - d
unfolding after
last-shrink c l d h = rw (+ℤ_neg l d h) refl

current-grow :
    (c l d : ℕ) → pos_part (after (scale current_deploy (pos d)) (pos c) (pos l)).0 ≡ c + d
unfolding after
current-grow c l d = rw (+ℤ_pos c d) refl

in-WithinBudget :
    (e u a b m : ℕ)
    → e - u < m
    → m ≤ a + b
    → WithinBudget e u a b m (after (scale last_deploy (neg (pos (down e u b m)))) (pos a) (pos b))
unfolding down after
in-WithinBudget e u a b m h k = (
  omega (arith, shrink-total a b (min b (m - (e - u))) (omega arith)),
  omega arith,
  inr (omega (arith, last-shrink a b (min b (m - (e - u))) (omega arith))),
)

out-WithinBudget :
    (e u a b m d : ℕ)
    → a + b + d ≤ e
    → WithinBudget e u a b m (after (scale current_deploy (pos d)) (pos a) (pos b))
out-WithinBudget e u a b m d h =
    (omega (arith, grow-total a b d), omega (arith, current-grow a b d), inl (unfold after in refl))

wait-WithinBudget : (e u a b m : ℕ) → WithinBudget e u a b m (after no_scale_action (pos a) (pos b))
unfolding after
wait-WithinBudget e u a b m = (omega arith, omega arith, inl refl)

no_surge-WithinBudget :
    (e u a b x y : ℕ)
    → u ≤ e
    → 0 < b
    → WithinBudget e u a b
        (min x a + min y b)
        (after (no_surge_action (pos e) (pos u) (pos a) (pos b) (pos x) (pos y)) (pos a) (pos b))
no_surge-WithinBudget e u a b x y k z = elim (dec_lt (b + a) e) [
  | yes h ↦ rw (no_surge-out e u a b x y h) (out-WithinBudget e u a b _ (e - (b + a)) (omega arith))
  | no h ↦ elim (dec_lt (e - u) (min x a + min y b)) [
    | yes p ↦
        rw (no_surge-in e u a b x y (omega arith) k p z)
          (in-WithinBudget e u a b (min x a + min y b) p (omega arith))
    | no p ↦
        rw (no_surge-wait e u a b x y (omega arith) k (omega arith))
          (wait-WithinBudget e u a b (min x a + min y b))
  ]
]

-- A rollout step without surge, whatever the statuses report as available, keeps the total within
-- the desired number (or does not raise it), takes nothing from the current deployment, and takes
-- from the last deployment only what leaves the desired number less the unavailable step of
-- available pods. The unavailable step is at most the desired number.
pub plan_scale_for_rollout-WithinBudget :
    (s : Scaling) (c : MilvusComponent) (spec : MilvusSpec) (current last : Deployment)
    (e u a b x y : ℕ)
    → expected_replicas c spec ≡ pos e
    → rollout_steps s current.strategy (pos e) ≡ (pos 0, pos u)
    → u ≤ e
    → Counts (current, last) a (suc b)
    → current.status.available_replicas ≡ pos x
    → last.status.available_replicas ≡ pos y
    → WithinBudget e u a
        (suc b)
        (min x a + min y (suc b))
        (after (plan_scale_for_rollout s c spec current last) (pos a) (pos (suc b)))
unfolding plan_scale_for_rollout
plan_scale_for_rollout-WithinBudget s c spec current last e u a b x y desired steps k n cx ly =
    rw (desired, steps, n.0, n.1, cx, ly) (no_surge-WithinBudget e u a (suc b) x y k (omega arith))
