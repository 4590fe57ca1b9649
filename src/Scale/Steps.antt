-- ===== src/Scale/Steps.antt =====
-- One step of a plan of pkg/controllers/deploy_ctrl_util.go on replica counts, with the distance
-- from the end of the rollout.
use milvus_operator.Base.{
  ℕ, suc, ◌+◌, ◌-◌, ◌*◌, ◌≤◌, ◌<◌, min, max, none, some, ◌≡◌, ◌≢◌, ◌⊎◌, arith, dec_lt,
}
use milvus_operator.Base.Int.{
  ℤ, pos, negsuc, pos_part, neg_part, ◌+ℤ◌, neg, +ℤ_pos, -ℤ_pos, +ℤ_neg, +ℤ_negsuc, min_ℤ_pos,
  max_ℤ_pos,
}
use milvus_operator.Scale.{
  scale, current_deploy, last_deploy, ScaleAction, no_surge_action, equal_limits_action,
  changed_limits_action, normal_action,
}

-- The replica counts after an action.
unfoldable pub after : ScaleAction → ℤ → ℤ → ℤ × ℤ
after a c l = elim a.deploy [
  | none ↦ (c, l)
  | some t ↦ elim t [
    | current_deploy ↦ (c +ℤ a.replica_change, l)
    | last_deploy ↦ (c, l +ℤ a.replica_change)
  ]
]

-- How far the counts are from `e` current and no last replicas.
unfoldable pub distance : ℕ → ℕ → ℕ → ℕ
distance e c l = l + 2 * (max l e - c) + (c - e)

-- The counts stay natural numbers within the old counts and the goal, and come nearer to it.
pub record IsStep (e c l : ℕ) (r : ℤ × ℤ) : Type 0 where
  pub current_nat : neg_part r.0 ≡ 0
  pub last_nat : neg_part r.1 ≡ 0
  pub current_bound : pos_part r.0 ≤ max c (max l e)
  pub last_bound : pos_part r.1 ≤ l
  pub nearer : distance e (pos_part r.0) (pos_part r.1) < distance e c l

shrink-IsStep :
    (e c l d : ℕ)
    → 0 < d
    → d ≤ l
    → IsStep e c l (after (scale last_deploy (neg (pos d))) (pos c) (pos l))
unfolding after distance
shrink-IsStep e c l d p h = rw (+ℤ_neg l d h) (ground arith)

grow-IsStep :
    (e c l d : ℕ)
    → 0 < d
    → c + d ≤ max l e
    → IsStep e c l (after (scale current_deploy (pos d)) (pos c) (pos l))
unfolding after distance
grow-IsStep e c l d p h = rw (+ℤ_pos c d) (ground arith)

pub equal_limits-shrink :
    (e u c l k : ℕ)
    → e < suc l + c
    → equal_limits_action (pos e) (pos (suc k)) (pos u) (pos c) (pos (suc l))
      ≡ scale last_deploy (neg (pos (min (max 1 u) (suc l))))
unfolding equal_limits_action
equal_limits-shrink e u c l k h =
    ground (arith, +ℤ_pos (suc l) c, max_ℤ_pos 1 u, min_ℤ_pos (max 1 u) (suc l))

pub equal_limits-grow :
    (e u c l k : ℕ)
    → suc l + c ≤ e
    → equal_limits_action (pos e) (pos (suc k)) (pos u) (pos c) (pos (suc l))
      ≡ scale current_deploy (pos (min (suc k) (min (e - c) (e + suc k - (suc l + c)))))
unfolding equal_limits_action
equal_limits-grow e u c l k h = ground (
  arith,
  +ℤ_pos (suc l) c,
  +ℤ_pos e (suc k),
  -ℤ_pos e c,
  -ℤ_pos (e + suc k) (suc l + c),
  min_ℤ_pos (e - c) (e + suc k - (suc l + c)),
  min_ℤ_pos (suc k) (min (e - c) (e + suc k - (suc l + c))),
)

pub equal_limits-IsStep :
    (e u c l k : ℕ)
    → IsStep e c (suc l) (
        after
          (equal_limits_action (pos e) (pos (suc k)) (pos u) (pos c) (pos (suc l)))
          (pos c)
          (pos (suc l)))
equal_limits-IsStep e u c l k = elim (dec_lt e (suc l + c)) [
  | yes h ↦
      rw (equal_limits-shrink e u c l k h) (shrink-IsStep e c (suc l) _ (omega arith) (omega arith))
  | no h ↦
      rw (equal_limits-grow e u c l k (omega arith))
        (grow-IsStep e c (suc l) _ (omega arith) (omega arith))
]

changed_limits-grow :
    (e u c l : ℕ)
    → c < max (suc l) e
    → changed_limits_action (pos e) (pos u) (pos c) (pos (suc l))
      ≡ scale current_deploy (pos (max (suc l) e - c))
unfolding changed_limits_action
changed_limits-grow e u c l h = ground (arith, -ℤ_pos e c, -ℤ_pos (suc l) c)

changed_limits-shrink :
    (e u c l : ℕ)
    → max (suc l) e ≤ c
    → changed_limits_action (pos e) (pos u) (pos c) (pos (suc l))
      ≡ scale last_deploy (neg (pos (min (max 1 u) (suc l))))
unfolding changed_limits_action
changed_limits-shrink e u c l h = ground (arith, max_ℤ_pos 1 u, min_ℤ_pos (max 1 u) (suc l))

pub changed_limits-IsStep :
    (e u c l : ℕ)
    → IsStep e c
        (suc l)
        (after (changed_limits_action (pos e) (pos u) (pos c) (pos (suc l))) (pos c) (pos (suc l)))
changed_limits-IsStep e u c l = elim (dec_lt c (max (suc l) e)) [
  | yes h ↦
      rw (changed_limits-grow e u c l h) (grow-IsStep e c (suc l) _ (omega arith) (omega arith))
  | no h ↦
      rw (changed_limits-shrink e u c l (omega arith))
        (shrink-IsStep e c (suc l) _ (omega arith) (omega arith))
]

no_surge-grow :
    (e u c l : ℕ)
    → l + c < e
    → no_surge_action (pos e) (pos u) (pos c) (pos l) (pos c) (pos l)
      ≡ scale current_deploy (pos (e - (l + c)))
unfolding no_surge_action
no_surge-grow e u c l h = ground (arith, +ℤ_pos l c, -ℤ_pos e (l + c))

-- The pods that may go without falling below the desired number less the unavailable ones.
spare : ℕ → ℕ → ℕ → ℕ → ℕ
spare e u c l = min l (c + l - (e - u))

no_surge-shrink :
    (e u c l : ℕ)
    → e ≤ l + c
    → u ≤ e
    → 0 < spare e u c l
    → no_surge_action (pos e) (pos u) (pos c) (pos l) (pos c) (pos l)
      ≡ scale last_deploy (neg (pos (spare e u c l)))
unfolding no_surge_action spare
no_surge-shrink e u c l h k p = ground (
  arith,
  +ℤ_pos l c,
  +ℤ_pos c l,
  min_ℤ_pos c c,
  min_ℤ_pos l l,
  -ℤ_pos e u,
  max_ℤ_pos 0 (e - u),
  -ℤ_pos (c + l) (e - u),
  min_ℤ_pos l (c + l - (e - u)),
)

pub no_surge-IsStep :
    (e u c l : ℕ)
    → u ≤ e
    → 0 < u ⊎ (e ≡ 0)
    → IsStep e c (suc l) (
        after
          (no_surge_action (pos e) (pos u) (pos c) (pos (suc l)) (pos c) (pos (suc l)))
          (pos c)
          (pos (suc l)))
unfolding spare
no_surge-IsStep e u c l k p = elim (dec_lt (suc l + c) e) [
  | yes h ↦
      rw (no_surge-grow e u c (suc l) h) (grow-IsStep e c (suc l) _ (omega arith) (omega arith))
  | no h ↦
      rw (no_surge-shrink e u c (suc l) (omega arith) k (omega arith))
        (shrink-IsStep e c (suc l) _ (omega arith) (omega arith))
]

normal_action-shrink :
    (e c : ℕ) → e < c → normal_action (pos e) (pos c) ≡ scale current_deploy (negsuc 0)
unfolding normal_action
normal_action-shrink e c h = ground arith

normal_action-grow :
    (e c : ℕ) → c < e → normal_action (pos e) (pos c) ≡ scale current_deploy (pos (e - c))
unfolding normal_action
normal_action-grow e c h = ground (arith, -ℤ_pos e c)

normal_shrink-IsStep :
    (e c : ℕ) → e < c → IsStep e c 0 (after (scale current_deploy (negsuc 0)) (pos c) (pos 0))
unfolding after distance
normal_shrink-IsStep e c h = rw (+ℤ_negsuc c 0 (omega arith)) (ground arith)

pub normal-IsStep :
    (e c : ℕ) → c ≢ e → IsStep e c 0 (after (normal_action (pos e) (pos c)) (pos c) (pos 0))
normal-IsStep e c h = elim (dec_lt e c) [
  | yes p ↦ rw (normal_action-shrink e c p) (normal_shrink-IsStep e c p)
  | no p ↦
      rw (normal_action-grow e c (omega arith)) (grow-IsStep e c 0 _ (omega arith) (omega arith))
]
