-- ===== src/Scale/Rounds.antt =====
-- One scaling round: what is stored after an action, and the rounds one after another.
use milvus_operator.Base.{
  ℕ, zero, suc, ◌^◌, ◌%◌, ◌≤◌, ◌<◌, max, Bool, true, false, Option, none, some, ◌≡◌, ◌≢◌, ◌⊎◌, inl,
  inr, refl, arith, Bool-cases, ℕ_discrete,
}
use milvus_operator.Base.Int.{ℤ, pos, negsuc, pos_part, neg_part, ◌==ℤ◌, ◌+ℤ◌, +ℤ_pos}
use milvus_operator.Api.Spec.{ComponentKind, MilvusSpec}
use milvus_operator.Component.{MilvusComponent}
use milvus_operator.Strategy.{Scaling}
use milvus_operator.Deployment.{Deployment, get_deploy_replicas, to_int32}
use milvus_operator.Scale.{
  Target, current_deploy, last_deploy, ScaleAction, scale, normal_action, plan_next_scale_action,
  with_strategy, no_scale_action, apply_action, add_replicas,
}
use milvus_operator.Scale.Steps.{after, distance, IsStep}

below : (n : ℕ) → n < 2 ^ 31 → n % 2 ^ 32 ≡ n
below n h = omega arith

-- Numbers below 2^31 survive the conversion to int32.
pub to_int32_pos : (n : ℕ) → n < 2 ^ 31 → to_int32 (pos n) ≡ pos n
unfolding to_int32
to_int32_pos n h = rw (below n h) (ground arith)

-- What Kubernetes reports once the pods of a deployment are up.
abbrev pub settle : Deployment → Deployment
settle d = record d { status = record (d.status) { available_replicas = get_deploy_replicas d } }

module _ (s : Scaling) (stand_by : ComponentKind → Bool) (rolling : Bool) (c : MilvusComponent)
    (spec : MilvusSpec) where
  -- One scaling round of a cluster whose pods are up.
  unfoldable pub scale_round : Deployment × Deployment → Deployment × Deployment
  scale_round (current, last) =
      apply_action (plan_next_scale_action s stand_by rolling c spec (settle current) (settle last))
        (with_strategy s stand_by c spec (settle current))
        (with_strategy s stand_by c spec (settle last))

  unfoldable pub scale_rounds : ℕ → Deployment × Deployment → Deployment × Deployment
  unfolding scale_round
  scale_rounds zero ds = ds
  scale_rounds (suc n) ds = scale_rounds n (scale_round ds)

-- The replicas of a pair of deployments are the two numbers.
abbrev pub Counts : Deployment × Deployment → ℕ → ℕ → Type 0
Counts ds a b = (get_deploy_replicas ds.0 ≡ pos a) × (get_deploy_replicas ds.1 ≡ pos b)

nat_part : (x : ℤ) → neg_part x ≡ 0 → x ≡ pos (pos_part x)
nat_part (pos n) h = refl
nat_part (negsuc n) h = absurd (omega arith)

stored :
    (d : Deployment) (a : ℕ) (change : ℤ)
    → get_deploy_replicas d ≡ pos a
    → neg_part (pos a +ℤ change) ≡ 0
    → pos_part (pos a +ℤ change) < 2 ^ 31
    → get_deploy_replicas (add_replicas d change) ≡ pos (pos_part (pos a +ℤ change))
stored d a change h n b =
    rw (h, nat_part _ n, to_int32_pos _ b) (unfold get_deploy_replicas in refl)

-- The case of an action whose change is not zero.
change-Counts :
    (t : Target) (change : ℤ) (current last : Deployment) (e a b : ℕ)
    → Counts (current, last) a b
    → IsStep e a b (after (scale t change) (pos a) (pos b))
    → max a (max b e) < 2 ^ 31
    → (change ==ℤ pos 0) ≡ false
    → let r = after (scale t change) (pos a) (pos b) in
      Counts (apply_action (scale t change) current last) (pos_part r.0) (pos_part r.1)
unfolding apply_action after
change-Counts current_deploy change current last e a b n st h z =
    rw z (stored current a change n.0 st.current_nat (omega (arith, st.current_bound)), n.1)
change-Counts last_deploy change current last e a b n st h z =
    rw z (n.0, stored last b change n.1 st.last_nat (omega (arith, st.last_bound)))

after_zero :
    (t : Option Target) (a b : ℕ)
    → after (record { deploy = t; replica_change = pos 0 }) (pos a) (pos b) ≡ (pos a, pos b)
unfolding after
after_zero none a b = refl
after_zero (some current_deploy) a b = rw (+ℤ_pos a 0) (ground arith)
after_zero (some last_deploy) a b = rw (+ℤ_pos b 0) (ground arith)

-- An action that changes nothing is no step.
zero_change :
    (t : Option Target) (change : ℤ) (e a b : ℕ)
    → change ≡ pos 0
    → IsStep e a b (after (record { deploy = t; replica_change = change }) (pos a) (pos b))
    → ⊥
zero_change t change e a b z st =
    let stay : IsStep e a b (pos a, pos b) = rw after_zero at (rw z at st) in
    omega (arith, stay.nearer)

abbrev action : Option Target → ℤ → ScaleAction
action t change = record { deploy = t; replica_change = change }

is_zero_change : (change : ℤ) → (change ==ℤ pos 0) ≡ true → change ≡ pos 0
is_zero_change change h = ground arith

pub normal_goal : (n : ℕ) → normal_action (pos n) (pos n) ≡ no_scale_action
unfolding normal_action
normal_goal n = ground arith

pub distance_zero : (e a b : ℕ) → distance e a b ≤ 0 → (a ≡ e) × (b ≡ 0)
unfolding distance
distance_zero e a b h = omega arith

pub goal_cases : (e a b : ℕ) → ((a ≡ e) × (b ≡ 0)) ⊎ ((a ≢ e) ⊎ (0 < b))
goal_cases e a zero = elim (ℕ_discrete a e) [ yes p ↦ inl (p, refl) | no p ↦ inr (inl p) ]
goal_cases e a (suc b) = inr (inr (omega arith))

pub positive_ne : (k : ℕ) → (pos (suc k) ==ℤ pos 0) ≡ false
positive_ne k = ground arith

-- What is stored after an action that is a step.
pub apply-Counts :
    (t : Option Target) (change : ℤ) (current last : Deployment) (e a b : ℕ)
    → Counts (current, last) a b
    → IsStep e a b (after (action t change) (pos a) (pos b))
    → max a (max b e) < 2 ^ 31
    → let r = after (action t change) (pos a) (pos b) in
      Counts (apply_action (action t change) current last) (pos_part r.0) (pos_part r.1)
apply-Counts none change current last e a b n st h =
    let stay : IsStep e a b (pos a, pos b) = unfold after in st in
    absurd (omega (arith, stay.nearer))
apply-Counts (some t) change current last e a b n st h = elim (Bool-cases (change ==ℤ pos 0)) [
  | inl z ↦ absurd (zero_change (some t) change e a b (is_zero_change change z) st)
  | inr z ↦ change-Counts t change current last e a b n st h z
]
