-- ===== src/Scale/Force.antt =====
-- Forced updates: planScaleForForceUpgrade in pkg/controllers/deploy_ctrl_util.go.
use milvus_operator.Base.{
  ℕ, zero, suc, ◌<◌, ◌^◌, Bool, true, false, ◌≡◌, ◌≢◌, refl, ap, ◌∙◌, arith, ℕ_discrete,
}
use milvus_operator.Base.Int.{ℤ, pos, negsuc, ◌+ℤ◌, ◌-ℤ◌, ◌==ℤ◌, neg}
use milvus_operator.Api.Spec.{ComponentKind, MilvusSpec, is_force}
use milvus_operator.Component.{MilvusComponent}
use milvus_operator.Strategy.{Scaling}
use milvus_operator.Deployment.{Deployment, get_deploy_replicas, to_int32}
use milvus_operator.Scale.{
  ScaleKind, scale, current_deploy, last_deploy, no_scale_action, force_action, check_scale_kind,
  expected_replicas, plan_next_scale_action, with_strategy, apply_action, add_replicas,
}
use milvus_operator.Scale.Rounds.{settle, scale_round, scale_rounds, Counts, to_int32_pos}

pub swap_in : (a e : ℕ) → pos a +ℤ (pos e -ℤ pos a) ≡ pos e
unfolding ◌+ℤ◌ ◌-ℤ◌
swap_in a e = ground arith

pub change_ne : (a e : ℕ) → a ≢ e → ((pos e -ℤ pos a) ==ℤ pos 0) ≡ false
unfolding ◌-ℤ◌
change_ne a e h = ground arith

neg_ne : (b : ℕ) → (neg (pos (suc b)) ==ℤ pos 0) ≡ false
unfolding neg
neg_ne b = ground arith

force_action-current :
    (e a b : ℕ)
    → a ≢ e
    → force_action (pos e) (pos a) (pos b) ≡ scale current_deploy (pos e -ℤ pos a)
unfolding force_action
force_action-current e a b h = ground arith

force_action-last :
    (e b : ℕ) → force_action (pos e) (pos e) (pos (suc b)) ≡ scale last_deploy (neg (pos (suc b)))
unfolding force_action
force_action-last e b = ground arith

force_action-done : (e : ℕ) → force_action (pos e) (pos e) (pos 0) ≡ no_scale_action
unfolding force_action
force_action-done e = ground arith

stored :
    (d : Deployment) (a r : ℕ) (change : ℤ)
    → get_deploy_replicas d ≡ pos a
    → pos a +ℤ change ≡ pos r
    → r < 2 ^ 31
    → get_deploy_replicas (add_replicas d change) ≡ pos r
stored d a r change n p h = rw (n, p, to_int32_pos r h) (unfold get_deploy_replicas in refl)

pub apply-current :
    (current last : Deployment) (a b r : ℕ) (change : ℤ)
    → Counts (current, last) a b
    → (change ==ℤ pos 0) ≡ false
    → pos a +ℤ change ≡ pos r
    → r < 2 ^ 31
    → Counts (apply_action (scale current_deploy change) current last) r b
unfolding apply_action
apply-current current last a b r change n z p h = rw z (stored current a r change n.0 p h, n.1)

pub apply-last :
    (current last : Deployment) (a b r : ℕ) (change : ℤ)
    → Counts (current, last) a b
    → (change ==ℤ pos 0) ≡ false
    → pos b +ℤ change ≡ pos r
    → r < 2 ^ 31
    → Counts (apply_action (scale last_deploy change) current last) a r
unfolding apply_action
apply-last current last a b r change n z p h = rw z (n.0, stored last b r change n.1 p h)

swap_out : (b : ℕ) → pos b +ℤ neg (pos b) ≡ pos 0
unfolding ◌+ℤ◌ neg
swap_out zero = ground arith
swap_out (suc b) = ground arith

module _ (s : Scaling) (stand_by : ComponentKind → Bool) (is_rolling : Bool) (c : MilvusComponent)
    (spec : MilvusSpec) (forced : is_force spec.components.image_update_mode ≡ true) where
  kind_force : (last : Deployment) → check_scale_kind c spec last ≡ ScaleKind.force_upgrade
  unfolding check_scale_kind
  kind_force last = rw forced refl

  -- The plan of a forced update is forced whatever the deployments report.
  plan_force :
      (ds : Deployment × Deployment) (x : ℤ) (a b : ℕ)
      → expected_replicas c spec ≡ x
      → Counts ds a b
      → plan_next_scale_action s stand_by is_rolling c spec (settle ds.0) (settle ds.1)
        ≡ force_action x (pos a) (pos b)
  unfolding plan_next_scale_action get_deploy_replicas
  plan_force ds x a b desired n = rw (kind_force (settle ds.1), desired, n.0, n.1) refl

  round_current :
      (ds : Deployment × Deployment) (e a b : ℕ)
      → expected_replicas c spec ≡ pos e
      → Counts ds a b
      → e < 2 ^ 31
      → a ≢ e
      → Counts (scale_round s stand_by is_rolling c spec ds) e b
  unfolding scale_round get_deploy_replicas
  round_current ds e a b desired n h p =
      rw (plan_force ds (pos e) a b desired n ∙ force_action-current e a b p) (
        apply-current (with_strategy s stand_by c spec (settle ds.0))
          (with_strategy s stand_by c spec (settle ds.1)) a b e (pos e -ℤ pos a) n (change_ne a e p)
          (swap_in a e) h)

  round_last :
      (ds : Deployment × Deployment) (e b : ℕ)
      → expected_replicas c spec ≡ pos e
      → Counts ds e (suc b)
      → Counts (scale_round s stand_by is_rolling c spec ds) e 0
  unfolding scale_round get_deploy_replicas
  round_last ds e b desired n =
      rw (plan_force ds (pos e) e (suc b) desired n ∙ force_action-last e b) (
        apply-last (with_strategy s stand_by c spec (settle ds.0))
          (with_strategy s stand_by c spec (settle ds.1)) e (suc b) 0 (neg (pos (suc b))) n
          (neg_ne b) (swap_out (suc b)) (omega arith))

  round_done :
      (ds : Deployment × Deployment) (e : ℕ)
      → expected_replicas c spec ≡ pos e
      → Counts ds e 0
      → Counts (scale_round s stand_by is_rolling c spec ds) e 0
  unfolding scale_round plan_next_scale_action apply_action
  round_done ds e desired n =
      rw (kind_force (settle ds.1), desired, n.0, n.1, force_action-done e) n

  round_swapped :
      (ds : Deployment × Deployment) (e b : ℕ)
      → expected_replicas c spec ≡ pos e
      → Counts ds e b
      → Counts (scale_round s stand_by is_rolling c spec ds) e 0
  round_swapped ds e zero desired n = round_done ds e desired n
  round_swapped ds e (suc b) desired n = round_last ds e b desired n

  rounds_done :
      (n : ℕ) (ds : Deployment × Deployment) (e : ℕ)
      → expected_replicas c spec ≡ pos e
      → Counts ds e 0
      → Counts (scale_rounds s stand_by is_rolling c spec n ds) e 0
  unfolding scale_rounds
  rounds_done zero ds e desired n = n
  rounds_done (suc k) ds e desired n =
      rounds_done k (scale_round s stand_by is_rolling c spec ds) e desired
        (round_done ds e desired n)

-- Forced updates do not roll: with a desired count e of at least 0, two scaling rounds or more
-- end, from any int32 replica counts, with e replicas in the current deployment and none in the
-- last one.
pub force_converges :
    (s : Scaling) (stand_by : ComponentKind → Bool) (is_rolling : Bool) (c : MilvusComponent)
    (spec : MilvusSpec) (e a b rounds : ℕ) (ds : Deployment × Deployment)
    → is_force spec.components.image_update_mode ≡ true
    → expected_replicas c spec ≡ pos e
    → Counts ds a b
    → e < 2 ^ 31
    → Counts (scale_rounds s stand_by is_rolling c spec (suc (suc rounds)) ds) e 0
unfolding scale_rounds
force_converges s stand_by is_rolling c spec e a b rounds ds forced desired n h =
    let round = scale_round s stand_by is_rolling c spec in
    elim (ℕ_discrete a e) [
      | yes p ↦
          rounds_done s stand_by is_rolling c spec forced rounds (round (round ds)) e desired (
            round_swapped s stand_by is_rolling c spec forced (round ds) e 0 desired (
              round_swapped s stand_by is_rolling c spec forced ds e b desired
                (n.0 ∙ ap pos p, n.1)))
      | no p ↦ rounds_done s stand_by is_rolling c spec forced rounds (round (round ds)) e desired (
          round_swapped s stand_by is_rolling c spec forced (round ds) e b desired
            (round_current s stand_by is_rolling c spec forced ds e a b desired n h p))
    ]

force_action-negative :
    (a b : ℕ) → force_action (negsuc 0) (pos a) (pos b) ≡ scale current_deploy (negsuc 0 -ℤ pos a)
unfolding force_action
force_action-negative a b = ground arith

negative_change : (a : ℕ) → ((negsuc 0 -ℤ pos a) ==ℤ pos 0) ≡ false
unfolding ◌-ℤ◌
negative_change a = ground arith

negative_sum : (a : ℕ) → pos a +ℤ (negsuc 0 -ℤ pos a) ≡ negsuc 0
unfolding ◌+ℤ◌ ◌-ℤ◌
negative_sum a = ground arith

negative_stored :
    (d : Deployment) (a : ℕ)
    → get_deploy_replicas d ≡ pos a
    → get_deploy_replicas (add_replicas d (negsuc 0 -ℤ pos a)) ≡ negsuc 0
unfolding get_deploy_replicas
negative_stored d a n = rw (n, negative_sum a) (unfold to_int32 in refl)

apply_negative :
    (current last : Deployment) (a : ℕ)
    → get_deploy_replicas current ≡ pos a
    → get_deploy_replicas (apply_action (scale current_deploy (negsuc 0 -ℤ pos a)) current last).0
      ≡ negsuc 0
unfolding apply_action
apply_negative current last a n = rw (negative_change a) (negative_stored current a n)

-- Forced updates take the replica count -1 of an externally scaled component as a number of pods:
-- the next round stores -1 as the replicas of the current deployment, whatever it had.
pub force_stores_negative :
    (s : Scaling) (stand_by : ComponentKind → Bool) (is_rolling : Bool) (c : MilvusComponent)
    (spec : MilvusSpec) (a b : ℕ) (ds : Deployment × Deployment)
    → is_force spec.components.image_update_mode ≡ true
    → expected_replicas c spec ≡ negsuc 0
    → Counts ds a b
    → get_deploy_replicas (scale_round s stand_by is_rolling c spec ds).0 ≡ negsuc 0
unfolding scale_round get_deploy_replicas
force_stores_negative s stand_by is_rolling c spec a b ds forced desired n =
    rw
      (plan_force s stand_by is_rolling c spec forced ds (negsuc 0) a b desired n
        ∙ force_action-negative a b)
      (apply_negative (with_strategy s stand_by c spec (settle ds.0))
        (with_strategy s stand_by c spec (settle ds.1)) a n.0)
