-- ===== src/Scale/Convergence.antt =====
-- Convergence of a rollout: planNextScaleAction and doScaleAction of
-- pkg/controllers/deploy_ctrl_util.go, one round after another.
use milvus_operator.Base.{
  ℕ, zero, suc, ◌^◌, ◌≤◌, ◌<◌, max, Bool, false, some, [], ◌≡◌, ◌≢◌, ◌⊎◌, inl, inr, ap, ◌∙◌, arith,
  Bool-cases,
}
use milvus_operator.Base.Int.{pos, pos_part}
use milvus_operator.Api.Spec.{ComponentKind, Component, MilvusSpec, is_force}
use milvus_operator.Component.{MilvusComponent, is_hpa_enabled}
use milvus_operator.Strategy.{
  Scaling, ScalingLaws, validate_rolling_updates, rollout_steps, get_deployment_strategy,
}
use milvus_operator.Strategy.Progress.{HasStep}
use milvus_operator.Strategy.StepSizes.{rollout_steps_nat}
use milvus_operator.Strategy.Admission.{admitted-HasStep}
use milvus_operator.Deployment.{Deployment, get_deploy_replicas}
use milvus_operator.Scale.{
  ScaleKind, plan_next_scale_action, plan_scale_for_rollout, check_scale_kind, expected_replicas,
  with_strategy, apply_action, compare_deploy_resource_limit_equal,
}
use milvus_operator.Scale.Steps.{
  after, distance, IsStep, normal-IsStep, equal_limits-IsStep, changed_limits-IsStep,
  no_surge-IsStep,
}
use milvus_operator.Scale.Rounds.{
  settle, scale_round, scale_rounds, Counts, apply-Counts, normal_goal, distance_zero, goal_cases,
  positive_ne,
}

module _ (s : Scaling) (stand_by : ComponentKind → Bool) (is_rolling : Bool) (c : MilvusComponent)
    (spec : MilvusSpec) (e : ℕ) (unforced : is_force spec.components.image_update_mode ≡ false)
    (no_hpa : is_hpa_enabled c spec ≡ false) (desired : expected_replicas c spec ≡ pos (suc e))
    (steps : HasStep
      (rollout_steps s (get_deployment_strategy stand_by spec c) (pos (suc e)))) where
  kind_normal :
      (last : Deployment)
      → get_deploy_replicas last ≡ pos 0
      → check_scale_kind c spec last ≡ ScaleKind.normal
  unfolding check_scale_kind
  kind_normal last h = rw (unforced, no_hpa, desired, h) (ground arith)

  kind_rollout :
      (last : Deployment) (b : ℕ)
      → get_deploy_replicas last ≡ pos (suc b)
      → check_scale_kind c spec last ≡ ScaleKind.rollout
  unfolding check_scale_kind
  kind_rollout last b h = rw (unforced, no_hpa, desired, h) (ground arith)

  rollout_by_steps :
      (current last : Deployment) (a b k u : ℕ)
      → Counts (current, last) a (suc b)
      → (current.status.available_replicas ≡ pos a) × (last.status.available_replicas ≡ pos (suc b))
      → rollout_steps s current.strategy (pos (suc e)) ≡ (pos k, pos u)
      → u ≤ suc e
      → HasStep (pos k, pos u)
      → IsStep
          (suc e)
          a
          (suc b)
          (after (plan_scale_for_rollout s c spec current last) (pos a) (pos (suc b)))
  unfolding plan_scale_for_rollout
  rollout_by_steps current last a b zero u n v r h p =
      rw (desired, r, n.0, n.1, v.0, v.1) (no_surge-IsStep (suc e) u a b h (inl (ground arith)))
  rollout_by_steps current last a b (suc k) u n v r h p =
      elim (Bool-cases (compare_deploy_resource_limit_equal current last)) [
        | inl same ↦
            rw (desired, r, n.0, n.1, positive_ne k, same) (equal_limits-IsStep (suc e) u a b k)
        | inr differ ↦
            rw (desired, r, n.0, n.1, positive_ne k, differ) (changed_limits-IsStep (suc e) u a b)
      ]

  -- The plan for a settled cluster that is not at the goal is a step.
  plan-IsStep :
      (current last : Deployment) (a b : ℕ)
      → Counts (current, last) a b
      → (a ≢ suc e) ⊎ (0 < b)
      → IsStep (suc e) a b (
          after
            (plan_next_scale_action s stand_by is_rolling c spec (settle current) (settle last))
            (pos a)
            (pos b))
  unfolding plan_next_scale_action
  plan-IsStep current last a zero n (inr p) = elim p [ ]
  plan-IsStep current last a zero n (inl p) =
      rw (kind_normal (settle last) n.1, desired, n.0) (normal-IsStep (suc e) a p)
  plan-IsStep current last a (suc b) n p =
      let (k, u, r, h) = rollout_steps_nat s (get_deployment_strategy stand_by spec c) (suc e) in
      rw (kind_rollout (settle last) b n.1) (
        rollout_by_steps (with_strategy s stand_by c spec (settle current))
          (with_strategy s stand_by c spec (settle last)) a b k u n n r h (rw r at steps))

  round-IsStep :
      (ds : Deployment × Deployment) (a b : ℕ)
      → Counts ds a b
      → max a (max b (suc e)) < 2 ^ 31
      → (a ≢ suc e) ⊎ (0 < b)
      → (a' : ℕ) × (b' : ℕ) × Counts (scale_round s stand_by is_rolling c spec ds) a' b'
        × (max a' (max b' (suc e)) < 2 ^ 31)
        × (distance (suc e) a' b' < distance (suc e) a b)
  unfolding scale_round get_deploy_replicas
  round-IsStep ds a b n h p =
      let act = plan_next_scale_action s stand_by is_rolling c spec (settle ds.0) (settle ds.1) in
      let st : IsStep (suc e) a b (after act (pos a) (pos b)) = plan-IsStep ds.0 ds.1 a b n p in
      let r = after act (pos a) (pos b) in
      (
        pos_part r.0,
        pos_part r.1,
        apply-Counts act.deploy act.replica_change (with_strategy s stand_by c spec (settle ds.0))
            (with_strategy s stand_by c spec (settle ds.1)) (suc e) a b n st h,
        omega (arith, st.current_bound, st.last_bound),
        st.nearer,
      )

  -- At the goal a round changes nothing.
  at_goal :
      (ds : Deployment × Deployment)
      → Counts ds (suc e) 0
      → Counts (scale_round s stand_by is_rolling c spec ds) (suc e) 0
  unfolding scale_round plan_next_scale_action apply_action
  at_goal ds n = rw (kind_normal (settle ds.1) n.1, desired, n.0, normal_goal (suc e)) n

  converges :
      (n : ℕ) (ds : Deployment × Deployment) (a b : ℕ)
      → Counts ds a b
      → max a (max b (suc e)) < 2 ^ 31
      → distance (suc e) a b ≤ n
      → Counts (scale_rounds s stand_by is_rolling c spec n ds) (suc e) 0
  unfolding scale_rounds
  converges zero ds a b n h d =
      let (here, gone) = distance_zero (suc e) a b (omega (arith, d)) in
      (n.0 ∙ ap pos here, n.1 ∙ ap pos gone)
  converges (suc m) ds a b n h d = elim (goal_cases (suc e) a b) [
    | inl (here, gone) ↦
        converges m (scale_round s stand_by is_rolling c spec ds) (suc e) 0
          (at_goal ds (n.0 ∙ ap pos here, n.1 ∙ ap pos gone)) (omega arith)
          (unfold distance in omega arith)
    | inr p ↦
        let (a', b', n', h', d') = round-IsStep ds a b n h p in
        converges m (scale_round s stand_by is_rolling c spec ds) a' b' n' h' (omega (arith, d', d))
  ]

-- Take a spec that the webhook admits, and a configured component of it that desires n + 1
-- replicas, without forced updates and without an HPA. From any two deployments of the component,
-- with int32 replica counts, the scaling rounds end after at most `distance` of them, each begun
-- when the pods of the last are up, with n + 1 replicas in the current deployment and none in the
-- other, and stay there.
pub rollout_converges :
    (s : Scaling) (laws : ScalingLaws s) (stand_by : ComponentKind → Bool) (is_rolling : Bool)
    (c : MilvusComponent) (f : Component) (spec : MilvusSpec) (n a b rounds : ℕ)
    (ds : Deployment × Deployment)
    → validate_rolling_updates s spec ≡ []
    → spec.components.field c.kind ≡ some f
    → is_force spec.components.image_update_mode ≡ false
    → is_hpa_enabled c spec ≡ false
    → expected_replicas c spec ≡ pos (suc n)
    → Counts ds a b
    → max a (max b (suc n)) < 2 ^ 31
    → distance (suc n) a b ≤ rounds
    → Counts (scale_rounds s stand_by is_rolling c spec rounds ds) (suc n) 0
rollout_converges s laws stand_by is_rolling c f spec n a b rounds ds valid configured unforced
      no_hpa desired =
    converges s stand_by is_rolling c spec n unforced no_hpa desired
      (admitted-HasStep s laws stand_by spec c f n valid configured) rounds ds a b
