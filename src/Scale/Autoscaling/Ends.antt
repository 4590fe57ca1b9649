-- ===== src/Scale/Autoscaling/Ends.antt =====
-- The rounds in which the rollout of an autoscaled component ends: planScaleForHPA in
-- pkg/controllers/deploy_ctrl_util.go, planned and stored again and again.
use milvus_operator.Base.{
  ℕ, zero, suc, ◌≤◌, ◌<◌, ◌-◌, ◌^◌, max, false, Bool, some, ◌≡◌, sym, ap, ◌∙◌, arith, dec_lt,
}
use milvus_operator.Base.Int.{pos, ltb_ℤ}
use milvus_operator.Api.Spec.{ComponentKind, HpaSpec, MilvusSpec, is_force}
use milvus_operator.Component.{MilvusComponent, get_hpa_spec}
use milvus_operator.Strategy.{Scaling}
use milvus_operator.Deployment.{Deployment, get_deploy_replicas}
use milvus_operator.Scale.{with_strategy}
use milvus_operator.Scale.Rounds.{Counts}
use milvus_operator.Scale.Autoscaling.{
  minimum, planned, plan_hpa, up-Counts, down-Counts, done-Counts,
}

module _ (s : Scaling) (stand_by : ComponentKind → Bool) (rolling : Bool) (c : MilvusComponent)
    (spec : MilvusSpec) where
  -- Every pod of the deployment is ready.
  abbrev pub ready_up : Deployment → Deployment
  ready_up d = record d { status = record (d.status) { ready_replicas = get_deploy_replicas d } }

  -- Rounds, each of which starts when all pods are ready.
  unfoldable pub hpa_rounds : ℕ → Deployment × Deployment → Deployment × Deployment
  hpa_rounds zero ds = ds
  hpa_rounds (suc n) ds =
      hpa_rounds n (planned s stand_by rolling c spec (ready_up ds.0) (ready_up ds.1))

  module _ (h : HpaSpec) (m : ℕ) (calm : is_force spec.components.image_update_mode ≡ false)
      (scaled : get_hpa_spec c spec ≡ some h) (least : minimum h ≡ pos m) where
    abbrev round : Deployment × Deployment → Deployment × Deployment
    round ds = planned s stand_by rolling c spec (ready_up ds.0) (ready_up ds.1)

    ready_below : (a q : ℕ) → max m (suc q) ≤ a → ltb_ℤ (pos a) (pos (max m (suc q))) ≡ false
    ready_below a q p = ground arith

    round-covered :
        (ds : Deployment × Deployment) (a q : ℕ)
        → Counts ds a (suc q)
        → max m (suc q) ≤ a
        → q < 2 ^ 31
        → Counts (round ds) a q
    unfolding get_deploy_replicas
    round-covered ds a q n covers small =
        rw
          (plan_hpa s stand_by rolling c spec h m a (suc q) (ready_up ds.0) (ready_up ds.1) calm
            scaled least n)
          (down-Counts (with_strategy s stand_by c spec (ready_up ds.0))
            (with_strategy s stand_by c spec (ready_up ds.1)) m (get_deploy_replicas ds.0) a q n
            covers (rw n.0 (ready_below a q covers)) small)

    round-done :
        (ds : Deployment × Deployment) (a : ℕ) → Counts ds (suc a) 0 → Counts (round ds) (suc a) 0
    unfolding get_deploy_replicas
    round-done ds a n =
        rw
          (plan_hpa s stand_by rolling c spec h m (suc a) 0 (ready_up ds.0) (ready_up ds.1) calm
            scaled least n)
          (done-Counts (with_strategy s stand_by c spec (ready_up ds.0))
            (with_strategy s stand_by c spec (ready_up ds.1)) m (get_deploy_replicas ds.0) a n)

    round-up :
        (ds : Deployment × Deployment) (a q : ℕ)
        → Counts ds a (suc q)
        → a < max m (suc q)
        → max m (suc q) < 2 ^ 31
        → Counts (round ds) (max m (suc q)) (suc q)
    unfolding get_deploy_replicas
    round-up ds a q n low small =
        rw
          (plan_hpa s stand_by rolling c spec h m a (suc q) (ready_up ds.0) (ready_up ds.1) calm
            scaled least n)
          (up-Counts (with_strategy s stand_by c spec (ready_up ds.0))
            (with_strategy s stand_by c spec (ready_up ds.1)) m (get_deploy_replicas ds.0) a q n low
            small)

    rounds-covered :
        (n : ℕ) (ds : Deployment × Deployment) (a b : ℕ)
        → Counts ds (suc a) b
        → max m b ≤ suc a
        → b < 2 ^ 31
        → b ≤ n
        → Counts (hpa_rounds n ds) (suc a) 0
    unfolding hpa_rounds
    rounds-covered zero ds a b n covers small enough =
        let none_left : b ≡ 0 = omega (arith, enough) in (n.0, n.1 ∙ ap pos none_left)
    rounds-covered (suc k) ds a zero n covers small enough =
        rounds-covered k (round ds) a 0 (round-done ds a n) covers small (omega arith)
    rounds-covered (suc k) ds a (suc q) n covers small enough =
        rounds-covered k (round ds) a q (round-covered ds (suc a) q n covers (omega (arith, small)))
          (omega (arith, covers)) (omega (arith, small)) (omega (arith, enough))

    -- From counts that the current deployment covers, it keeps them.
    rounds-goal :
        (k e b : ℕ) (ds : Deployment × Deployment)
        → Counts ds e b
        → 0 < e
        → max m b ≤ e
        → b < 2 ^ 31
        → b ≤ k
        → Counts (hpa_rounds k ds) e 0
    rounds-goal k e b ds n some_pods covers small enough =
        let p : e ≡ suc (e - 1) = omega (arith, some_pods) in
        let r =
          rounds-covered k ds (e - 1) b (n.0 ∙ ap pos p, n.1) (omega (arith, covers, some_pods))
            small enough in
        (r.0 ∙ ap pos (sym p), r.1)

  -- A rollout of a component with an HPA, outside a forced update, ends: with b > 0 replicas in the
  -- last deployment and all pods ready before each round, more than b rounds leave none there, and
  -- in the current deployment the most of its own replicas, of b and of the HPA's minimum. The
  -- counts and the minimum are int32 and at least 0.
  pub hpa_rounds-Counts :
      (h : HpaSpec) (m a q rounds : ℕ) (ds : Deployment × Deployment)
      → is_force spec.components.image_update_mode ≡ false
      → get_hpa_spec c spec ≡ some h
      → minimum h ≡ pos m
      → Counts ds a (suc q)
      → max a (max m (suc q)) < 2 ^ 31
      → suc q ≤ rounds
      → Counts (hpa_rounds (suc rounds) ds) (max a (max m (suc q))) 0
  unfolding hpa_rounds
  hpa_rounds-Counts h m a q rounds ds calm scaled least n small enough =
      let goal = max a (max m (suc q)) in
      elim (dec_lt a (max m (suc q))) [
        | yes low ↦
            let top : max m (suc q) ≡ goal = omega (arith, low) in
            let up = round-up h m calm scaled least ds a q n low (omega (arith, small)) in
            rounds-goal h m calm scaled least rounds goal (suc q) (round h m calm scaled least ds)
              (up.0 ∙ ap pos top, up.1) (omega arith) (omega arith) (omega (arith, small)) enough
        | no high ↦
            let top : a ≡ goal = omega (arith, high) in
            let down =
              round-covered h m calm scaled least ds a q n (omega (arith, high))
                (omega (arith, small)) in
            rounds-goal h m calm scaled least rounds goal q (round h m calm scaled least ds)
              (down.0 ∙ ap pos top, down.1) (omega arith) (omega arith) (omega (arith, small))
              (omega (arith, enough))
      ]
