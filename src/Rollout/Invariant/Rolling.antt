-- ===== src/Rollout/Invariant/Rolling.antt =====
-- HandleRolling of pkg/controllers/deploy_ctrl.go keeps the invariant.
use milvus_operator.Base.{
  ℕ, suc, String, true≢false, Bool, true, false, Option, none, some, List, [], ◌∷◌, ◌≡◌, ◌⊎◌, inl,
  inr, refl, sym, ◌∙◌, arith, Error, str_eq, insert, ap, if◌then◌else◌, if-all, All, Bool-cases,
  Option-cases, with_value,
}
use milvus_operator.Base.Int.{ℤ, pos, ltb_ℤ, ◌==ℤ◌}
use milvus_operator.Api.Labels.{StringMap, get, get-insert_same}
use milvus_operator.Deployment.{PodTemplate, Deployment, Pod, get_deploy_replicas, logic_and}
use milvus_operator.Component.{MilvusComponent}
use milvus_operator.Rollout.{
  Milvus, is_component_rolling, set_component_rolling, get_current_group_id,
}
use milvus_operator.Rollout.Server.{Server, Library, Job}
use milvus_operator.Rollout.View.{View, ServerLaws, WritesDigits}
use milvus_operator.Rollout.Store.{state_key, component_deploy_is_current_group, list_deploy_pods}
use milvus_operator.Rollout.Updates.{
  update_pod_template, renew_deploy_annotation, prepare_new_rollout, finish_conditions,
  deployments_show_finished, finish_without_pods, last_rollout_finished, should_rollback,
  clear_rolling, is_pod_template_changed,
}
use milvus_operator.Rollout.Controller.{roll_if_changed, roll, handle_rolling, after_last_rollout}
use milvus_operator.Rollout.Slots.{IsCurrent}
use milvus_operator.Rollout.Ends.{Ends, then_do-Ends, wrapped-Ends, requeued-Ends, with_value-Ends}
use milvus_operator.Rollout.Invariant.Writes.{
  IsSafe, IsWell-labels, Holding-IsWell, Holding-IsIdle, swap_Held, IsIdle, IsIdle-same,
  rolling-IsSafe, NotRolling, Held, Safe, Synced, Holding, update_deployment-Safe,
  update_milvus-Safe,
}
use milvus_operator.Rollout.Invariant.Reads.{list_deploy_pods-job, get_deploys-Safe}

get_started :
    (key v : String) (l : List (String × String))
    → str_eq v "" ≡ false
    → str_eq (get key (if str_eq (get key l) "" then insert key v l else l)) "" ≡ false
get_started key v l h =
    if-all (λ (m : StringMap). str_eq (get key m) "" ≡ false) (str_eq (get key l) "")
      (insert key v l) l (λ p. ap (λ t. str_eq t "") (get-insert_same key v l) ∙ h) (λ p. p)

-- After the start of a rollout the component is rolling.
rolling_started :
    (itoa : ℤ → String) (m : Milvus) (key : String)
    → ((n : ℤ) → str_eq (itoa n) "" ≡ false)
    → is_component_rolling (set_component_rolling itoa m key true) key ≡ true
unfolding is_component_rolling set_component_rolling
rolling_started itoa m key h = rw (get_started _ _ m.labels (h (pos m.generation))) refl

logic_and-All : (bs : List Bool) (i : ℕ) → logic_and bs i ≡ none → All (λ b. b ≡ true) bs
unfolding logic_and
logic_and-All [] i h = tt
logic_and-All (true ∷ bs) i h = (refl, logic_and-All bs (suc i) h)
logic_and-All (false ∷ bs) i h = absurd cc

pub zero_replicas : (z : ℤ) → (z ==ℤ pos 0) ≡ true → z ≡ pos 0
zero_replicas z h = ground arith

module _ (lib : Library) (c : MilvusComponent) where
  finished-last :
      (m : Milvus) (current last : Deployment)
      → deployments_show_finished lib c m current last ≡ none
      → get_deploy_replicas last ≡ pos 0
  unfolding deployments_show_finished finish_conditions
  finished-last m current last h =
      zero_replicas (get_deploy_replicas last)
        (logic_and-All (finish_conditions lib c m current last) 0 h).1.1.1.1.1.1.0

  abbrev renewed : (m : Milvus) (d : Deployment) (t : PodTemplate) → Deployment
  renewed m d t = (renew_deploy_annotation lib c m (update_pod_template lib c d t)).0

  -- A new template leaves the name, the labels and the replicas.
  pub renewed-same :
      (m : Milvus) (d : Deployment) (t : PodTemplate)
      → ((renewed m d t).name ≡ d.name)
        × (((renewed m d t).labels ≡ d.labels)
            × (get_deploy_replicas (renewed m d t) ≡ get_deploy_replicas d))
  unfolding renew_deploy_annotation update_pod_template get_deploy_replicas
  renewed-same m d t =
      if-all
        (λ (p : Deployment × Bool).
          (p.0.name ≡ d.name)
          × ((p.0.labels ≡ d.labels) × (get_deploy_replicas p.0 ≡ get_deploy_replicas d)))
        _ _ _ (λ _. (refl, (refl, refl))) (λ _. (refl, (refl, refl)))

  module _ {W : Type 0} (srv : Server W) (view : W → View) (laws : ServerLaws srv view)
      (digits : WritesDigits lib) where
    abbrev Safely : (Job W → Type 0) → Option Error × Job W → Type 0
    Safely = Ends (Safe lib c srv view laws)

    pub prepare_new_rollout-Safe :
        (L : Job W → Type 0) (x y : Deployment) (t : PodTemplate) (j : Job W)
        → Safe lib c srv view laws j.world
        → Holding lib c srv view laws x y j
        → Safely L (prepare_new_rollout lib c srv x t j)
    unfolding prepare_new_rollout
    prepare_new_rollout-Safe L x y t j s h =
        let (name, (labels, count)) = renewed-same j.milvus x t in
        let d = renewed j.milvus x t in
        let stored =
          update_deployment-Safe lib c srv view laws x y d j s h name
            (IsWell-labels lib c d x labels (Holding-IsWell lib c srv view laws x y j s h).0)
            (λ r.
              IsIdle-same lib c j.milvus d x labels count
                (Holding-IsIdle lib c srv view laws x y j s h r).0) in
        then_do-Ends (Safe lib c srv view laws) (Holding lib c srv view laws d y) L _ _
          (wrapped-Ends (Safe lib c srv view laws) (Holding lib c srv view laws d y) _ _ stored)
          (λ k sk hk. requeued-Ends (Safe lib c srv view laws) (Synced lib c srv view laws) L _ (
            update_milvus-Safe lib c srv view laws _ sk
              (rolling-IsSafe lib c (view k.world) _ sk (rolling_started lib.itoa _ _ digits))))

    pub cleared-IsIdle :
        (x y : Deployment) (v : View) (m : Milvus)
        → Held lib c v x y
        → IsIdle lib c m x × IsIdle lib c m y
        → IsIdle lib c m v.first × IsIdle lib c m v.second
    cleared-IsIdle x y v m (inl (p, q)) i = rw (sym p, sym q) i
    cleared-IsIdle x y v m (inr (p, q)) i = rw (sym p, sym q) (i.1, i.0)

    cleared-Safe :
        (x y : Deployment) (j : Job W)
        → Safe lib c srv view laws j.world
        → Holding lib c srv view laws x y j
        → IsCurrent lib c j.milvus x true
        → get_deploy_replicas y ≡ pos 0
        → IsSafe lib c (record (view j.world) { milvus = (clear_rolling lib c srv j).milvus })
    unfolding set_component_rolling component_deploy_is_current_group get_current_group_id
    cleared-Safe x y j s h cur none_left = record {
      well = s.well;
      apart = s.apart;
      idle = λ r.
          cleared-IsIdle x y (view j.world) (clear_rolling lib c srv j).milvus h.1
            (λ old. absurd (true≢false (sym cur ∙ old)), λ old. none_left);
    }

    finish-Safe :
        (x y : Deployment) (pods : List Pod) (j : Job W)
        → Safe lib c srv view laws j.world
        → Holding lib c srv view laws x y j
        → IsCurrent lib c j.milvus x true
        → get_deploy_replicas y ≡ pos 0
        → Safely (Synced lib c srv view laws) (finish_without_pods lib c srv pods j)
    finish-Safe x y [] j s h cur none_left =
        requeued-Ends (Safe lib c srv view laws) (Synced lib c srv view laws)
          (Synced lib c srv view laws) _
          (update_milvus-Safe lib c srv view laws (clear_rolling lib c srv j) s
            (cleared-Safe x y j s h cur none_left))
    finish-Safe x y (p ∷ ps) j s h cur none_left = (s, λ _. h.0)

    after_wait :
        (L : Job W → Type 0) (x y : Deployment) (t : PodTemplate) (r : Option Error × Job W)
        → Safely L r
        → Safely L (after_last_rollout lib c srv x y t ((false, r.0), r.1))
    after_wait L x y t (none, j) h = h
    after_wait L x y t (some e, j) h = (h.0, λ q. cc)

    roll_if_changed-Safe :
        (x y : Deployment) (t : PodTemplate) (j : Job W)
        → Safe lib c srv view laws j.world
        → Holding lib c srv view laws x y j
        → Safely (Synced lib c srv view laws) (roll_if_changed lib c srv x y t j)
    unfolding roll_if_changed
    roll_if_changed-Safe x y t j s h =
        if-all (Safely (Synced lib c srv view laws)) (is_pod_template_changed lib c x t)
          (prepare_new_rollout lib c srv (if ltb_ℤ (pos 0) (get_deploy_replicas x) then y else x) t
            j)
          (none, j)
          (λ _.
            if-all (λ d. Safely (Synced lib c srv view laws) (prepare_new_rollout lib c srv d t j))
              (ltb_ℤ (pos 0) (get_deploy_replicas x)) y x
              (λ _.
                prepare_new_rollout-Safe (Synced lib c srv view laws) y x t j s
                  (h.0, swap_Held lib c srv view laws (view j.world) x y h.1))
              (λ _. prepare_new_rollout-Safe (Synced lib c srv view laws) x y t j s h))
          (λ _. (s, λ _. h.0))

    wait-Safe :
        (x y : Deployment) (t : PodTemplate) (j : Job W)
        → Safe lib c srv view laws j.world
        → Holding lib c srv view laws x y j
        → IsCurrent lib c j.milvus x true
        → get_deploy_replicas y ≡ pos 0
        → Safely
            (Synced lib c srv view laws)
            (with_value (list_deploy_pods lib c srv y j) (finish_without_pods lib c srv))
    wait-Safe x y t j s h cur none_left =
        let (m, v) = list_deploy_pods-job lib c srv view laws y j in
        with_value-Ends (Safe lib c srv view laws) (Synced lib c srv view laws)
          (list_deploy_pods lib c srv y j) (finish_without_pods lib c srv) (rw v s)
          (λ pods q. finish-Safe x y pods _ (rw v s) (rw (m, v) h.0, rw v h.1) (rw m cur) none_left)

    waiting : Deployment → Job W → Option Error × Job W
    waiting y j = with_value (list_deploy_pods lib c srv y j) (finish_without_pods lib c srv)

    -- The three answers of LastRolloutFinished.
    last_rollout_finished-cases :
        (x y : Deployment) (j : Job W)
        → (last_rollout_finished lib c srv x y j ≡ ((true, none), j))
          ⊎ ((last_rollout_finished lib c srv x y j ≡ ((false, none), j))
              ⊎ ((last_rollout_finished lib c srv x y j
                    ≡ ((false, (waiting y j).0), (waiting y j).1))
                  × (get_deploy_replicas y ≡ pos 0)))
    unfolding last_rollout_finished waiting
    last_rollout_finished-cases x y j =
        elim (Bool-cases (is_component_rolling j.milvus (state_key lib c))) [
          | inr p ↦ inl (rw p refl)
          | inl p ↦ elim (Option-cases (deployments_show_finished lib c j.milvus x y)) [
            | inr (i, q) ↦ inr (inl (rw (p, q) refl))
            | inl q ↦ inr (inr (rw (p, q) refl, finished-last j.milvus x y q))
          ]
        ]

    -- It answers that the rollout has finished only if there is none.
    pub last_rollout_finished-true :
        (x y : Deployment) (j : Job W)
        → last_rollout_finished lib c srv x y j ≡ ((true, none), j)
        → NotRolling lib c j.milvus
    unfolding last_rollout_finished
    last_rollout_finished-true x y j h =
        elim (Bool-cases (is_component_rolling j.milvus (state_key lib c))) [
          | inr p ↦ p
          | inl p ↦ elim (Option-cases (deployments_show_finished lib c j.milvus x y)) [
            | inr (i, q) ↦ absurd (true≢false (sym (ap (λ r. r.0.0) (rw (p, q) at h))))
            | inl q ↦ absurd (true≢false (sym (ap (λ r. r.0.0) (rw (p, q) at h))))
          ]
        ]

    after-Safe :
        (x y : Deployment) (t : PodTemplate) (j : Job W)
        → Safe lib c srv view laws j.world
        → Holding lib c srv view laws x y j
        → IsCurrent lib c j.milvus x true
        → Safely
            (Synced lib c srv view laws)
            (after_last_rollout lib c srv x y t (last_rollout_finished lib c srv x y j))
    after-Safe x y t j s h cur = elim (last_rollout_finished-cases x y j) [
      | inl q ↦ rw q (roll_if_changed-Safe x y t j s h)
      | inr (inl q) ↦ rw q (s, λ _. h.0)
      | inr (inr (q, none_left)) ↦ rw q (
          after_wait (Synced lib c srv view laws) x y t _
            (unfold waiting in wait-Safe x y t j s h cur none_left))
    ]

    pub roll-Safe :
        (x y : Deployment) (j : Job W)
        → Safe lib c srv view laws j.world
        → Holding lib c srv view laws x y j
        → IsCurrent lib c j.milvus x true
        → Safely (Synced lib c srv view laws) (roll lib c srv x y j)
    unfolding roll
    roll-Safe x y j s h cur =
        let t = lib.render j.milvus (some x.template) c false in
        if-all (Safely (Synced lib c srv view laws)) (should_rollback lib c x y t)
          (prepare_new_rollout lib c srv y t j)
          (after_last_rollout lib c srv x y t (last_rollout_finished lib c srv x y j))
          (λ _.
            prepare_new_rollout-Safe (Synced lib c srv view laws) y x t j s
              (h.0, swap_Held lib c srv view laws (view j.world) x y h.1))
          (λ _. after-Safe x y t j s h cur)

    pub handle_rolling-Safe :
        (j : Job W)
        → Safe lib c srv view laws j.world
        → Synced lib c srv view laws j
        → Safely (Synced lib c srv view laws) (handle_rolling lib c srv j)
    unfolding handle_rolling
    handle_rolling-Safe j s y =
        get_deploys-Safe lib c srv view laws (Synced lib c srv view laws) _ _ j s y
          (λ d e k sk hk cur old. roll-Safe d e k sk hk cur)
