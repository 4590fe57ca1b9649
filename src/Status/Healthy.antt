-- ===== src/Status/Healthy.antt =====
-- What an update of the status reports of an instance that serves.
use milvus_operator.Base.{
  String, if◌then◌else◌, Bool, true, false, Option, none, some, List, [], ◌∷◌, Error, Result, ok,
  err, Result-cases, then_do, with_value, wrapped, ◌≡◌, refl, ap, ◌∙◌, subst, inl, inr, arith,
}
use milvus_operator.Api.Spec.{
  is_force, ImageUpdateMode, rolling_upgrade, rolling_downgrade, all_at_once, force,
}
use milvus_operator.Api.Status.{holds}
use milvus_operator.Component.{MilvusComponent}
use milvus_operator.Conditions.{MilvusCondition, update_condition, get_condition}
use milvus_operator.Conditions.Update.{update_condition-get}
use milvus_operator.Deployment.{Deployment, Pod}
use milvus_operator.Rollout.{Milvus}
use milvus_operator.Status.{
  MilvusHealthStatus, not_reported, pending, healthy, unhealthy, stopped, deleting,
  get_milvus_health_status,
}
use milvus_operator.Status.Pods.{exec_kill_if_terminating, list_milvus_terminating_pods}
use milvus_operator.Status.Ready.{get_milvus_instance_condition}
use milvus_operator.Status.Syncer.{
  holds_in, Instance, Environment, conditions_of, is_milvus_condition_true_by_type, is_stopping_now,
  update_ingress_status, update_deploys, update_endpoint, lift_value, store_unless, sync_updated,
  after_readiness, after_deploys, after_ingress, after_dependencies, store_updated,
  terminating_condition, store_condition, sync_updated_condition, record_version, finish_status,
  check_instance, update_status_for_new_generation,
}
use milvus_operator.Status.Workloads.{condition_of, get_milvus_updated_condition}
use milvus_operator.Status.Readiness.{
  Ensures, Answers, then_do-Ensures, then_do-Ensures_any, with_value-Ensures, wrapped-Ensures,
  IsReadiness, instance-IsReadiness,
}

condition_of-type :
    (b : Bool) (mode : ImageUpdateMode) (cs : List MilvusComponent) (names : String)
    → (condition_of b mode cs names).type ≡ "MilvusUpdated"
condition_of-type false mode [] names = refl
condition_of-type false mode (c ∷ cs) names = refl
condition_of-type true rolling_upgrade cs names = refl
condition_of-type true rolling_downgrade cs names = refl
condition_of-type true all_at_once [] names = refl
condition_of-type true all_at_once (c ∷ cs) names = refl
condition_of-type true force [] names = refl
condition_of-type true force (c ∷ cs) names = refl

get_milvus_health_status-healthy :
    (last : MilvusHealthStatus) (stopping ready : Bool)
    → get_milvus_health_status last stopping ready ≡ healthy
    → (stopping ≡ false) × (ready ≡ true)
unfolding get_milvus_health_status
get_milvus_health_status-healthy last true ready h = absurd cc
get_milvus_health_status-healthy last false true h = (refl, refl)
get_milvus_health_status-healthy not_reported false false h = absurd cc
get_milvus_health_status-healthy pending false false h = absurd cc
get_milvus_health_status-healthy healthy false false h = absurd cc
get_milvus_health_status-healthy unhealthy false false h = absurd cc
get_milvus_health_status-healthy stopped false false h = absurd cc
get_milvus_health_status-healthy deleting false false h = absurd cc

module _ (hash : String → String) (newer : String → Bool) (controlled : Deployment → Milvus → Bool)
    {W : Type 0} (env : Environment W) where
  -- The conditions report the readiness that was found.
  abbrev Shows : MilvusCondition → Instance × W → Type 0
  Shows ready (i, w) =
      holds ready.status ≡ true
      → is_milvus_condition_true_by_type (conditions_of i) "MilvusReady" ≡ true

  store_condition-Shows :
      (ready : MilvusCondition) (s : Instance × W)
      → IsReadiness ready
      → Ensures (Shows ready) (store_condition hash newer controlled env ready s)
  unfolding is_milvus_condition_true_by_type
  store_condition-Shows ready (i, w) named h =
      let t = named h in
      let cs = conditions_of i in
      let ((d, e, says), others) = update_condition-get (env.now w) ready cs (rw t refl) in
      subst (λ ty. holds_in (get_condition ty (update_condition (env.now w) ready cs)) ≡ true) t
        (ap holds_in e ∙ ap holds says.status ∙ h)

  store_other-Shows :
      (ready c : MilvusCondition) (s : Instance × W)
      → c.type ≡ "MilvusUpdated"
      → Shows ready s
      → Ensures (Shows ready) (store_condition hash newer controlled env c s)
  unfolding is_milvus_condition_true_by_type
  store_other-Shows ready c (i, w) named shown h =
      let (_, others) = update_condition-get (env.now w) c (conditions_of i) (rw named refl) in
      ap holds_in (others "MilvusReady" (rw named refl) refl) ∙ shown h

  store_updated-Shows :
      (ready c : MilvusCondition) (i : Instance) (r : Result (List Pod) × W) (w : W)
      → c.type ≡ "MilvusUpdated"
      → Shows ready (i, w)
      → Ensures (Shows ready) (
          with_value
            (lift_value hash newer controlled env i r)
            (store_updated hash newer controlled env c))
  store_updated-Shows ready c i (err e, u) w named shown = tt
  store_updated-Shows ready c i (ok [], u) w named shown =
      store_other-Shows ready c (i, u) named shown
  store_updated-Shows ready c i (ok (p ∷ ps), u) w named shown =
      let killed = (exec_kill_if_terminating env.server (p ∷ ps) u).1 in
      store_other-Shows ready (terminating_condition c)
        (i, if is_force i.milvus.spec.components.image_update_mode then killed else u) named shown

  sync_updated_condition-Shows :
      (ready : MilvusCondition) (s : Instance × W)
      → Shows ready s
      → Ensures (Shows ready) (sync_updated_condition hash newer controlled env s)
  unfolding sync_updated_condition get_milvus_updated_condition
  sync_updated_condition-Shows ready (i, w) shown =
      store_updated-Shows ready
        (get_milvus_updated_condition hash newer controlled i.milvus i.deploy_statuses) i
        (list_milvus_terminating_pods env.server i.milvus w) w (condition_of-type _ _ _ _) shown

  -- What an update without an error reports.
  abbrev pub IsServing : Instance → Type 0
  IsServing i =
      (is_stopping_now hash newer controlled env i ≡ ok false)
      × (is_milvus_condition_true_by_type (conditions_of i) "MilvusReady" ≡ true)

  abbrev IsReported : Instance × W → Type 0
  IsReported (i, w) = i.health ≡ healthy → IsServing i

  record_version-same :
      (i : Instance) → conditions_of (record_version hash newer controlled env i) ≡ conditions_of i
  unfolding record_version
  record_version-same i = ground arith

  update_status-Reported :
      (i : Instance) (r : Option Error × W)
      → (i.health ≡ healthy → IsServing i)
      → Ensures IsReported (r.0, (i, r.1))
  update_status-Reported i (some e, u) h = tt
  update_status-Reported i (none, u) h = h

  store_unless-Reported :
      (unless : Bool) (i : Instance) (w : W)
      → (i.health ≡ healthy → IsServing i)
      → Ensures IsReported (store_unless hash newer controlled env unless (i, w))
  store_unless-Reported true i w h = h
  store_unless-Reported false i w h = update_status-Reported i (env.update_status i w) h

  finish_status-Reported :
      (before : Instance) (ready : MilvusCondition) (s : Instance × W)
      → Shows ready s
      → Ensures IsReported (finish_status hash newer controlled env before ready s)
  unfolding finish_status is_stopping_now
  finish_status-Reported before ready (j, w) shown =
      let i = record_version hash newer controlled env j in
      elim (Result-cases (is_stopping_now hash newer controlled env i)) [
        | inl (e, h) ↦ rw (h, finish_status) tt
        | inr (stopping, h) ↦
            let reported = record i {
              health = get_milvus_health_status i.health stopping (holds ready.status);
            } in
            rw (h, finish_status)
              (store_unless-Reported (env.same_status before reported) reported w (λ is_healthy.
                let (quiet, holding) =
                  get_milvus_health_status-healthy i.health stopping (holds ready.status)
                    is_healthy in
                (
                  h ∙ ap ok quiet,
                  ap (λ cs. is_milvus_condition_true_by_type cs "MilvusReady")
                        (record_version-same j)
                      ∙ shown holding,
                )))
      ]

  lift_value-Answers :
      {A : Type 0} (R : A → Type 0) (i : Instance) (r : Result A × W)
      → Answers (λ a u. R a) r
      → Answers (λ a s. R a) (lift_value hash newer controlled env i r)
  lift_value-Answers R i (err e, u) h = tt
  lift_value-Answers R i (ok a, u) h = h

  after_readiness-Reported :
      (before : Instance) (ready : MilvusCondition) (s : Instance × W)
      → IsReadiness ready
      → Ensures IsReported (after_readiness hash newer controlled env before ready s)
  after_readiness-Reported before ready s named =
      then_do-Ensures IsReported (Shows ready)
        (then_do (store_condition hash newer controlled env ready s)
          (sync_updated hash newer controlled env))
        (finish_status hash newer controlled env before ready)
        (then_do-Ensures (Shows ready) (Shows ready)
          (store_condition hash newer controlled env ready s)
          (sync_updated hash newer controlled env) (store_condition-Shows ready s named)
          (λ t shown.
            wrapped-Ensures (Shows ready) "handle terminating pods failed"
              (sync_updated_condition hash newer controlled env t)
              (sync_updated_condition-Shows ready t shown)))
        (finish_status-Reported before ready)

  check_instance-Reported :
      (before : Instance) (s : Instance × W)
      → Ensures IsReported (check_instance hash newer controlled env before s)
  unfolding check_instance
  check_instance-Reported before (i, w) =
      with_value-Ensures IsReported (λ c s. IsReadiness c)
        (lift_value hash newer controlled env i
          (get_milvus_instance_condition hash newer controlled env.server i.milvus w))
        (after_readiness hash newer controlled env before)
        (lift_value-Answers IsReadiness i
          (get_milvus_instance_condition hash newer controlled env.server i.milvus w)
          (instance-IsReadiness hash newer controlled env i.milvus w))
        (after_readiness-Reported before)

  update-Reported :
      (check_dependency : Bool) (s : Instance × W)
      → Ensures IsReported
          (update_status_for_new_generation hash newer controlled env check_dependency s)
  unfolding update_status_for_new_generation
  update-Reported check_dependency (before, w) =
      then_do-Ensures_any IsReported _ (after_dependencies hash newer controlled env before) (λ s.
        then_do-Ensures_any IsReported
          (wrapped "update ingress status failed"
            (update_ingress_status hash newer controlled env s))
          (after_ingress hash newer controlled env before)
          (λ t.
            then_do-Ensures_any IsReported
              (wrapped "update deploy status failed" (update_deploys hash newer controlled env t))
              (after_deploys hash newer controlled env before)
              (λ u.
                then_do-Ensures_any IsReported (update_endpoint hash newer controlled env u)
                  (check_instance hash newer controlled env before)
                  (check_instance-Reported before))))

  -- An update of the status that ends without an error reports an instance as healthy only if it is
  -- not stopping and its condition `MilvusReady` is true.
  pub update_status_for_new_generation-IsServing :
      (check_dependency : Bool) (s : Instance × W) (j : Instance) (u : W)
      → update_status_for_new_generation hash newer controlled env check_dependency s
        ≡ (none, (j, u))
      → j.health ≡ healthy
      → IsServing j
  update_status_for_new_generation-IsServing check_dependency s j u h =
      subst (Ensures IsReported) h (update-Reported check_dependency s)
