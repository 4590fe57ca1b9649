-- ===== src/Status/Readiness.antt =====
-- What a run ensures, and the condition `MilvusReady` that an instance gets.
use milvus_operator.Base.{
  String, Bool, true, false, Option, none, some, List, [], ◌∷◌, Error, Result, ok, err,
  Result-cases, then_do, with_value, wrapped, ◌≡◌, refl, inl, inr, str_eq,
}
use milvus_operator.Api.Labels.{get}
use milvus_operator.Api.Stopping.{is_milvus_stopping_for_reconcile}
use milvus_operator.Api.Status.{holds}
use milvus_operator.Component.{get_component_workloads_by_spec}
use milvus_operator.Conditions.{MilvusCondition}
use milvus_operator.Deployment.{Deployment}
use milvus_operator.Rollout.{Milvus}
use milvus_operator.Status.Deploys.{app_labels}
use milvus_operator.Status.Pods.{check_milvus_stopped, with_result}
use milvus_operator.Status.Ready.{
  check_workloads, check_listed, nothing_seen, report_seen, report_stopping, instance_condition,
  stopping_condition, get_milvus_instance_condition, get_stopping_condition,
}
use milvus_operator.Status.Syncer.{Environment}
use milvus_operator.Status.Workloads.{make_workload_deployment_map}

-- What holds of the state of a run that ends without an error.
abbrev pub Ensures : {S : Type 0} → (S → Type 0) → Option Error × S → Type 0
Ensures P (some e, s) = Unit
Ensures P (none, s) = P s

abbrev pub Answers : {A S : Type 0} → (A → S → Type 0) → Result A × S → Type 0
Answers R (err e, s) = Unit
Answers R (ok a, s) = R a s

module _ {S : Type 0} (Q : S → Type 0) where
  pub then_do-Ensures :
      (P : S → Type 0) (r : Option Error × S) (f : S → Option Error × S)
      → Ensures P r
      → ((s : S) → P s → Ensures Q (f s))
      → Ensures Q (then_do r f)
  then_do-Ensures P (some e, s) f p q = tt
  then_do-Ensures P (none, s) f p q = q s p

  pub then_do-Ensures_any :
      (r : Option Error × S) (f : S → Option Error × S)
      → ((s : S) → Ensures Q (f s))
      → Ensures Q (then_do r f)
  then_do-Ensures_any (some e, s) f q = tt
  then_do-Ensures_any (none, s) f q = q s

  pub with_value-Ensures :
      {A : Type 0} (R : A → S → Type 0) (r : Result A × S) (f : A → S → Option Error × S)
      → Answers R r
      → ((a : A) (s : S) → R a s → Ensures Q (f a s))
      → Ensures Q (with_value r f)
  with_value-Ensures R (err e, s) f p q = tt
  with_value-Ensures R (ok a, s) f p q = q a s p

  pub wrapped-Ensures :
      (text : String) (r : Option Error × S) → Ensures Q r → Ensures Q (wrapped text r)
  wrapped-Ensures text (some e, s) p = tt
  wrapped-Ensures text (none, s) p = p

-- A condition that holds is the one of readiness.
abbrev pub IsReadiness : MilvusCondition → Type 0
IsReadiness c = holds c.status ≡ true → c.type ≡ "MilvusReady"

seen-IsReadiness :
    (names : List String) (detail : Option String) (entry : Bool)
    → IsReadiness
        (instance_condition (record { not_ready = names; detail = detail; has_entry = entry }))
unfolding instance_condition
seen-IsReadiness [] detail true h = refl
seen-IsReadiness [] detail false h = absurd cc
seen-IsReadiness (n ∷ ns) detail entry h = refl

stopping_condition-IsReadiness : (b : Bool) → IsReadiness (stopping_condition b)
stopping_condition-IsReadiness true h = refl
stopping_condition-IsReadiness false h = refl

with_result-Answers :
    {A B W : Type 0} (R : B → W → Type 0) (r : Result A × W) (f : A → W → Result B × W)
    → ((a : A) (w : W) → Answers R (f a w))
    → Answers R (with_result r f)
with_result-Answers R (err e, w) f h = tt
with_result-Answers R (ok a, w) f h = h a w

module _ (hash : String → String) (newer : String → Bool) (controlled : Deployment → Milvus → Bool)
    {W : Type 0} (env : Environment W) where
  listed-IsReadiness :
      (m : Milvus) (ds : List Deployment) (w : W)
      → Answers (λ c u. IsReadiness c) (check_listed hash newer controlled env.server m ds w)
  unfolding check_listed
  listed-IsReadiness m ds w =
      with_result-Answers (λ c u. IsReadiness c)
        (check_workloads hash newer controlled env.server m
          (make_workload_deployment_map hash newer controlled m ds)
          (get_component_workloads_by_spec newer m.spec)
          (nothing_seen hash newer controlled env.server) w)
        (report_seen hash newer controlled env.server)
        (λ x v. seen-IsReadiness x.not_ready x.detail x.has_entry)

  pub instance-IsReadiness :
      (m : Milvus) (w : W)
      → Answers
          (λ c u. IsReadiness c)
          (get_milvus_instance_condition hash newer controlled env.server m w)
  unfolding get_milvus_instance_condition get_stopping_condition
  instance-IsReadiness m w =
      let upgrade_stopping = str_eq (get "milvus.io/upgrade-stopping" m.annotations) "true" in
      elim (Result-cases (is_milvus_stopping_for_reconcile newer upgrade_stopping m.spec)) [
        | inl (e, h) ↦ rw (h, get_milvus_instance_condition) tt
        | inr (true, h) ↦
            rw (h, get_milvus_instance_condition)
              (with_result-Answers (λ c u. IsReadiness c) (check_milvus_stopped env.server m w)
                (report_stopping hash newer controlled env.server)
                (λ b u. stopping_condition-IsReadiness b))
        | inr (false, h) ↦
            rw (h, get_milvus_instance_condition)
              (with_result-Answers (λ c u. IsReadiness c)
                (env.server.list_deployments (app_labels m.name) w)
                (check_listed hash newer controlled env.server m) (listed-IsReadiness m))
      ]
