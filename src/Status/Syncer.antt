-- ===== src/Status/Syncer.antt =====
-- MilvusStatusSyncer of pkg/controllers/status_cluster.go: one update of an instance's status. Its
-- parameters are the probes of the dependencies, the API server's ingress, the endpoint,
-- `metav1.Now()`, IsEqual on statuses, and the Debug flag.
use Prim.Native.String.{◌++◌}
use milvus_operator.Base.{
  ℕ, String, Bool, true, false, not, ◌&&◌, Option, none, some, List, [], ◌∷◌, ltb, str_eq,
  if◌then◌else◌, Error, errorf, Result, ok, err, Action, then_do, wrapped, wrapped_value,
  is_api_not_found, with_value,
}
use milvus_operator.Api.Labels.{get}
use milvus_operator.Api.Spec.{is_force}
use milvus_operator.Api.Status.{is_false, holds}
use milvus_operator.Api.Stopping.{is_milvus_stopping_for_reconcile}
use milvus_operator.Conditions.{MilvusCondition, update_condition, remove_conditions, get_condition}
use milvus_operator.Deployment.{Deployment, Pod}
use milvus_operator.Rollout.{Milvus}
use milvus_operator.Status.{MilvusHealthStatus, not_reported, get_milvus_health_status}
use milvus_operator.Status.Deploys.{update_deploy_statuses}
use milvus_operator.Status.Pods.{exec_kill_if_terminating, list_milvus_terminating_pods}
use milvus_operator.Status.Ready.{get_milvus_instance_condition}
use milvus_operator.Status.Server.{Server}
use milvus_operator.Status.Workloads.{DeployStatuses, get_milvus_updated_condition}

-- An instance with the rest of its status.
pub record Instance : Type 0 where
  pub milvus : Milvus
  pub deleting : Bool
  pub health : MilvusHealthStatus
  pub ingress_status : String
  pub endpoint : String
  pub current_image : String
  pub current_version : String
  pub deploy_statuses : DeployStatuses

abbrev pub conditions_of : Instance → List MilvusCondition
conditions_of i = i.milvus.status.conditions

abbrev pub with_conditions : List MilvusCondition → Instance → Instance
with_conditions cs i = record i {
  milvus = record (i.milvus) { status = record (i.milvus.status) { conditions = cs } };
}

-- IsMilvusConditionTrueByType.
abbrev pub holds_in : Option MilvusCondition → Bool
holds_in none = false
holds_in (some c) = holds c.status

unfoldable pub is_milvus_condition_true_by_type : List MilvusCondition → String → Bool
unfolding get_condition
is_milvus_condition_true_by_type cs t = holds_in (get_condition t cs)

-- What is asked of code that is not modelled.
pub record Environment (W : Type 0) : Type 0 where
  pub server : Server W
  pub now : W → ℕ
  pub debug : Bool
  pub same_status : Instance → Instance → Bool
  -- The three probes of RunWithResult, in the order of their results, and the text of their errors.
  pub probe_dependencies : Instance → W → List (Result MilvusCondition) × W
  pub error_texts : List Error → String
  -- Whether `GetServiceComponent().Ingress` is not nil, and the status of the ingress of a name.
  pub wants_ingress : Instance → Bool
  pub get_ingress : String → W → Result String × W
  pub get_milvus_endpoint : Instance → W → String × W
  pub update_status : Instance → W → Option Error × W
  -- The defaulting webhook.
  pub set_default : Instance → Instance

abbrev pub terminating_condition : MilvusCondition → MilvusCondition
terminating_condition c = record c {
  status = is_false;
  reason = "MilvusComponentsUpdating";
  message = "Milvus has terminating pods";
}

module _ (hash : String → String) (newer : String → Bool) (controlled : Deployment → Milvus → Bool)
    {W : Type 0} (env : Environment W) where
  abbrev pub store_condition : MilvusCondition → Action (Instance × W)
  store_condition c (i, w) =
      (none, (with_conditions (update_condition (env.now w) c (conditions_of i)) i, w))

  -- The conditions that the probes answered, and the errors.
  unfoldable pub store_results :
      List (Result MilvusCondition) → List Error → Instance → W → List Error × (Instance × W)
  unfolding update_condition
  store_results [] errs i w = (errs, (i, w))
  store_results (ok c ∷ rs) errs i w =
      store_results rs errs (with_conditions (update_condition (env.now w) c (conditions_of i)) i) w
  store_results (err e ∷ rs) errs i w =
      let (more, rest) = store_results rs errs i w in (e ∷ more, rest)

  abbrev pub report_errors : List Error × (Instance × W) → Option Error × (Instance × W)
  report_errors ([], s) = (none, s)
  report_errors (e ∷ es, s) = (some (errorf (env.error_texts (e ∷ es))), s)

  unfoldable pub is_stopping_now : Instance → Result Bool
  unfolding is_milvus_stopping_for_reconcile
  is_stopping_now i =
      let upgrade_stopping =
        str_eq (get "milvus.io/upgrade-stopping" i.milvus.annotations) "true" in
      is_milvus_stopping_for_reconcile newer upgrade_stopping i.milvus.spec

  unfoldable pub check_dependency_conditions : Action (Instance × W)
  unfolding is_stopping_now store_results remove_conditions
  check_dependency_conditions (i, w) = elim (is_stopping_now i) [
    | err e ↦ (some e, (i, w))
    | ok stopping ↦ elim stopping [
      | true ↦
          let kinds = "EtcdReady" ∷ "StorageReady" ∷ "MsgStreamReady" ∷ [] in
          (none, (with_conditions (remove_conditions kinds (conditions_of i)) i, w))
      | false ↦ let (rs, u) = env.probe_dependencies i w in report_errors (store_results rs [] i u)
    ]
  ]

  abbrev pub lift_value : {A : Type 0} → Instance → Result A × W → Result A × (Instance × W)
  lift_value i (r, w) = (r, (i, w))

  -- The status of an ingress that is missing is empty.
  abbrev pub found_ingress : Result String → Result String
  found_ingress (ok t) = ok t
  found_ingress (err e) = if is_api_not_found e then ok "" else err e

  abbrev pub get_ingress_status : String → W → Result String × W
  get_ingress_status name w = let (r, u) = env.get_ingress name w in (found_ingress r, u)

  abbrev pub store_ingress : String → Action (Instance × W)
  store_ingress t (i, w) = (none, (record i { ingress_status = t }, w))

  abbrev pub update_ingress_status : Action (Instance × W)
  update_ingress_status (i, w) =
      if env.wants_ingress i
      then with_value
          (lift_value i (
            wrapped_value "get ingress status failed"
              (get_ingress_status (i.milvus.name ++ "-milvus") w)))
          store_ingress
      else (none, (i, w))

  abbrev pub update_deploys : Action (Instance × W)
  update_deploys (i, w) =
      with_value (lift_value i (update_deploy_statuses hash newer controlled env.server i.milvus w))
        (λ ds s. (none, (record (s.0) { deploy_statuses = ds }, s.1)))

  abbrev pub update_endpoint : Action (Instance × W)
  update_endpoint (i, w) =
      let (e, u) = env.get_milvus_endpoint i w in (none, (record i { endpoint = e }, u))

  -- What becomes of the condition `Updated`; an error of the kills is only logged.
  abbrev pub store_updated : MilvusCondition → List Pod → Action (Instance × W)
  store_updated c [] s = store_condition c s
  store_updated c (p ∷ ps) (i, w) = store_condition (terminating_condition c) (
    i,
    if is_force i.milvus.spec.components.image_update_mode
        then (exec_kill_if_terminating env.server (p ∷ ps) w).1
        else w,
  )

  unfoldable pub sync_updated_condition : Action (Instance × W)
  unfolding get_milvus_updated_condition list_milvus_terminating_pods exec_kill_if_terminating
      update_condition
  sync_updated_condition (i, w) =
      with_value (lift_value i (list_milvus_terminating_pods env.server i.milvus w)) (
        store_updated
          (get_milvus_updated_condition hash newer controlled i.milvus i.deploy_statuses))

  -- An instance that is ready and updated runs what its spec asks for.
  unfoldable pub record_version : Instance → Instance
  unfolding is_milvus_condition_true_by_type
  record_version i =
      if is_milvus_condition_true_by_type (conditions_of i) "MilvusReady"
        && is_milvus_condition_true_by_type (conditions_of i) "MilvusUpdated"
      then record i {
        current_image = i.milvus.spec.components.image;
        current_version = i.milvus.spec.components.version;
      }
      else i

  -- `unless` tells whether the status is as before.
  abbrev pub store_unless : (unless : Bool) → Action (Instance × W)
  store_unless true s = (none, s)
  store_unless false (i, w) = let (e, u) = env.update_status i w in (e, (i, u))

  abbrev pub store_status : Instance → Action (Instance × W)
  store_status before (i, w) = store_unless (env.same_status before i) (i, w)

  -- The end of an update, from the condition `Ready` on.
  unfoldable pub finish_status : Instance → MilvusCondition → Action (Instance × W)
  unfolding is_stopping_now record_version get_milvus_health_status
  finish_status before ready (j, w) =
      let i = record_version j in
      elim (is_stopping_now i) [
        | err e ↦ (some e, (i, w))
        | ok stopping ↦ store_status before (
          record i { health = get_milvus_health_status i.health stopping (holds ready.status) },
          w,
        )
      ]

  abbrev pub sync_updated : Action (Instance × W)
  sync_updated s = wrapped "handle terminating pods failed" (sync_updated_condition s)

  abbrev pub after_readiness : Instance → MilvusCondition → Action (Instance × W)
  after_readiness before ready s =
      then_do (then_do (store_condition ready s) sync_updated) (finish_status before ready)

  unfoldable pub check_instance : Instance → Action (Instance × W)
  unfolding get_milvus_instance_condition update_condition sync_updated_condition finish_status
  check_instance before (i, w) =
      with_value
        (lift_value i (get_milvus_instance_condition hash newer controlled env.server i.milvus w))
        (after_readiness before)

  abbrev pub check_dependencies : Bool → Action (Instance × W)
  check_dependencies wanted s = elim (wanted && not env.debug) [
    | true ↦ wrapped "check dependency conditions failed" (check_dependency_conditions s)
    | false ↦ (none, s)
  ]

  abbrev pub observe_generation : Instance → Instance
  observe_generation i = record i {
    milvus = record (i.milvus) {
      status = record (i.milvus.status) { observed_generation = i.milvus.generation };
    };
  }

  abbrev pub after_deploys : Instance → Action (Instance × W)
  after_deploys before s = then_do (update_endpoint s) (check_instance before)

  abbrev pub after_ingress : Instance → Action (Instance × W)
  after_ingress before s =
      then_do (wrapped "update deploy status failed" (update_deploys s)) (after_deploys before)

  abbrev pub after_dependencies : Instance → Action (Instance × W)
  after_dependencies before s =
      then_do (wrapped "update ingress status failed" (update_ingress_status s))
        (after_ingress before)

  -- `before` is the status at the start.
  unfoldable pub update_status_for_new_generation : Bool → Action (Instance × W)
  unfolding check_dependency_conditions update_deploy_statuses check_instance
  update_status_for_new_generation check_dependency (before, w) =
      then_do (check_dependencies check_dependency (observe_generation before, w))
        (after_dependencies before)

  abbrev pub is_reported : MilvusHealthStatus → Bool
  is_reported not_reported = false
  is_reported _ = true

  -- An instance without defaults, or one that is being reconciled, is left alone.
  unfoldable pub update_status_routine : Action (Instance × W)
  unfolding update_status_for_new_generation
  update_status_routine (i, w) = elim (is_reported i.health) [
    | false ↦ (none, (i, w))
    | true ↦ elim (ltb i.milvus.status.observed_generation i.milvus.generation) [
      | true ↦ (none, (i, w))
      | false ↦
          wrapped "UpdateStatus for milvus[%s/%s]"
            (update_status_for_new_generation true (env.set_default i, w))
    ]
  ]
