-- ===== src/Status.antt =====
-- The status of an instance: pkg/controllers/status_cluster.go, component_condition.go, conditions.go
-- and DeploymentReady of utils.go. Times are left out.
pub mod Aggregated
pub mod Workloads
pub mod Updated
pub mod Server
pub mod Deploys
pub mod Pods
pub mod Ready
pub mod Syncer
pub mod Batches
pub mod Readiness
pub mod Healthy
pub mod Once
use milvus_operator.Base.{
  ℕ, String, Bool, true, false, not, ◌&&◌, ◌||◌, Option, none, some, List, [], ◌∷◌, ltb, find?,
  str_eq, if◌then◌else◌,
}
use milvus_operator.Base.Int.{ℤ, pos, ◌+ℤ◌}
use milvus_operator.Api.Status.{
  ConditionStatus, is_true, is_false, holds, DeploymentCondition, available, progressing,
  DeploymentStatus, ComponentDeployStatus, DeploymentState, state_progressing, state_complete,
  state_failed, state_paused, is_available, get_state,
}
use milvus_operator.Deployment.{Container, Deployment, to_int32}
use milvus_operator.Component.{MilvusComponent, kind_name}

unfoldable pub deployment_ready : DeploymentStatus → Bool
deployment_ready s = elim (find? is_available s.conditions) [
  | none ↦ false
  | some c ↦ holds c.status
]

abbrev pub no_status : ComponentDeployStatus
no_status = record {
  generation = 0;
  image = "";
  status = record {
    observed_generation = 0;
    replicas = pos 0;
    updated_replicas = pos 0;
    ready_replicas = pos 0;
    available_replicas = pos 0;
    unavailable_replicas = pos 0;
    conditions = [];
  };
}

-- The image of the first container of the name.
abbrev pub container_image : String → List Container → String
container_image n cs = elim (find? (λ (c : Container). str_eq c.name n) cs) [
  | none ↦ ""
  | some c ↦ c.image
]

unfoldable pub component_deploy_status : MilvusComponent → Option Deployment → ComponentDeployStatus
unfolding kind_name
component_deploy_status c none = no_status
component_deploy_status c (some d) = record {
  generation = d.generation;
  image = container_image (kind_name c.kind) d.template.containers;
  status = d.status;
}

-- What the loop of aggregateComponentDeployStatuses carries.
pub record Tally : Type 0 where
  pub ret : ComponentDeployStatus
  pub all_complete : Bool
  pub all_complete_or_paused : Bool
  pub all_available : Bool
  pub any_failed : Bool

-- `a += b` on int32.
abbrev add_int32 : ℤ → ℤ → ℤ
add_int32 a b = to_int32 (a +ℤ b)

abbrev pub completes : DeploymentState → Bool
completes state_complete = true
completes _ = false

abbrev pub settles : DeploymentState → Bool
settles state_complete = true
settles state_paused = true
settles _ = false

abbrev pub fails : DeploymentState → Bool
fails state_failed = true
fails _ = false

unfoldable pub tally_status : ComponentDeployStatus → Tally → Tally
unfolding deployment_ready get_state to_int32 ◌+ℤ◌
tally_status s t =
    let r = t.ret in
    let sum = r.status in
    record {
      ret = record {
        generation = if ltb r.generation s.generation then s.generation else r.generation;
        image = if str_eq s.image r.image then r.image else "";
        status = record sum {
          replicas = add_int32 sum.replicas s.status.replicas;
          updated_replicas = add_int32 sum.updated_replicas s.status.updated_replicas;
          ready_replicas = add_int32 sum.ready_replicas s.status.ready_replicas;
          available_replicas = add_int32 sum.available_replicas s.status.available_replicas;
          unavailable_replicas = add_int32 sum.unavailable_replicas s.status.unavailable_replicas;
        };
      };
      all_complete = t.all_complete && completes (get_state s);
      all_complete_or_paused = t.all_complete_or_paused && settles (get_state s);
      all_available = t.all_available && deployment_ready s.status;
      any_failed = t.any_failed || fails (get_state s);
    }

unfoldable pub tally_statuses : List ComponentDeployStatus → Tally → Tally
unfolding tally_status
tally_statuses [] t = t
tally_statuses (s ∷ ss) t = tally_statuses ss (tally_status s t)

abbrev pub aggregated_progressing : Tally → DeploymentCondition
aggregated_progressing t =
    if t.all_complete
    then record { type = progressing; status = is_true; reason = "NewReplicaSetAvailable" }
    else if t.all_complete_or_paused
    then record { type = progressing; status = is_true; reason = "DeploymentPaused" }
    else if t.any_failed
    then record { type = progressing; status = is_false; reason = "DeploymentGroupFailed" }
    else record { type = progressing; status = is_true; reason = "DeploymentGroupsUpdating" }

abbrev pub aggregated_available : Tally → DeploymentCondition
aggregated_available t = record {
  type = available;
  status = if t.all_available then is_true else is_false;
  reason = "DeploymentGroupsAggregated";
}

abbrev pub finish_tally : Tally → ComponentDeployStatus
finish_tally t = record (t.ret) {
  status = record (t.ret.status) {
    observed_generation = t.ret.generation;
    conditions = aggregated_progressing t ∷ aggregated_available t ∷ [];
  };
}

abbrev pub start_tally : ComponentDeployStatus → Tally
start_tally s = record {
  ret = record no_status { image = s.image };
  all_complete = true;
  all_complete_or_paused = true;
  all_available = true;
  any_failed = false;
}

unfoldable pub aggregate_component_deploy_statuses :
    List ComponentDeployStatus → ComponentDeployStatus
unfolding tally_statuses
aggregate_component_deploy_statuses [] = no_status
aggregate_component_deploy_statuses (s ∷ ss) =
    finish_tally (tally_statuses (s ∷ ss) (start_tally s))

pub data MilvusHealthStatus : Type 0 where
  not_reported pending healthy unhealthy stopped deleting : MilvusHealthStatus

-- MilvusHealthStatusInfo.GetMilvusHealthStatus.
unfoldable pub get_milvus_health_status : MilvusHealthStatus → Bool → Bool → MilvusHealthStatus
get_milvus_health_status last true is_healthy = stopped
get_milvus_health_status last false true = healthy
get_milvus_health_status healthy false false = unhealthy
get_milvus_health_status unhealthy false false = unhealthy
get_milvus_health_status last false false = pending
