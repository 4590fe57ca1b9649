-- ===== src/Api/Status.antt =====
-- Deployment statuses and conditions: milvus_types.go.
use milvus_operator.Base.{
  ℕ, String, Bool, true, false, not, none, some, List, ltb, if◌then◌else◌, find?, str_eq,
}
use milvus_operator.Base.Int.{ℤ}

pub data ConditionStatus : Type 0 where
  is_true is_false unknown : ConditionStatus

abbrev pub holds : ConditionStatus → Bool
holds is_true = true
holds _ = false

pub data DeploymentConditionType : Type 0 where
  available progressing replica_failure : DeploymentConditionType

pub record DeploymentCondition : Type 0 where
  pub type : DeploymentConditionType
  pub status : ConditionStatus
  pub reason : String

-- `appsv1.DeploymentStatus`. Generations are counters of the API server.
pub record DeploymentStatus : Type 0 where
  pub observed_generation : ℕ
  pub replicas : ℤ
  pub updated_replicas : ℤ
  pub ready_replicas : ℤ
  pub available_replicas : ℤ
  pub unavailable_replicas : ℤ
  pub conditions : List DeploymentCondition

pub record ComponentDeployStatus : Type 0 where
  pub generation : ℕ
  pub image : String
  pub status : DeploymentStatus

pub data DeploymentState : Type 0 where
  state_progressing state_complete state_failed state_paused : DeploymentState

abbrev pub is_progressing : DeploymentCondition → Bool
is_progressing c = elim c.type [ progressing ↦ true | _ ↦ false ]

abbrev pub is_available : DeploymentCondition → Bool
is_available c = elim c.type [ available ↦ true | _ ↦ false ]

unfoldable pub get_state : ComponentDeployStatus → DeploymentState
get_state c =
    if ltb c.status.observed_generation c.generation
    then state_progressing
    else elim (find? is_progressing c.status.conditions) [
      | none ↦ state_progressing
      | some cond ↦
          if str_eq cond.reason "DeploymentPaused"
          then state_paused
          else if not (holds cond.status)
          then state_failed
          else if str_eq cond.reason "NewReplicaSetAvailable"
          then state_complete
          else state_progressing
    ]
