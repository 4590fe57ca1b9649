-- ===== src/Upgrade.antt =====
-- The MilvusUpgrade resource: apis/milvus.io/v1beta1/milvusupgrade_types.go, and what its
-- controller reads and writes elsewhere.
pub mod Server
pub mod Replicas
pub mod Handlers
pub mod Frame
pub mod Machine
pub mod Transitions
pub mod Conformance
pub mod Termination
pub mod Invariant
pub mod Pods
pub mod RoundTrip
use Prim.Native.Char.{code}
use Prim.Native.String
use milvus_operator.Base.{
  ℕ, String, Bool, true, false, not, Option, none, some, List, [], ◌∷◌, any, str_eq, ◌==◌,
  if◌then◌else◌,
}
use milvus_operator.Base.Int.{ℤ, pos}
use milvus_operator.Api.Spec.{ComponentKind, MilvusSpec}
use milvus_operator.Api.Labels.{StringMap}
use milvus_operator.Api.Status.{ConditionStatus}

-- `pending` is the empty text, which handlers also return for "no next state"; `unexpected` is any
-- text that names no state.
pub data UpgradeState : Type 0 where
  pending old_version_stopping backup_meta updating_meta new_version_starting : UpgradeState
  succeeded bakup_meta_failed update_meta_failed rollback_new_version_stopping : UpgradeState
  rollback_restoring_old_meta rollback_old_version_starting rollback_succeeded : UpgradeState
  rollback_failed : UpgradeState
  unexpected : String → UpgradeState

unfoldable pub state_name : UpgradeState → String
state_name pending = ""
state_name old_version_stopping = "OldVersionStopping"
state_name backup_meta = "BackupMeta"
state_name updating_meta = "UpdatingMeta"
state_name new_version_starting = "NewVersionStarting"
state_name succeeded = "Succeeded"
state_name bakup_meta_failed = "BakupMetaFailed"
state_name update_meta_failed = "UpdateMetaFailed"
state_name rollback_new_version_stopping = "RollbackNewVersionStopping"
state_name rollback_restoring_old_meta = "RollbackRestoringOldMeta"
state_name rollback_old_version_starting = "RollbackOldVersionStarting"
state_name rollback_succeeded = "RollbackedSucceeded"
state_name rollback_failed = "RollbackFailed"
state_name (unexpected s) = s

-- The states that are not in `milvusUpgradeNoRequeueStates`.
unfoldable pub need_requeue : UpgradeState → Bool
need_requeue succeeded = false
need_requeue bakup_meta_failed = false
need_requeue update_meta_failed = false
need_requeue rollback_succeeded = false
need_requeue rollback_failed = false
need_requeue _ = true

unfoldable pub is_state_in : UpgradeState → List UpgradeState → Bool
unfolding state_name
is_state_in s [] = false
is_state_in s (t ∷ ts) =
    let rest = is_state_in s ts in if str_eq (state_name t) (state_name s) then true else rest

pub data Operation : Type 0 where
  upgrade_operation rollback_operation : Operation

pub record UpgradeSpec : Type 0 where
  pub operation : Operation
  pub source_version : String
  pub target_version : String
  pub target_image : String
  pub tool_image : String
  pub max_retry : ℤ
  pub rollback_if_failed : Bool
  pub backup_pvc : String

-- `MilvusReplicas`: an `int` for each component, zero where none was recorded.
abbrev pub MilvusReplicas : Type 0
MilvusReplicas = ComponentKind → ℤ

-- A `metav1.Condition`.
pub record Condition : Type 0 where
  pub type : String
  pub status : ConditionStatus
  pub reason : String
  pub message : String

-- `none` in the two replica records is a nil pointer and a nil map.
pub record UpgradeStatus : Type 0 where
  pub state : UpgradeState
  pub conditions : List Condition
  pub source_image : String
  pub meta_storage_changed : Bool
  pub meta_backuped : Bool
  pub is_rollbacking : Bool
  pub replicas_before_upgrade : Option MilvusReplicas
  pub group_replicas_before_upgrade : Option (List (String × List (String × ℤ)))
  pub backup_pvc : String
  pub retried_times : ℤ

pub record MilvusUpgrade : Type 0 where
  pub name : String
  pub spec : UpgradeSpec
  pub status : UpgradeStatus

-- The Milvus resource as the upgrade sees it: `owners` are kinds and names, and `conf` is
-- `GetStringValue` of the etcd section of its configuration.
pub record Milvus : Type 0 where
  pub name : String
  pub spec : MilvusSpec
  pub annotations : StringMap
  pub owners : List (String × String)
  pub etcd_endpoints : List String
  pub conf : String → Option String

unfoldable pub remove_prefix_v : String → String
remove_prefix_v String.[] = ""
remove_prefix_v (String.◌∷◌ c s) = if code c == b'v' then s else String.◌∷◌ c s
