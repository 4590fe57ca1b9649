-- ===== src/Upgrade/Server.antt =====
-- What the upgrade controller asks of code outside the repository: the API server through
-- controller-runtime's client, the condition helpers of apimachinery, the clock and the template
-- of the migration configuration. `W` is the state of the world, which each call may change.
use milvus_operator.Base.{ℕ, String, Option, List, Error, Result, Bool, Action}
use milvus_operator.Api.Labels.{StringMap}
use milvus_operator.Deployment.{Deployment, PodPhase}
use milvus_operator.Upgrade.{MilvusUpgrade, Milvus, Condition}
pub use milvus_operator.Base.{then_do}

pub data TaskKind : Type 0 where
  backup_task update_task rollback_task : TaskKind

-- The arguments of the migration template.
pub record MigrationConfig : Type 0 where
  pub command : String
  pub source_version : String
  pub target_version : String
  pub endpoints : List String
  pub root_path : String
  pub meta_sub_path : String
  pub kv_sub_path : String

-- An object that an upgrade owns: the volume claim of a backup, the configuration map and the pod
-- of a task. All carry the upgrade's name as a label, the last two the task's kind too.
pub data Object : Type 0 where
  volume_claim : String → Object
  config_map : String → TaskKind → String → Object
  task_pod : String → TaskKind → String → String → Object

-- `Get`, `Update`, `List`, `DeleteAllOf` and `CreateOrUpdate`, with their answers.
pub record Server (W : Type 0) : Type 0 where
  pub get_milvus : W → Result Milvus × W
  pub update_milvus : Milvus → W → Option Error × W
  pub list_pods : String → TaskKind → W → Result (List PodPhase) × W
  pub delete_pods : String → TaskKind → W → Option Error × W
  pub list_deployments : String → W → Result (List Deployment) × W
  pub get_alpha : String → W → Result StringMap × W
  pub update_alpha : String → StringMap → W → Option Error × W
  pub set_controller_reference : Object → Option Error
  pub create_or_update : Object → W → Option Error × W
  pub set_status_condition : Condition → List Condition → List Condition
  pub remove_status_condition : String → List Condition → List Condition
  pub error_text : Error → String
  pub render : MigrationConfig → Result String
  pub now : W → ℕ
  pub format_time : ℕ → String
  pub parse_time : String → Option ℕ
  pub newer_than_2_6 : String → Bool

-- The upgrade and the Milvus resource that a reconciliation holds in memory, and the world.
pub record Job (W : Type 0) : Type 0 where
  pub upgrade : MilvusUpgrade
  pub milvus : Milvus
  pub world : W

abbrev pub Effect : Type 0 → Type 0
Effect W = Action (Job W)
