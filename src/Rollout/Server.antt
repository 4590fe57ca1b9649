-- ===== src/Rollout/Server.antt =====
-- What a rollout asks of code that is not modelled: the API server through controller-runtime's
-- client, `strconv`, semantic equality, SHA-256, and RenderPodTemplateWithoutGroupID, which is the
-- template of deployment_updater.go. `W` is the state of the world.
use milvus_operator.Base.{String, Bool, Option, List, Error, Result, Action}
use milvus_operator.Base.Int.{ℤ}
use milvus_operator.Api.Labels.{StringMap}
use milvus_operator.Api.Spec.{ComponentKind}
use milvus_operator.Strategy.{Scaling}
use milvus_operator.Deployment.{PodTemplate, Deployment, Pod}
use milvus_operator.Component.{MilvusComponent}
use milvus_operator.Rollout.{Milvus}

-- `List`, `Update` and `Create`, with their answers. The lists take the labels to match.
pub record Server (W : Type 0) : Type 0 where
  pub list_deployments : StringMap → W → Result (List Deployment) × W
  pub list_pods : StringMap → W → Result (List Pod) × W
  pub update_milvus : Milvus → W → Option Error × W
  pub update_deployment : Deployment → W → Option Error × W
  pub create_deployment : Deployment → W → Option Error × W
  pub set_controller_reference : Deployment → Option Error

pub record Library : Type 0 where
  pub itoa : ℤ → String
  pub atoi : String → Result ℤ
  pub same_template : PodTemplate → PodTemplate → Bool
  pub same_map : StringMap → StringMap → Bool
  pub hash : String → String
  pub newer_than_2_6 : String → Bool
  pub stand_by : ComponentKind → Bool
  pub scaling : Scaling
  pub render : Milvus → Option PodTemplate → MilvusComponent → Bool → PodTemplate

-- The Milvus resource that a reconciliation holds in memory, and the world.
pub record Job (W : Type 0) : Type 0 where
  pub milvus : Milvus
  pub world : W

abbrev pub Effect : Type 0 → Type 0
Effect W = Action (Job W)
