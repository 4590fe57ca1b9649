-- ===== src/Status/Server.antt =====
-- What the status of an instance asks of code that is not modelled: the API server, the probes of
-- the dependencies and the texts of error details. `W` is the state of the world.
use milvus_operator.Base.{String, List, Result, Error, Option}
use milvus_operator.Api.Labels.{StringMap}
use milvus_operator.Deployment.{Deployment, Pod}
use milvus_operator.StatefulSets.{StatefulSet}

pub record Server (W : Type 0) : Type 0 where
  pub list_deployments : StringMap → W → Result (List Deployment) × W
  pub get_stateful_set : String → W → Result StatefulSet × W
  pub list_pods : StringMap → W → Result (List Pod) × W
  -- `kubectl exec` of the kill command in a container of a pod.
  pub kill_process : Pod → String → W → Option Error × W
  -- getComponentErrorDetail and getStatefulSetErrorDetail, as their text.
  pub error_detail : String → Option Deployment → W → Result String × W
  pub stateful_set_error_detail : String → Option StatefulSet → W → Result String × W
