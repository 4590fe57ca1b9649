-- ===== src/Status/Pods.antt =====
-- The pods of an instance that stops or terminates: filterTerminatingPod, ListMilvusTerminatingPods,
-- ExecKillIfTerminating and CheckMilvusStopped of pkg/controllers/component_condition.go.
use milvus_operator.Base.{
  String, Bool, true, false, Option, none, some, List, [], ◌∷◌, filter, Error, wrap_error, Result,
  ok, err,
}
use milvus_operator.Api.Labels.{StringMap, get}
use milvus_operator.Deployment.{Pod, is_terminating}
use milvus_operator.Rollout.{Milvus}
use milvus_operator.Status.Server.{Server}

-- NewAppLabels of utils.go.
abbrev pub new_app_labels : String → StringMap
new_app_labels instance_name =
    ("app.kubernetes.io/instance", instance_name)
    ∷ ("app.kubernetes.io/name", "milvus")
    ∷ ("app.kubernetes.io/managed-by", "milvus-operator")
    ∷ []

unfoldable pub filter_terminating_pod : List Pod → List Pod
filter_terminating_pod pods = filter is_terminating pods

-- The last error stays.
abbrev pub latest : Option Error → Option Error → Option Error
latest ret none = ret
latest ret (some e) = some e

-- `if err != nil { return err }`, else the next step.
abbrev pub with_result : {A B W : Type 0} → Result A × W → (A → W → Result B × W) → Result B × W
with_result (err e, w) f = (err e, w)
with_result (ok a, w) f = f a w

module _ {W : Type 0} (srv : Server W) where
  unfoldable pub kill_each : List Pod → Option Error → W → Option Error × W
  kill_each [] ret w = (ret, w)
  kill_each (p ∷ ps) ret w = elim p.terminating [
    | false ↦ kill_each ps ret w
    | true ↦
        let (e, u) = srv.kill_process p (get "app.kubernetes.io/component" p.labels) w in
        kill_each ps (latest ret e) u
  ]

  unfoldable pub exec_kill_if_terminating : List Pod → W → Option Error × W
  unfolding kill_each
  exec_kill_if_terminating pods w =
      let (e, u) = kill_each pods none w in (wrap_error "failed to kill some milvus pod" e, u)

  unfoldable pub list_milvus_terminating_pods : Milvus → W → Result (List Pod) × W
  unfolding filter_terminating_pod
  list_milvus_terminating_pods m w =
      with_result (srv.list_pods (new_app_labels m.name) w)
        (λ pods u. (ok (filter_terminating_pod pods), u))

  abbrev pub not_stopped : Option Error × W → Result Bool × W
  not_stopped (none, w) = (ok false, w)
  not_stopped (some e, w) = (err e, w)

  -- Whether no pod is left; those that terminate are killed.
  abbrev pub kill_rest : List Pod → W → Result Bool × W
  kill_rest [] w = (ok true, w)
  kill_rest (p ∷ ps) w = not_stopped (exec_kill_if_terminating (p ∷ ps) w)

  unfoldable pub check_milvus_stopped : Milvus → W → Result Bool × W
  unfolding exec_kill_if_terminating
  check_milvus_stopped m w = with_result (srv.list_pods (new_app_labels m.name) w) kill_rest
