-- ===== src/Deployment.antt =====
-- Deployments and pods of Kubernetes, as far as the operator reads and writes them, with
-- getDeployReplicas and int32Ptr (pkg/controllers/utils.go) and the pod lists of rollout_util.go.
use milvus_operator.Base.{
  ℕ, ◌-◌, ◌%◌, ◌^◌, ◌==◌, String, Bool, true, false, not, Option, none, some, List, [], ◌∷◌, ltb,
  length, filter, if◌then◌else◌,
}
use milvus_operator.Base.Int.{ℤ, pos, negsuc, ◌==ℤ◌, ltb_ℤ}
use milvus_operator.Api.Strategy.{DeploymentStrategy}
use milvus_operator.Api.Status.{ConditionStatus, holds, DeploymentStatus}
use milvus_operator.Api.Labels.{StringMap}

-- Resource limits: a resource's name and its `Quantity.String()`.
pub record Container : Type 0 where
  pub name : String
  pub image : String
  pub limits : StringMap

-- `rest` is everything else in the template, which the operator compares as a whole.
pub record PodTemplate : Type 0 where
  pub labels : StringMap
  pub containers : List Container
  pub rest : String

pub record Deployment : Type 0 where
  pub name : String
  pub generation : ℕ
  pub labels : StringMap
  pub annotations : StringMap
  pub selector : StringMap
  pub paused : Bool
  pub replicas : Option ℤ
  pub strategy : DeploymentStrategy
  pub template : PodTemplate
  pub status : DeploymentStatus

pub data PodPhase : Type 0 where
  pending running succeeded failed phase_unknown : PodPhase

pub data PodConditionType : Type 0 where
  pod_ready pod_other : PodConditionType

pub record PodCondition : Type 0 where
  pub type : PodConditionType
  pub status : ConditionStatus

pub record Pod : Type 0 where
  pub labels : StringMap
  pub terminating : Bool
  pub phase : PodPhase
  pub reason : String
  pub conditions : List PodCondition

unfoldable pub get_deploy_replicas : Deployment → ℤ
get_deploy_replicas d = elim d.replicas [ none ↦ pos 1 | some r ↦ r ]

-- The conversion `int32(i)`, with its wrap-around.
abbrev pub wrap_pos : ℕ → ℤ
wrap_pos m = if ltb m (2 ^ 31) then pos m else negsuc (2 ^ 32 - m - 1)

abbrev pub wrap_neg : ℕ → ℤ
wrap_neg m = if ltb m (2 ^ 31) then negsuc m else pos (2 ^ 32 - m - 1)

unfoldable pub to_int32 : ℤ → ℤ
to_int32 (pos n) = wrap_pos (n % 2 ^ 32)
to_int32 (negsuc n) = wrap_neg (n % 2 ^ 32)

abbrev pub is_running : Pod → Bool
is_running p = elim p.phase [ running ↦ true | _ ↦ false ]

abbrev pub is_terminating : Pod → Bool
is_terminating p = p.terminating

unfoldable pub get_terminating_pods : List Pod → List Pod
get_terminating_pods ps = filter is_terminating ps

-- A pod that is not running counts once, a running pod once for each readiness condition that does
-- not hold.
abbrev pub unready : PodCondition → Bool
unready c = elim c.type [ pod_ready ↦ not (holds c.status) | pod_other ↦ false ]

unfoldable pub unready_times : List PodCondition → Pod → List Pod → List Pod
unready_times [] p rest = rest
unready_times (c ∷ cs) p rest =
    let more = unready_times cs p rest in if unready c then p ∷ more else more

unfoldable pub get_not_ready_pods : List Pod → List Pod
unfolding unready_times
get_not_ready_pods [] = []
get_not_ready_pods (p ∷ ps) =
    let rest = get_not_ready_pods ps in
    if is_running p then unready_times p.conditions p rest else p ∷ rest

-- The index of the first condition that fails, `none` if all hold: `logicAnd`.
unfoldable pub logic_and : List Bool → ℕ → Option ℕ
logic_and [] i = none
logic_and (b ∷ bs) i = let rest = logic_and bs (Prim.Native.Nat.suc i) in if b then rest else some i

-- The failed condition of `DeploymentIsStable`, `none` for a stable deployment.
unfoldable pub deployment_is_stable : Deployment → List Pod → Option ℕ
unfolding get_terminating_pods get_not_ready_pods get_deploy_replicas logic_and
deployment_is_stable d pods =
    let replicas = get_deploy_replicas d in
    let st = d.status in
    logic_and
      ((length (get_terminating_pods pods) == 0)
        ∷ (length (get_not_ready_pods pods) == 0)
        ∷ (pos (length pods) ==ℤ replicas)
        ∷ (st.observed_generation == d.generation)
        ∷ (to_int32 replicas ==ℤ st.replicas)
        ∷ (st.replicas ==ℤ st.updated_replicas)
        ∷ (st.replicas ==ℤ st.available_replicas)
        ∷ (st.replicas ==ℤ st.ready_replicas)
        ∷ ltb_ℤ st.unavailable_replicas (pos 1)
        ∷ [])
      0
