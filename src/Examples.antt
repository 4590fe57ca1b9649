-- ===== src/Examples.antt =====
-- Concrete inputs at which the theorems of the library apply.
pub mod Upgrades
pub mod Conditions
pub mod Rollouts
pub mod Probing
pub mod Merges
pub mod Statuses
pub mod Sets
pub mod Defaults
pub mod Autoscaled
use Prim.Native.String.{String}
use milvus_operator.Base.{
  ℕ, zero, suc, ◌+◌, ◌*◌, ◌/◌, ◌≤◌, ◌<◌, ◌^◌, max, Bool, true, false, Option, none, some, List, [],
  ◌∷◌, ◌≡◌, refl, sym, ap, map, inl, inr, arith, if◌then◌else◌, str_eq, Error, errorf, Result, ok,
  err, Option-cases,
}
use milvus_operator.Base.Int.{ℤ, pos, negsuc, ◌<ℤ◌, ◌≤ℤ◌, min_ℤ, max_ℤ}
use milvus_operator.Api.Strategy.{IntOrString, int, str, other, RollingUpdate, rolling}
use milvus_operator.Api.Spec.{
  ComponentKind, query_node, data_node, proxy, rolling_downgrade, Component, MilvusSpec,
  ImageUpdateMode, rolling_upgrade, force, RollingMode, v2, cluster, is_set,
}
use milvus_operator.Api.Status.{DeploymentStatus}
use milvus_operator.Component.{
  MilvusComponent, plain, kind_eq, set_field, get_replicas, set_replicas, expand,
}
use milvus_operator.Strategy.{Scaling, ScalingLaws, validate_rolling_updates}
use milvus_operator.Deployment.{Deployment, PodPhase, get_deploy_replicas}
use milvus_operator.Strategy.{get_deployment_strategy, rollout_steps, validate_rolling_update}
use milvus_operator.Strategy.Progress.{HasStep}
use milvus_operator.Strategy.Admission.{admitted-HasStep}
use milvus_operator.Component.{is_hpa_enabled}
use milvus_operator.Component.Dependencies.{has, get_dependencies, with_mode}
use milvus_operator.Component.Dependencies.Reverse.{get_dependencies-reverse}
use milvus_operator.Scale.{
  expected_replicas, plan_scale_for_rollout, compare_deploy_resource_limit_equal, hpa_action,
}
use milvus_operator.Scale.Steps.{distance, after}
use milvus_operator.Scale.Rounds.{Counts, scale_round, scale_rounds}
use milvus_operator.Scale.Bounds.{
  WithinSurge, WithinBudget, plan_scale_for_rollout-WithinSurge,
  plan_scale_for_rollout-WithinBudget,
}
use milvus_operator.Scale.Convergence.{rollout_converges}
use milvus_operator.Scale.Force.{force_converges, force_stores_negative}
use milvus_operator.Upgrade.Replicas.{
  no_replicas, replicas_or_none, record_components, stop_components, restore_components,
}
use milvus_operator.Upgrade.RoundTrip.{restore-stop}

-- Three percentages, all other texts being none.
abbrev percent : String → Option ℕ
percent t =
    if str_eq t "100%"
    then some 100
    else if str_eq t "25%"
    then some 25
    else if str_eq t "0%"
    then some 0
    else none

abbrev share : Bool → ℕ → Option ℕ → Option ℤ
share up n none = none
share true n (some p) = some (pos ((p * n + 99) / 100))
share false n (some p) = some (pos (p * n / 100))

abbrev scale_value : IntOrString → ℤ → Bool → Option ℤ
scale_value (int v) total up = some v
scale_value (str t) (pos n) up = share up n (percent t)
scale_value (str t) (negsuc n) up = none
scale_value (other n) total up = none

abbrev pub scaling : Scaling
scaling = record { scaled = scale_value; is_valid_percent = λ t. is_set (percent t) }

share_whole : (o : Option ℕ) (p : ℕ) → share false 100 o ≡ some (pos p) → o ≡ some p
share_whole none p h = ground arith
share_whole (some q) p h = ground arith

scaling-laws : ScalingLaws scaling
scaling-laws = record {
  int_value = λ v total up. refl;
  percent_up = λ t p n h. ap (share true n) (share_whole (percent t) p h);
  percent_down = λ t p n h. ap (share false n) (share_whole (percent t) p h);
  hundred = refl;
}

abbrev pub query_nodes : Option ℤ → Component
query_nodes r = record {
  paused = false;
  rolling_update = none;
  replicas = r;
  hpa = none;
  groups = [];
  stateful_set = false;
}

abbrev pub quarter_surge : RollingUpdate
quarter_surge = record { max_surge = some (str "25%"); max_unavailable = some (int (pos 0)) }

abbrev no_surge : RollingUpdate
no_surge = record { max_surge = some (int (pos 0)); max_unavailable = some (int (pos 1)) }

abbrev cluster_of : Option ℤ → ImageUpdateMode → RollingUpdate → MilvusSpec
cluster_of r mode ru = record {
  mode = cluster;
  components = record {
    paused = false;
    image = "milvus:v2.5.1";
    dummy_image = "";
    version = "";
    rolling_update = some ru;
    image_update_mode = mode;
    enable_rolling_update = some true;
    rolling_mode = v2;
    enable_manual_mode = false;
    streaming_mode = none;
    field = λ k. if kind_eq query_node k then some (query_nodes r) else none;
  };
}

abbrev status_of : ℤ → DeploymentStatus
status_of r = record {
  observed_generation = 1;
  replicas = r;
  updated_replicas = r;
  ready_replicas = r;
  available_replicas = r;
  unavailable_replicas = pos 0;
  conditions = [];
}

abbrev pub deployment_of : RollingUpdate → ℤ → Deployment
deployment_of ru r = record {
  name = "querynode";
  generation = 1;
  labels = [];
  annotations = [];
  selector = [];
  paused = false;
  replicas = some r;
  strategy = rolling (some ru);
  template = record { labels = []; containers = []; rest = "" };
  status = status_of r;
}

abbrev pub never : ComponentKind → Bool
never k = false

abbrev pub three : Option ℤ
three = some (pos 3)

abbrev pub rolling_three : MilvusSpec
rolling_three = cluster_of three rolling_upgrade quarter_surge

abbrev forced : RollingUpdate → Option ℤ → MilvusSpec
forced ru r = cluster_of r force ru

rolling_three-admitted : validate_rolling_updates scaling rolling_three ≡ []
unfolding validate_rolling_updates validate_rolling_update
rolling_three-admitted = refl

distance_three : distance 3 0 3 ≤ 9
unfolding distance
distance_three = omega arith

-- Three query nodes, with a quarter of surge.
rollout_converges_example :
    Counts
      (scale_rounds scaling never true
        (plain query_node)
        rolling_three
        9
        (deployment_of quarter_surge (pos 0), deployment_of quarter_surge (pos 3)))
      3
      0
unfolding get_deploy_replicas expected_replicas is_hpa_enabled
rollout_converges_example =
    rollout_converges scaling scaling-laws never true (plain query_node) (query_nodes three)
      rolling_three 2 0 3 9
      (deployment_of quarter_surge (pos 0), deployment_of quarter_surge (pos 3))
      rolling_three-admitted refl refl refl refl (refl, refl) (omega arith) distance_three

plan_scale_for_rollout-WithinSurge_example : WithinSurge 3 1 0 3 (
    after
      (plan_scale_for_rollout scaling
        (plain query_node)
        rolling_three
        (deployment_of quarter_surge (pos 0))
        (deployment_of quarter_surge (pos 3)))
      (pos 0)
      (pos 3))
unfolding get_deploy_replicas expected_replicas rollout_steps compare_deploy_resource_limit_equal
    min_ℤ max_ℤ
plan_scale_for_rollout-WithinSurge_example =
    plan_scale_for_rollout-WithinSurge scaling (plain query_node) rolling_three
      (deployment_of quarter_surge (pos 0)) (deployment_of quarter_surge (pos 3)) 3 0 0 0 2 refl
      refl refl (refl, refl)

plan_scale_for_rollout-WithinBudget_example : WithinBudget 3 1 0 3 3 (
    after
      (plan_scale_for_rollout scaling
        (plain query_node)
        rolling_three
        (deployment_of no_surge (pos 0))
        (deployment_of no_surge (pos 3)))
      (pos 0)
      (pos 3))
unfolding get_deploy_replicas expected_replicas rollout_steps min_ℤ max_ℤ
plan_scale_for_rollout-WithinBudget_example =
    plan_scale_for_rollout-WithinBudget scaling (plain query_node) rolling_three
      (deployment_of no_surge (pos 0)) (deployment_of no_surge (pos 3)) 3 1 0 2 0 3 refl refl
      (omega arith) (refl, refl) refl refl

admitted-HasStep_example :
    HasStep (
      rollout_steps scaling
        (get_deployment_strategy never rolling_three (plain query_node))
        (pos 3))
admitted-HasStep_example =
    admitted-HasStep scaling scaling-laws never rolling_three (plain query_node) (query_nodes three)
      2 rolling_three-admitted refl

force_converges_example :
    Counts
      (scale_rounds scaling never true
        (plain query_node)
        (forced quarter_surge three)
        2
        (deployment_of quarter_surge (pos 0), deployment_of quarter_surge (pos 5)))
      3
      0
unfolding get_deploy_replicas expected_replicas
force_converges_example =
    force_converges scaling never true (plain query_node) (forced quarter_surge three) 3 0 5 0
      (deployment_of quarter_surge (pos 0), deployment_of quarter_surge (pos 5)) refl refl
      (refl, refl) (omega arith)

force_stores_negative_example :
    get_deploy_replicas
      (scale_round scaling never true
        (plain query_node)
        (forced quarter_surge (some (negsuc 0)))
        (deployment_of quarter_surge (pos 2), deployment_of quarter_surge (pos 4))).0
    ≡ negsuc 0
unfolding get_deploy_replicas expected_replicas
force_stores_negative_example =
    force_stores_negative scaling never true (plain query_node)
      (forced quarter_surge (some (negsuc 0))) 2 4
      (deployment_of quarter_surge (pos 2), deployment_of quarter_surge (pos 4)) refl refl
      (refl, refl)

restore-stop_example :
    let recorded =
      record_components rolling_three true true
        (map plain (query_node ∷ []))
        (some no_replicas)
        (some []) in
    let stopped = stop_components (map plain (query_node ∷ [])) rolling_three in
    let restored =
      restore_components
        (replicas_or_none recorded.0)
        recorded.1
        (map plain (query_node ∷ []))
        stopped in
    (get_replicas (plain query_node) stopped ≡ some (pos 0))
    × (restored.0 ≡ none)
    × (get_replicas (plain query_node) restored.1 ≡ some (pos 3))
unfolding get_replicas
restore-stop_example =
    restore-stop rolling_three (query_node ∷ []) query_node 3 refl refl refl (omega arith)

get_dependencies-reverse_example :
    has proxy
      (get_dependencies (λ v. false) (with_mode rolling_downgrade rolling_three) (plain data_node))
    ≡ has data_node
        (get_dependencies (λ v. false) (with_mode rolling_upgrade rolling_three) (plain proxy))
get_dependencies-reverse_example =
    get_dependencies-reverse (λ v. false) rolling_three (plain proxy) (plain data_node)
