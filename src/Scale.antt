-- ===== src/Scale.antt =====
-- The scaling plans of a two-deployment rollout: the planScaleFor… methods, checkScaleKind,
-- planNextScaleAction and doScaleAction's arithmetic in pkg/controllers/deploy_ctrl_util.go.
pub mod Steps
pub mod Rounds
pub mod Bounds
pub mod Force
pub mod Autoscaling
pub mod Convergence
use milvus_operator.Base.{
  ℕ, String, Bool, true, false, not, ◌&&◌, ◌||◌, Option, none, some, List, [], ◌∷◌, ◌==◌, length,
  all, lookup, insert, str_eq, if◌then◌else◌,
}
use milvus_operator.Base.Int.{ℤ, pos, negsuc, ◌+ℤ◌, ◌-ℤ◌, neg, ltb_ℤ, leb_ℤ, ◌==ℤ◌, min_ℤ, max_ℤ}
use milvus_operator.Api.Spec.{ComponentKind, HpaSpec, MilvusSpec, is_force}
use milvus_operator.Api.Labels.{StringMap}
use milvus_operator.Component.{
  MilvusComponent, get_replicas, get_hpa_spec, is_hpa_enabled, replicas_value,
}
use milvus_operator.Strategy.{Scaling, rollout_steps, get_deployment_strategy}
use milvus_operator.Deployment.{Container, Deployment, get_deploy_replicas, to_int32}

pub data Target : Type 0 where
  current_deploy last_deploy : Target

-- `none` is the nil deployment of noScaleAction.
pub record ScaleAction : Type 0 where
  pub deploy : Option Target
  pub replica_change : ℤ

abbrev pub no_scale_action : ScaleAction
no_scale_action = record { deploy = none; replica_change = pos 0 }

abbrev pub scale : Target → ℤ → ScaleAction
scale t change = record { deploy = some t; replica_change = change }

pub data ScaleKind : Type 0 where
  normal rollout hpa external_hpa force_upgrade : ScaleKind

unfoldable pub expected_replicas : MilvusComponent → MilvusSpec → ℤ
unfolding get_replicas
expected_replicas c spec = replicas_value (get_replicas c spec)

unfoldable pub check_scale_kind : MilvusComponent → MilvusSpec → Deployment → ScaleKind
unfolding is_hpa_enabled expected_replicas get_deploy_replicas
check_scale_kind c spec last =
    if is_force spec.components.image_update_mode
    then force_upgrade
    else if is_hpa_enabled c spec
    then hpa
    else if ltb_ℤ (expected_replicas c spec) (pos 0)
    then external_hpa
    else if ltb_ℤ (pos 0) (get_deploy_replicas last)
    then rollout
    else normal

unfoldable pub force_action : ℤ → ℤ → ℤ → ScaleAction
force_action expected current last =
    if not (current ==ℤ expected)
    then scale current_deploy (expected -ℤ current)
    else if not (last ==ℤ pos 0)
    then scale last_deploy (neg last)
    else no_scale_action

abbrev pub min_replicas_or_one : Option HpaSpec → ℤ
min_replicas_or_one none = pos 1
min_replicas_or_one (some h) = elim h.min_replicas [ none ↦ pos 1 | some m ↦ m ]

unfoldable pub hpa_action : ℤ → ℤ → ℤ → ℤ → ScaleAction
hpa_action minimum ready current last =
    let target = if ltb_ℤ minimum last then last else minimum in
    if ltb_ℤ (pos 0) last
    then if ltb_ℤ current target
      then scale current_deploy (target -ℤ current)
      else if ltb_ℤ ready target
      then no_scale_action
      else scale last_deploy (negsuc 0)
    else if current ==ℤ pos 0
    then scale current_deploy minimum
    else no_scale_action

unfoldable pub external_hpa_action : Bool → ℤ → ℤ → ℤ → ScaleAction
external_hpa_action is_rolling ready current last =
    if current ==ℤ pos 0 && last ==ℤ pos 0
    then scale current_deploy (pos 1)
    else if ltb_ℤ (to_int32 current) (to_int32 last)
    then scale current_deploy (last -ℤ current)
    else if (is_rolling && ltb_ℤ (pos 0) last) && leb_ℤ (to_int32 last) ready
    then scale last_deploy (neg last)
    else no_scale_action

-- The limits of each container by name, a later container of the same name replacing an earlier.
unfoldable pub limits_by_name : List Container → List (String × StringMap)
limits_by_name [] = []
limits_by_name (c ∷ cs) =
    let rest = limits_by_name cs in
    elim (lookup c.name rest) [ none ↦ insert c.name c.limits rest | some later ↦ rest ]

abbrev pub same_quantity : Option String → String → Bool
same_quantity none q = false
same_quantity (some p) q = str_eq q p

unfoldable pub limit_list_equal : StringMap → StringMap → Bool
limit_list_equal current last =
    length current == length last
    && all (λ entry. same_quantity (lookup entry.0 last) entry.1) current

abbrev pub same_limits : Option StringMap → StringMap → Bool
same_limits none current = false
same_limits (some last) current = limit_list_equal current last

unfoldable pub compare_deploy_resource_limit_equal : Deployment → Deployment → Bool
unfolding limits_by_name limit_list_equal
compare_deploy_resource_limit_equal current last =
    let currents = limits_by_name current.template.containers in
    let lasts = limits_by_name last.template.containers in
    length currents == length lasts
    && all (λ entry. same_limits (lookup entry.0 lasts) entry.1) currents

-- The branch of planScaleForRollout with no surge.
unfoldable pub no_surge_action : ℤ → ℤ → ℤ → ℤ → ℤ → ℤ → ScaleAction
no_surge_action expected unavailable current last current_available last_available =
    let total = last +ℤ current in
    let available = min_ℤ current_available current +ℤ min_ℤ last_available last in
    let down = min_ℤ last (available -ℤ max_ℤ (pos 0) (expected -ℤ unavailable)) in
    if ltb_ℤ total expected
    then scale current_deploy (expected -ℤ total)
    else if ltb_ℤ (pos 0) down
    then scale last_deploy (neg down)
    else no_scale_action

abbrev pub scale_in_last : ℤ → ℤ → ScaleAction
scale_in_last unavailable last = scale last_deploy (neg (min_ℤ (max_ℤ (pos 1) unavailable) last))

-- The branch of planScaleForRollout with a surge and unchanged resource limits.
unfoldable pub equal_limits_action : ℤ → ℤ → ℤ → ℤ → ℤ → ScaleAction
equal_limits_action expected surge unavailable current last =
    let total = last +ℤ current in
    let out =
      scale current_deploy
        (min_ℤ surge (min_ℤ (expected -ℤ current) (expected +ℤ surge -ℤ total))) in
    if total ==ℤ expected
    then if last ==ℤ pos 0 then no_scale_action else out
    else if ltb_ℤ expected total
    then if ltb_ℤ (pos 0) last then scale_in_last unavailable last else no_scale_action
    else out

-- The branch of planScaleForRollout with a surge and changed resource limits.
unfoldable pub changed_limits_action : ℤ → ℤ → ℤ → ℤ → ScaleAction
changed_limits_action expected unavailable current last =
    if ltb_ℤ (pos 0) last
    then if ltb_ℤ current last || ltb_ℤ current expected
      then if ltb_ℤ last expected
        then scale current_deploy (expected -ℤ current)
        else scale current_deploy (last -ℤ current)
      else scale_in_last unavailable last
    else if ltb_ℤ expected current
    then scale current_deploy (neg (min_ℤ (max_ℤ (pos 1) unavailable) (current -ℤ expected)))
    else if ltb_ℤ current expected
    then scale current_deploy (expected -ℤ current)
    else no_scale_action

unfoldable pub normal_action : ℤ → ℤ → ScaleAction
normal_action expected current =
    if ltb_ℤ expected current
    then scale current_deploy (negsuc 0)
    else if current ==ℤ expected
    then no_scale_action
    else scale current_deploy (expected -ℤ current)

module _ (s : Scaling) where
  unfoldable pub plan_scale_for_rollout :
      MilvusComponent → MilvusSpec → Deployment → Deployment → ScaleAction
  unfolding get_deploy_replicas
  plan_scale_for_rollout c spec current last =
      let cur = get_deploy_replicas current in
      let old = get_deploy_replicas last in
      let expected = expected_replicas c spec in
      let (surge, unavailable) = rollout_steps s current.strategy expected in
      if surge ==ℤ pos 0
      then no_surge_action expected unavailable cur old current.status.available_replicas
          last.status.available_replicas
      else if compare_deploy_resource_limit_equal current last
      then equal_limits_action expected surge unavailable cur old
      else changed_limits_action expected unavailable cur old

  abbrev pub plan_by_kind :
      ScaleKind → Bool → MilvusComponent → MilvusSpec → Deployment → Deployment → ScaleAction
  plan_by_kind hpa rolling c spec current last =
      hpa_action (min_replicas_or_one (get_hpa_spec c spec)) current.status.ready_replicas
        (get_deploy_replicas current) (get_deploy_replicas last)
  plan_by_kind external_hpa rolling c spec current last =
      external_hpa_action rolling current.status.ready_replicas (get_deploy_replicas current)
        (get_deploy_replicas last)
  plan_by_kind rollout rolling c spec current last = plan_scale_for_rollout c spec current last
  plan_by_kind force_upgrade rolling c spec current last =
      force_action (expected_replicas c spec) (get_deploy_replicas current)
        (get_deploy_replicas last)
  plan_by_kind normal rolling c spec current last =
      normal_action (expected_replicas c spec) (get_deploy_replicas current)

  -- The planner first gives both deployments the strategy of the spec.
  abbrev pub with_strategy :
      (ComponentKind → Bool) → MilvusComponent → MilvusSpec → Deployment → Deployment
  with_strategy stand_by c spec d = record d { strategy = get_deployment_strategy stand_by spec c }

  -- `rolling` is IsComponentRolling.
  unfoldable pub plan_next_scale_action :
      (ComponentKind → Bool)
      → Bool
      → MilvusComponent
      → MilvusSpec
      → Deployment
      → Deployment
      → ScaleAction
  unfolding get_deploy_replicas
  plan_next_scale_action stand_by rolling c spec current last =
      plan_by_kind (check_scale_kind c spec last) rolling c spec
        (with_strategy stand_by c spec current) (with_strategy stand_by c spec last)

abbrev pub add_replicas : Deployment → ℤ → Deployment
add_replicas d change = record d { replicas = some (to_int32 (get_deploy_replicas d +ℤ change)) }

-- doScaleAction's write: the two deployments, of which the one that the action names is stored.
unfoldable pub apply_action : ScaleAction → Deployment → Deployment → Deployment × Deployment
unfolding get_deploy_replicas
apply_action a current last =
    if a.replica_change ==ℤ pos 0 then (current, last) else elim a.deploy [
      | none ↦ (current, last)
      | some t ↦ elim t [
        | current_deploy ↦ (add_replicas current a.replica_change, last)
        | last_deploy ↦ (current, add_replicas last a.replica_change)
      ]
    ]
