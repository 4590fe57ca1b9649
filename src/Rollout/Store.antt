-- ===== src/Rollout/Store.antt =====
-- Reading and writing the two deployments: K8sUtilImpl of pkg/controllers/rollout_util.go, and
-- GetDeploys and CreateDeploy of deploy_ctrl_util.go.
use Prim.Native.String.{◌++◌}
use milvus_operator.Base.{
  String, Bool, true, false, not, ◌&&◌, Option, none, some, List, [], ◌∷◌, ltb, length, filter,
  str_eq, if◌then◌else◌, not_found, no_last_deployment, api_not_found, errorf, Result, ok, err,
  wrapped_value,
}
use milvus_operator.Api.Spec.{Component}
use milvus_operator.Deployment.{Container, Deployment, Pod}
use milvus_operator.Component.{MilvusComponent, kind_name, get_state_key}
use milvus_operator.Rollout.{Milvus, get_label_group_id, get_current_group_id}
use milvus_operator.Rollout.Metadata.{get_selector_labels, matches_deployment_group}
use milvus_operator.Rollout.Server.{Server, Library, Job}

-- A deployment of the component and its group that a rollout owns, and one that it does not.
unfoldable pub is_slot : MilvusComponent → Deployment → Bool
unfolding matches_deployment_group get_label_group_id kind_name
is_slot c d =
    matches_deployment_group c d.labels
    && not (str_eq (get_label_group_id (kind_name c.kind) d.labels) "")

unfoldable pub is_old : MilvusComponent → Deployment → Bool
unfolding matches_deployment_group get_label_group_id kind_name
is_old c d =
    matches_deployment_group c d.labels
    && str_eq (get_label_group_id (kind_name c.kind) d.labels) ""

abbrev pub not_evicted : Pod → Bool
not_evicted p = not (str_eq p.reason "Evicted")

-- Set the image of the first container, of which a rendered template has one.
abbrev pub set_image : String → List Container → List Container
set_image image [] = []
set_image image (c ∷ cs) = record c { image = image } ∷ cs

-- The `Paused` of the component's spec, merged with that of the whole instance. A missing component
-- counts as not paused: the controller meets none.
abbrev pub component_paused : Option Component → Bool
component_paused none = false
component_paused (some f) = f.paused

unfoldable pub merged_paused : MilvusComponent → Milvus → Bool
merged_paused c m =
    if component_paused (m.spec.components.field c.kind) then true else m.spec.components.paused

unfoldable pub dummy_image : Milvus → String
dummy_image m =
    if str_eq m.spec.components.dummy_image "" then "dummy" else m.spec.components.dummy_image

-- GetDeploymentName.
unfoldable pub get_deployment_name : MilvusComponent → String → String
unfolding kind_name
get_deployment_name c instance_name =
    let name = instance_name ++ ("-milvus-" ++ kind_name c.kind) in
    elim c.group [ none ↦ name | some g ↦ name ++ ("-" ++ g.name) ]

module _ (lib : Library) (c : MilvusComponent) where
  unfoldable pub state_key : String
  unfolding get_state_key
  state_key = get_state_key lib.hash c

  unfoldable pub component_deploy_is_current_group : Milvus → Deployment → Bool
  unfolding get_label_group_id get_current_group_id state_key kind_name
  component_deploy_is_current_group m d =
      str_eq (get_label_group_id (kind_name c.kind) d.labels) (get_current_group_id m state_key)

  -- The loop over the items, with the current and the last deployment found so far.
  unfoldable pub sort_slots :
      Milvus
      → List Deployment
      → Option Deployment
      → Option Deployment
      → Result (Option Deployment × Option Deployment)
  unfolding component_deploy_is_current_group
  sort_slots m [] current last = ok (current, last)
  sort_slots m (d ∷ ds) current last =
      let as_current = sort_slots m ds (some d) last in
      let as_last = sort_slots m ds current (some d) in
      if component_deploy_is_current_group m d
      then elim current [ none ↦ as_current | some e ↦ err (errorf "more than 1 current") ]
      else as_last

  abbrev pub chosen :
      Milvus → Option Deployment × Option Deployment → Result (Deployment × Deployment)
  chosen m (none, last) = err (errorf "no deployment is for current group id")
  chosen m (some d, some e) = ok (d, e)
  chosen m (some d, none) =
      if not (str_eq (get_current_group_id m state_key) "0")
      then err (errorf "first deployment is not for group 0")
      else err no_last_deployment

  abbrev pub choose_sorted :
      Milvus → Result (Option Deployment × Option Deployment) → Result (Deployment × Deployment)
  choose_sorted m (err e) = err e
  choose_sorted m (ok p) = chosen m p

  -- GetDeploys on the items that are the component's.
  unfoldable pub choose_deploys : Milvus → List Deployment → Result (Deployment × Deployment)
  unfolding sort_slots get_current_group_id state_key
  choose_deploys m items =
      if ltb 2 (length items)
      then err (errorf "more than 2 deployments")
      else if ltb (length items) 1
      then err not_found
      else choose_sorted m (sort_slots m items none none)

  -- GetOldDeploy on the items that no rollout owns.
  unfoldable pub choose_old_deploy : List Deployment → Result Deployment
  choose_old_deploy [] = err api_not_found
  choose_old_deploy (d ∷ []) = ok d
  choose_old_deploy (d ∷ e ∷ ds) = err (errorf "more than 1 old deployment")

  module _ {W : Type 0} (srv : Server W) where
    abbrev pub listed_deployments : Job W → Result (List Deployment) × Job W
    listed_deployments j =
        let (r, w) = srv.list_deployments (get_selector_labels c j.milvus.name) j.world in
        (r, record j { world = w })

    abbrev pub then_choose :
        {A : Type 0} {B : Type 0} → Result A × Job W → (A → Result B) → Result B × Job W
    then_choose (err e, j) f = (err e, j)
    then_choose (ok ds, j) f = (f ds, j)

    unfoldable pub get_deploys : Job W → Result (Deployment × Deployment) × Job W
    unfolding is_slot choose_deploys get_selector_labels
    get_deploys j =
        then_choose (wrapped_value "list querynode deployments" (listed_deployments j))
          (λ ds. choose_deploys j.milvus (filter (is_slot c) ds))

    unfoldable pub get_old_deploy : Job W → Result Deployment × Job W
    unfolding is_old choose_old_deploy get_selector_labels
    get_old_deploy j =
        then_choose (wrapped_value "list %s deployments" (listed_deployments j))
          (λ ds. choose_old_deploy (filter (is_old c) ds))

    unfoldable pub list_deploy_pods : Deployment → Job W → Result (List Pod) × Job W
    list_deploy_pods d j =
        let (r, w) = srv.list_pods d.selector j.world in
        then_choose (wrapped_value "list pods" (r, record j { world = w }))
          (λ pods. ok (filter not_evicted pods))
