-- ===== src/Rollout/Metadata.antt =====
-- Labels and annotations of a component's deployments: pkg/controllers/utils.go, components.go and
-- the head of deployment_updater.go. The maps are association lists.
use text.Mathlib.Text.{starts_with}
use milvus_operator.Base.{
  String, Bool, Option, none, some, List, [], ◌∷◌, lookup, insert, str_eq, any, if◌then◌else◌,
  is_some,
}
use milvus_operator.Api.Labels.{StringMap, get, component_group_id_label}
use milvus_operator.Api.Spec.{DeploymentGroup}
use milvus_operator.Component.{MilvusComponent, kind_name, get_deployment_group_name}

unfoldable pub new_component_app_labels : String → String → StringMap
new_component_app_labels instance_name component =
    ("app.kubernetes.io/instance", instance_name)
    ∷ ("app.kubernetes.io/component", component)
    ∷ ("app.kubernetes.io/name", "milvus")
    ∷ ("app.kubernetes.io/managed-by", "milvus-operator")
    ∷ []

abbrev pub deployment_group_label : String
deployment_group_label = "milvus.io/deployment-group"

unfoldable pub get_selector_labels : MilvusComponent → String → StringMap
unfolding kind_name new_component_app_labels
get_selector_labels c instance_name =
    let labels = new_component_app_labels instance_name (kind_name c.kind) in
    elim c.group [ none ↦ labels | some g ↦ insert deployment_group_label g.name labels ]

unfoldable pub matches_deployment_group : MilvusComponent → StringMap → Bool
unfolding get_deployment_group_name
matches_deployment_group c labels =
    str_eq (get deployment_group_label labels) (get_deployment_group_name c)

-- `lb[k] = v` for each entry.
unfoldable pub put_all : StringMap → StringMap → StringMap
put_all [] into = into
put_all ((key, value) ∷ rest) into = put_all rest (insert key value into)

unfoldable pub merge_onto : List StringMap → StringMap → StringMap
unfolding put_all
merge_onto [] into = into
merge_onto (m ∷ ms) into = merge_onto ms (put_all m into)

-- MergeLabels, which is MergeAnnotations too.
unfoldable pub merge_labels : List StringMap → StringMap
unfolding merge_onto
merge_labels ms = merge_onto ms []

abbrev pub preserved_metadata_prefixes : List String
preserved_metadata_prefixes =
    "kubectl.kubernetes.io/" ∷ "milvus.io/" ∷ "deployment.kubernetes.io/" ∷ []

unfoldable pub is_preserved : String → Bool
is_preserved key = any (λ prefix. starts_with key prefix) preserved_metadata_prefixes

-- An entry of `existing` is kept if its prefix is preserved and `result` has no such key yet.
unfoldable pub keep_entry : String → String → StringMap → StringMap
unfolding is_preserved
keep_entry key value result =
    if is_some (lookup key result)
    then result
    else if is_preserved key
    then insert key value result
    else result

unfoldable pub keep_prefixed : StringMap → StringMap → StringMap
unfolding keep_entry
keep_prefixed [] result = result
keep_prefixed ((key, value) ∷ rest) result = keep_prefixed rest (keep_entry key value result)

unfoldable pub preserve_existing_metadata_prefixes : StringMap → StringMap → StringMap
unfolding merge_labels keep_prefixed
preserve_existing_metadata_prefixes desired existing =
    keep_prefixed existing (merge_labels (desired ∷ []))

unfoldable pub keep_keys : StringMap → List String → StringMap → StringMap
keep_keys existing [] result = result
keep_keys existing (key ∷ rest) result =
    let next =
      if is_some (lookup key result)
      then result
      else elim (lookup key existing) [ none ↦ result | some v ↦ insert key v result ] in
    keep_keys existing rest next

unfoldable pub preserve_existing_metadata_keys : StringMap → StringMap → List String → StringMap
unfolding merge_labels keep_keys
preserve_existing_metadata_keys desired existing keys =
    keep_keys existing keys (merge_labels (desired ∷ []))

abbrev pub group_labels : Option DeploymentGroup → StringMap → StringMap
group_labels none labels = labels
group_labels (some g) labels = merge_labels (g.labels ∷ labels ∷ [])

unfoldable pub desired_deployment_labels : String → MilvusComponent → String → StringMap → StringMap
unfolding get_selector_labels preserve_existing_metadata_prefixes merge_labels kind_name
desired_deployment_labels instance_name c rollout_slot existing =
    let own = group_labels c.group (get_selector_labels c instance_name) in
    let labels = preserve_existing_metadata_prefixes own existing in
    if str_eq rollout_slot ""
    then labels
    else insert (component_group_id_label (kind_name c.kind)) rollout_slot labels

unfoldable pub desired_deployment_annotations : MilvusComponent → StringMap → StringMap
unfolding preserve_existing_metadata_prefixes merge_labels
desired_deployment_annotations c existing = elim c.group [
  | none ↦ merge_labels (existing ∷ [])
  | some g ↦ preserve_existing_metadata_prefixes g.annotations existing
]
