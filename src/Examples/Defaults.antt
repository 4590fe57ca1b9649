-- ===== src/Examples/Defaults.antt =====
-- A cluster whose components the webhook fills in.
use milvus_operator.Base.{
  String, Bool, true, false, true≢false, Option, some, ◌≡◌, refl, sym, ◌∙◌, err, Result, ok,
}
use milvus_operator.Base.Int.{pos}
use milvus_operator.Api.Spec.{
  ComponentKind, Component, component_or_groups_stopped, MilvusSpec, index_node,
  is_version_greater_than_2_6, is_image_version_greater_than_2_6, image_tag, use_mix_coord,
  use_streaming_node, use_cdc,
}
use milvus_operator.Api.Stopping.{
  nil_pointer, is_stopping, cluster_stopped, all_hold, replicas_are_zero, groups_are_zero,
}
use milvus_operator.Examples.{rolling_three}
use milvus_operator.Webhook.Defaults.{
  empty_component, default_components, default_settings, set_default_str, made_components, fill_all,
  fill, no_coord_specified_by_user, default_components_replicas, default_cluster_replicas, give,
  give_all, node_components,
}
use milvus_operator.Webhook.Defaults.Total.{default_components_twice}
use milvus_operator.Webhook.Defaults.Stops.{is_stopping-IsDefaulted}

abbrev never : String → Bool
never v = false

default_components_twice_example :
    (t : MilvusSpec) × ((default_components never "milvus:latest" rolling_three ≡ ok t)
      × (default_components never "milvus:latest" t ≡ ok t))
default_components_twice_example = default_components_twice never "milvus:latest" rolling_three

abbrev value : Result MilvusSpec → MilvusSpec
value (ok t) = t
value (err e) = rolling_three

abbrev defaulted : MilvusSpec
defaulted = value (default_components never "milvus:latest" rolling_three)

is_defaulted : default_components never "milvus:latest" rolling_three ≡ ok defaulted
unfolding default_components default_settings set_default_str made_components fill_all fill
    no_coord_specified_by_user use_mix_coord use_streaming_node is_version_greater_than_2_6
    is_image_version_greater_than_2_6 image_tag default_components_replicas default_cluster_replicas
    give give_all use_cdc node_components
is_defaulted = refl

not_newer : is_version_greater_than_2_6 never defaulted ≡ false
unfolding default_components default_settings set_default_str made_components fill_all fill
    no_coord_specified_by_user use_mix_coord use_streaming_node is_version_greater_than_2_6
    is_image_version_greater_than_2_6 image_tag default_components_replicas default_cluster_replicas
    give give_all use_cdc node_components
not_newer = refl

is_stopping-IsDefaulted_example : (b : Bool) × (is_stopping never defaulted ≡ ok b)
is_stopping-IsDefaulted_example =
    is_stopping-IsDefaulted never "milvus:latest" rolling_three defaulted is_defaulted
      (λ greater given. absurd (true≢false (sym greater ∙ not_newer)))

abbrev newest : String → Bool
newest v = true

-- After version 2.5, with all replicas at zero and an index node whose replicas are not given.
abbrev zero_or_index : ComponentKind → Option Component
zero_or_index k =
    let zero = record empty_component { replicas = some (pos 0) } in
    some (elim k [ index_node ↦ empty_component | _ ↦ zero ])

abbrev all_zero : MilvusSpec
all_zero = record rolling_three {
  components = record (rolling_three.components) { version = "v2.6.0"; field = zero_or_index };
}

abbrev zero_defaulted : MilvusSpec
zero_defaulted = value (default_components newest "milvus:latest" all_zero)

is_stopping-panics :
    (default_components newest "milvus:latest" all_zero ≡ ok zero_defaulted)
    × (is_stopping newest zero_defaulted ≡ err nil_pointer)
unfolding default_components default_settings set_default_str made_components fill_all fill
    no_coord_specified_by_user use_mix_coord use_streaming_node is_version_greater_than_2_6
    is_image_version_greater_than_2_6 image_tag default_components_replicas default_cluster_replicas
    give give_all use_cdc node_components is_stopping cluster_stopped all_hold replicas_are_zero
    groups_are_zero component_or_groups_stopped
is_stopping-panics = (refl, refl)
