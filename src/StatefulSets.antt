-- ===== src/StatefulSets.antt =====
-- Components that run as stateful sets: pkg/controllers/statefulset.go.
pub mod Claims
pub mod Cleanup
pub mod Expansion
pub mod Ordinals
use milvus_operator.Base.{
  ℕ, String, Bool, true, false, not, ◌&&◌, ◌==◌, Option, none, some, List, [], ◌∷◌, ltb, str_eq,
  if◌then◌else◌,
}
use milvus_operator.Base.Int.{ℤ, pos, ◌-ℤ◌, ◌==ℤ◌, ltb_ℤ, leb_ℤ}
use milvus_operator.Api.Labels.{StringMap}
use milvus_operator.Api.Spec.{data_node, query_node, index_node, MilvusSpec, Component}
use milvus_operator.Api.Status.{
  is_true, is_false, available, progressing, DeploymentStatus, ComponentDeployStatus,
}
use milvus_operator.Component.{MilvusComponent, kind_name}
use milvus_operator.Deployment.{Container, to_int32}
use milvus_operator.Status.{container_image, no_status}

-- The claim templates are known by their names.
pub record StatefulSet : Type 0 where
  pub name : String
  pub generation : ℕ
  pub labels : StringMap
  pub annotations : StringMap
  pub selector : StringMap
  pub replicas : Option ℤ
  pub claim_templates : List String
  pub containers : List Container
  pub observed_generation : ℕ
  pub status_replicas : ℤ
  pub updated_replicas : ℤ
  pub ready_replicas : ℤ
  pub available_replicas : ℤ
  pub current_revision : String
  pub update_revision : String

abbrev stateful : Option Component → Bool
stateful none = false
stateful (some c) = c.stateful_set

unfoldable pub component_uses_stateful_set : MilvusSpec → MilvusComponent → Bool
component_uses_stateful_set spec c = elim c.kind [
  | query_node ↦ stateful (spec.components.field query_node)
  | data_node ↦ stateful (spec.components.field data_node)
  | index_node ↦ stateful (spec.components.field index_node)
  | _ ↦ false
]

unfoldable pub get_stateful_set_replicas : StatefulSet → ℤ
get_stateful_set_replicas s = elim s.replicas [ none ↦ pos 1 | some r ↦ r ]

-- `observed && updated == desired && CurrentRevision == UpdateRevision`.
unfoldable pub rollout_complete : StatefulSet → Bool
unfolding get_stateful_set_replicas
rollout_complete s =
    not (ltb s.observed_generation s.generation)
    && ((s.updated_replicas ==ℤ get_stateful_set_replicas s)
        && str_eq s.current_revision s.update_revision)

unfoldable pub is_stateful_set_available : StatefulSet → Bool
unfolding get_stateful_set_replicas
is_stateful_set_available s =
    let desired = get_stateful_set_replicas s in
    leb_ℤ desired s.available_replicas && ltb_ℤ (pos 0) desired

unfoldable pub unavailable_pods : StatefulSet → ℤ
unfolding get_stateful_set_replicas ◌-ℤ◌ to_int32
unavailable_pods s =
    let n = to_int32 (get_stateful_set_replicas s -ℤ s.available_replicas) in
    if ltb_ℤ n (pos 0) then pos 0 else n

unfoldable pub synthesize_stateful_set_status :
    MilvusComponent → Option StatefulSet → ComponentDeployStatus
unfolding kind_name rollout_complete is_stateful_set_available unavailable_pods
synthesize_stateful_set_status c none = no_status
synthesize_stateful_set_status c (some s) = record {
  generation = s.generation;
  image = container_image (kind_name c.kind) s.containers;
  status = record {
    observed_generation = s.observed_generation;
    replicas = s.status_replicas;
    updated_replicas = s.updated_replicas;
    ready_replicas = s.ready_replicas;
    available_replicas = s.available_replicas;
    unavailable_replicas = unavailable_pods s;
    conditions =
        record {
          type = progressing;
          status = is_true;
          reason = if rollout_complete s then "NewReplicaSetAvailable" else "StatefulSetUpdating";
        }
        ∷ record {
          type = available;
          status = if is_stateful_set_available s then is_true else is_false;
          reason = "StatefulSetAvailable";
        }
        ∷ [];
  };
}
