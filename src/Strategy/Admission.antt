-- ===== src/Strategy/Admission.antt =====
-- What the webhook admits: from the validation of a whole spec to the strategy of each component.
use milvus_operator.Base.{
  ℕ, suc, Bool, ◌||◌, some, List, [], ◌∷◌, ◌≡◌, inl, inr, arith, append-eq-nil, All, Bool-cases,
}
use milvus_operator.Base.Int.{pos}
use milvus_operator.Api.Strategy.{merge_rolling_update}
use milvus_operator.Api.Spec.{
  ComponentKind, mix_coord, root_coord, data_coord, query_coord, index_coord, data_node, query_node,
  index_node, streaming_node, proxy, standalone, cdc, Component, MilvusSpec, is_force,
}
use milvus_operator.Component.{MilvusComponent}
use milvus_operator.Strategy.{
  validate_component, validate_components, validate_rolling_updates, field_order,
  get_deployment_strategy, use_rolling_update, component_rolling_update,
  component_deployment_strategy, Scaling, ScalingLaws, validate_rolling_update, rollout_steps,
}
use milvus_operator.Strategy.Progress.{HasStep, merged-HasStep, full-HasStep}

-- Each kind stands in the list of the fields that are validated.
Validated : (s : Scaling) → MilvusSpec → ComponentKind → Type 0
Validated s spec k =
    validate_component s spec.components.rolling_update (spec.components.field k) ≡ []

validate_components-All :
    (s : Scaling) (spec : MilvusSpec) (ks : List ComponentKind)
    → validate_components s spec ks ≡ []
    → All (Validated s spec) ks
unfolding validate_components Validated
validate_components-All s spec [] h = tt
validate_components-All s spec (k ∷ ks) h =
    let (here, rest) = append-eq-nil _ _ h in (here, validate_components-All s spec ks rest)

field_order-Validated :
    (s : Scaling) (spec : MilvusSpec) (k : ComponentKind)
    → All (Validated s spec) (field_order s)
    → Validated s spec k
field_order-Validated s spec proxy a = a.0
field_order-Validated s spec mix_coord a = a.1.0
field_order-Validated s spec root_coord a = a.1.1.0
field_order-Validated s spec index_coord a = a.1.1.1.0
field_order-Validated s spec data_coord a = a.1.1.1.1.0
field_order-Validated s spec query_coord a = a.1.1.1.1.1.0
field_order-Validated s spec index_node a = a.1.1.1.1.1.1.0
field_order-Validated s spec data_node a = a.1.1.1.1.1.1.1.0
field_order-Validated s spec query_node a = a.1.1.1.1.1.1.1.1.0
field_order-Validated s spec streaming_node a = a.1.1.1.1.1.1.1.1.1.0
field_order-Validated s spec standalone a = a.1.1.1.1.1.1.1.1.1.1.0
field_order-Validated s spec cdc a = a.1.1.1.1.1.1.1.1.1.1.1.0

effective_valid :
    (s : Scaling) (spec : MilvusSpec) (k : ComponentKind) (f : Component)
    → validate_rolling_updates s spec ≡ []
    → spec.components.field k ≡ some f
    → validate_rolling_update s (
        merge_rolling_update spec.components.rolling_update
          (component_rolling_update (spec.components.field k)))
      ≡ []
unfolding validate_rolling_updates Validated
effective_valid s spec k f h e =
    let rest = (append-eq-nil _ _ h).1 in
    let valid =
      field_order-Validated s spec k (validate_components-All s spec (field_order s) rest) in
    rw e (rw e at valid)

component-HasStep :
    (s : Scaling) (laws : ScalingLaws s) (stand_by : ComponentKind → Bool) (spec : MilvusSpec)
    (c : MilvusComponent) (f : Component) (n : ℕ)
    → validate_rolling_updates s spec ≡ []
    → spec.components.field c.kind ≡ some f
    → HasStep (rollout_steps s (component_deployment_strategy stand_by c spec) (pos (suc n)))
unfolding component_deployment_strategy
component-HasStep s laws stand_by spec c f n h e =
    elim (Bool-cases (use_rolling_update stand_by c.kind)) [
      | inl r ↦ rw r (merged-HasStep s laws n _ (effective_valid s spec c.kind f h e))
      | inr r ↦ rw r (unfold rollout_steps in inl (ground arith))
    ]

-- Of a spec that the webhook admits, the strategy chosen for a configured component gives at every
-- positive number of replicas a positive surge or a positive number of unavailable replicas.
pub admitted-HasStep :
    (s : Scaling) (laws : ScalingLaws s) (stand_by : ComponentKind → Bool) (spec : MilvusSpec)
    (c : MilvusComponent) (f : Component) (n : ℕ)
    → validate_rolling_updates s spec ≡ []
    → spec.components.field c.kind ≡ some f
    → HasStep (rollout_steps s (get_deployment_strategy stand_by spec c) (pos (suc n)))
unfolding get_deployment_strategy
admitted-HasStep s laws stand_by spec c f n h e =
    elim (Bool-cases
      (is_force spec.components.image_update_mode || spec.components.enable_manual_mode)) [
        | inl r ↦ rw r (full-HasStep s laws n)
        | inr r ↦ rw r (component-HasStep s laws stand_by spec c f n h e)
      ]
