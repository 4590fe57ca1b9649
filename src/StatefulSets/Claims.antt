-- ===== src/StatefulSets/Claims.antt =====
-- The volume claims of stateful sets: cleanupScaledDownStatefulSetPVCs, matchStatefulSetPVCOrdinal,
-- deletePVCsForStatefulSet and cleanupStaleStatefulSets of pkg/controllers/statefulset.go.
use Prim.Native.String.{◌++◌, len, slice}
use text.Mathlib.Text.{starts_with}
use milvus_operator.Base.{
  ℕ, String, Bool, true, false, not, Option, none, some, List, [], ◌∷◌, map, any, str_eq,
  if◌then◌else◌, Error, wrap, is_api_not_found, Result, ok, err, with_value, wrapped_value, then_do,
}
use milvus_operator.Base.Int.{ℤ, pos, ltb_ℤ}
use milvus_operator.Api.Labels.{StringMap}
use milvus_operator.Api.Spec.{ComponentKind, query_node, data_node, index_node, is_cluster}
use milvus_operator.Component.{kind_name, plain, get_component_workloads_by_spec}
use milvus_operator.Deployment.{Deployment, to_int32}
use milvus_operator.Rollout.{Milvus}
use milvus_operator.Rollout.Metadata.{new_component_app_labels}
use milvus_operator.Rollout.Store.{get_deployment_name}
use milvus_operator.StatefulSets.{
  StatefulSet, get_stateful_set_replicas, component_uses_stateful_set,
}

-- `requested` is the storage asked for in bytes, 0 where there is none.
pub record Claim : Type 0 where
  pub name : String
  pub terminating : Bool
  pub requested : ℕ
  pub storage_class : Option String

-- What is asked of the API server. The lists take the labels to match.
pub record Server (W : Type 0) : Type 0 where
  pub list_claims : StringMap → W → Result (List Claim) × W
  pub delete_claim : Claim → W → Option Error × W
  pub list_deployments : StringMap → W → Result (List Deployment) × W
  pub delete_deployment : Deployment → W → Option Error × W
  pub list_stateful_sets : StringMap → W → Result (List StatefulSet) × W
  pub delete_stateful_set : StatefulSet → W → Option Error × W
  pub get_service : String → W → Option Error × W
  pub delete_service : String → W → Option Error × W

-- `<template>-<set>-`.
unfoldable pub claim_prefixes : StatefulSet → List String
claim_prefixes s = map (λ t. t ++ ("-" ++ (s.name ++ "-"))) s.claim_templates

-- `atoi` stands for `strconv.Atoi`.
abbrev pub ordinal_or : Option ℤ → Result ℤ → Option ℤ
ordinal_or rest (err e) = rest
ordinal_or rest (ok n) = if ltb_ℤ n (pos 0) then rest else some (to_int32 n)

unfoldable pub match_stateful_set_pvc_ordinal :
    (String → Result ℤ) → String → List String → Option ℤ
unfolding to_int32
match_stateful_set_pvc_ordinal atoi name [] = none
match_stateful_set_pvc_ordinal atoi name (p ∷ ps) =
    let rest = match_stateful_set_pvc_ordinal atoi name ps in
    if starts_with name p then ordinal_or rest (atoi (slice name (len p) (len name))) else rest

abbrev pub at_least : ℤ → Option ℤ → Bool
at_least desired none = false
at_least desired (some n) = not (ltb_ℤ n desired)

abbrev pub matched : Option ℤ → Bool
matched none = false
matched (some n) = true

-- The claims that the loops do not pass over.
unfoldable pub is_scaled_down : (String → Result ℤ) → StatefulSet → Claim → Bool
unfolding get_stateful_set_replicas match_stateful_set_pvc_ordinal claim_prefixes
is_scaled_down atoi s c =
    if c.terminating
    then false
    else at_least (get_stateful_set_replicas s)
        (match_stateful_set_pvc_ordinal atoi c.name (claim_prefixes s))

unfoldable pub is_claim_of : (String → Result ℤ) → StatefulSet → Claim → Bool
unfolding match_stateful_set_pvc_ordinal claim_prefixes
is_claim_of atoi s c =
    if c.terminating
    then false
    else matched (match_stateful_set_pvc_ordinal atoi c.name (claim_prefixes s))

-- An object that is gone is deleted.
abbrev pub unless_not_found : String → Option Error → Option Error
unless_not_found text none = none
unless_not_found text (some e) = if is_api_not_found e then none else some (wrap text e)

abbrev pub deleted : {W : Type 0} → String → Option Error × W → Option Error × W
deleted text (e, w) = (unless_not_found text e, w)

-- The loop over the listed claims, until an error.
unfoldable pub delete_claims :
    {W : Type 0}
    → (Claim → W → Option Error × W)
    → (Claim → String)
    → (Claim → Bool)
    → List Claim
    → W
    → Option Error × W
delete_claims delete text chosen [] w = (none, w)
delete_claims delete text chosen (c ∷ cs) w =
    let rest = delete_claims delete text chosen cs in
    if chosen c then then_do (deleted (text c) (delete c w)) rest else rest w

-- `if len(sts.Spec.VolumeClaimTemplates) == 0 { return nil }`, else the rest.
abbrev pub with_templates :
    {W : Type 0} → List String → (W → Option Error × W) → W → Option Error × W
with_templates [] f w = (none, w)
with_templates (t ∷ ts) f w = f w

abbrev pub scaled_down_text : Claim → String
scaled_down_text c = "delete scaled-down querynode pvc " ++ c.name

abbrev pub stale_claim_text : Claim → String
stale_claim_text c = "delete stale pvc " ++ c.name

-- statefulSetCapableComponents.
abbrev pub stateful_set_capable_components : List ComponentKind
stateful_set_capable_components = query_node ∷ data_node ∷ index_node ∷ []

module _ (atoi : String → Result ℤ) {W : Type 0} (srv : Server W) where
  abbrev pub delete_scaled_down : StatefulSet → Result (List Claim) × W → Option Error × W
  delete_scaled_down s listed =
      with_value (wrapped_value "list querynode pvcs" listed)
        (delete_claims srv.delete_claim scaled_down_text (is_scaled_down atoi s))

  unfoldable pub cleanup_scaled_down_stateful_set_pvcs : StatefulSet → W → Option Error × W
  unfolding is_scaled_down delete_claims
  cleanup_scaled_down_stateful_set_pvcs s w =
      with_templates s.claim_templates (λ u. delete_scaled_down s (srv.list_claims s.selector u)) w

  unfoldable pub delete_pvcs_for_stateful_set :
      Milvus → ComponentKind → StatefulSet → W → Option Error × W
  unfolding is_claim_of delete_claims kind_name new_component_app_labels
  delete_pvcs_for_stateful_set m k s w =
      with_templates s.claim_templates
        (λ u.
          with_value
            (wrapped_value ("list " ++ (kind_name k ++ " pvcs for stale statefulset"))
              (srv.list_claims (new_component_app_labels m.name (kind_name k)) u))
            (delete_claims srv.delete_claim stale_claim_text (is_claim_of atoi s)))
        w

  -- The headless service has the set's name; `get` ends it where it is not found.
  abbrev pub delete_found_service : String → Option Error × W → Option Error × W
  delete_found_service name (some e, w) =
      (unless_not_found ("get stale statefulset service " ++ name) (some e), w)
  delete_found_service name (none, w) =
      deleted ("delete stale statefulset service " ++ name) (srv.delete_service name w)

  -- A set that is not desired goes, then its claims and its service.
  unfoldable pub delete_stale_stateful_set :
      Milvus → ComponentKind → StatefulSet → W → Option Error × W
  unfolding delete_pvcs_for_stateful_set
  delete_stale_stateful_set m k s w =
      then_do (deleted ("delete stale statefulset " ++ s.name) (srv.delete_stateful_set s w)) (λ u.
        then_do (delete_pvcs_for_stateful_set m k s u)
          (λ v. delete_found_service s.name (srv.get_service s.name v)))

  unfoldable pub delete_stale_stateful_sets :
      (StatefulSet → Bool) → Milvus → ComponentKind → List StatefulSet → W → Option Error × W
  unfolding delete_stale_stateful_set
  delete_stale_stateful_sets kept m k [] w = (none, w)
  delete_stale_stateful_sets kept m k (s ∷ ss) w =
      let rest = delete_stale_stateful_sets kept m k ss in
      if kept s then rest w else then_do (delete_stale_stateful_set m k s w) rest

  unfoldable pub delete_legacy_deployments :
      (Deployment → Milvus → Bool) → Milvus → ComponentKind → List Deployment → W → Option Error × W
  unfolding kind_name
  delete_legacy_deployments controlled m k [] w = (none, w)
  delete_legacy_deployments controlled m k (d ∷ ds) w =
      let rest = delete_legacy_deployments controlled m k ds in
      if controlled d m
      then then_do
          (deleted ("delete legacy " ++ (kind_name k ++ (" deployment " ++ d.name)))
            (srv.delete_deployment d w))
          rest
      else rest w

  module _ (newer : String → Bool) (controlled : Deployment → Milvus → Bool)
      (set_controlled : StatefulSet → Milvus → Bool) where
    -- The names of the sets of the spec's workloads.
    unfoldable pub is_desired : Milvus → StatefulSet → Bool
    unfolding component_uses_stateful_set get_component_workloads_by_spec get_deployment_name
    is_desired m s =
        any
          (λ c.
            if component_uses_stateful_set m.spec c
            then str_eq (get_deployment_name c m.name) s.name
            else false)
          (get_component_workloads_by_spec newer m.spec)

    abbrev pub is_kept : Milvus → StatefulSet → Bool
    is_kept m s = if set_controlled s m then is_desired m s else true

    unfoldable pub cleanup_stale_stateful_sets : Milvus → List ComponentKind → W → Option Error × W
    unfolding is_desired delete_stale_stateful_sets kind_name new_component_app_labels
    cleanup_stale_stateful_sets m [] w = (none, w)
    cleanup_stale_stateful_sets m (k ∷ ks) w =
        then_do
          (with_value
            (wrapped_value ("list " ++ (kind_name k ++ " statefulsets"))
              (srv.list_stateful_sets (new_component_app_labels m.name (kind_name k)) w))
            (delete_stale_stateful_sets (is_kept m) m k))
          (cleanup_stale_stateful_sets m ks)

    unfoldable pub delete_legacy_component_deployments :
        Milvus → ComponentKind → W → Option Error × W
    unfolding delete_legacy_deployments kind_name new_component_app_labels
    delete_legacy_component_deployments m k w =
        with_value
          (wrapped_value ("list legacy " ++ (kind_name k ++ " deployments"))
            (srv.list_deployments (new_component_app_labels m.name (kind_name k)) w))
          (delete_legacy_deployments controlled m k)

    unfoldable pub leave_deployments : Milvus → List ComponentKind → W → Option Error × W
    unfolding component_uses_stateful_set delete_legacy_component_deployments
    leave_deployments m [] w = (none, w)
    leave_deployments m (k ∷ ks) w =
        let rest = leave_deployments m ks in
        if component_uses_stateful_set m.spec (plain k)
        then then_do (delete_legacy_component_deployments m k w) rest
        else rest w

    unfoldable pub cleanup_stateful_set_workload_modes : Milvus → W → Option Error × W
    unfolding leave_deployments cleanup_stale_stateful_sets
    cleanup_stateful_set_workload_modes m w =
        if is_cluster m.spec.mode
        then then_do (leave_deployments m stateful_set_capable_components w)
            (cleanup_stale_stateful_sets m stateful_set_capable_components)
        else (none, w)
