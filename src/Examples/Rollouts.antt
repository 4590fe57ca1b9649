-- ===== src/Examples/Rollouts.antt =====
-- A cluster with the two deployments of one component, for the theorems about rollouts.
use milvus_operator.Base.{
  String, true, false, true≢false, Option, none, some, [], ◌∷◌, ◌≡◌, ◌⊎◌, ◌↔◌, subst, inl, refl,
  sym, ap, if-all, str_eq, if◌then◌else◌, Error, errorf, Result, ok, err, lookup, insert,
}
use milvus_operator.Base.Int.{ℤ, pos, ◌==ℤ◌, leb_ℤ}
use milvus_operator.Api.Labels.{
  StringMap, component_group_id_label, component_current_group_id_label, rolling_id_label,
}
use milvus_operator.Api.Spec.{DeploymentGroup, query_node, v3}
use milvus_operator.Deployment.{Deployment, get_deploy_replicas}
use milvus_operator.Component.{MilvusComponent, plain, kind_name}
use milvus_operator.Rollout.{Milvus, set_current_group_id_str}
use milvus_operator.Rollout.Server.{Server, Library}
use milvus_operator.Rollout.Store.{
  choose_deploys, is_slot, is_old, state_key, component_deploy_is_current_group,
}
use milvus_operator.Rollout.Controller.{reconcile_created, roll}
use milvus_operator.Rollout.Updates.{
  last_rollout_finished, prepare_new_rollout, should_rollback, is_pod_template_changed,
  is_pod_template_equal,
}
use milvus_operator.Rollout.View.{View, store, ServerLaws, WritesDigits}
use milvus_operator.Rollout.Slots.{TwoSlots, choose_deploys-pair}
use milvus_operator.Rollout.Invariant.{IsSafe, IsWell}
use milvus_operator.Rollout.Reachable.{
  reconciled, here, next, fresh, Reach-IsSafe, new_rollout_idle,
}
use milvus_operator.Rollout.Metadata.{
  merge_labels, preserve_existing_metadata_prefixes, get_selector_labels, desired_deployment_labels,
}
use milvus_operator.Rollout.Maps.{
  IsMap, union, merge_labels-union, IsPreserved, preserve_existing_metadata_prefixes-lookup,
  desired_deployment_labels-lookup,
}
use milvus_operator.Rollout.ModeChange.{recovered_deploy}
use milvus_operator.Rollout.ModeChange.Recovered.{recovered_deploy-slot}
use milvus_operator.Examples.{rolling_three, scaling, never, deployment_of, quarter_surge}

abbrev pub digit : ℤ → String
digit z = if z ==ℤ pos 0 then "0" else "1"

abbrev pub number : String → Result ℤ
number s =
    if str_eq s "0" then ok (pos 0) else if str_eq s "1" then ok (pos 1) else err (errorf "atoi")

abbrev pub go : Library
go = record {
  itoa = digit;
  atoi = number;
  same_template = λ s t. false;
  same_map = λ s t. true;
  hash = λ s. s;
  newer_than_2_6 = λ s. false;
  stand_by = never;
  scaling = scaling;
  render =
      λ m t c force. elim t [ none ↦ (deployment_of quarter_surge (pos 0)).template | some u ↦ u ];
}

abbrev slot : String → String → ℤ → Deployment
slot name id replicas = record (deployment_of quarter_surge replicas) {
  name = name;
  labels = ("app.kubernetes.io/component", "querynode") ∷ ("milvus.io/querynode-group-id", id) ∷ [];
}

abbrev pub milvus : Milvus
milvus = record {
  name = "m";
  generation = 1;
  labels = [];
  annotations = ("milvus.io/querynode-current-group-id", "0") ∷ [];
  spec = rolling_three;
  status = record { rolling_mode = v3; observed_generation = 1; conditions = [] };
}

abbrev pub query_nodes : MilvusComponent
query_nodes = plain query_node

-- Group 0 serves and group 1 waits.
abbrev quiet : View
quiet = record { milvus = milvus; first = slot "q-0" "0" (pos 2); second = slot "q-1" "1" (pos 0) }

abbrev same_view : View → View
same_view v = v

abbrev cluster : Server View
cluster = record {
  list_deployments = λ labels v. (ok (v.first ∷ v.second ∷ []), v);
  list_pods = λ labels v. (ok [], v);
  update_milvus = λ m v. (none, record v { milvus = m });
  update_deployment = λ d v. (none, store d v);
  create_deployment = λ d v. (none, v);
  set_controller_reference = λ d. none;
}

pub not_some : (e : Error) → ¬ (◌≡◌ {A = Option Error} none (some e))
not_some e h = cc

cluster-laws : ServerLaws cluster same_view
cluster-laws = record {
  deployments_kept = λ labels v. refl;
  deployments_listed = λ labels v. inl refl;
  pods_kept = λ labels v. refl;
  deployment_updated = λ d v h. refl;
  deployment_refused = λ d v e h. absurd (not_some e h);
  milvus_updated = λ m v h. refl;
  milvus_refused = λ m v e h. absurd (not_some e h);
}

go-WritesDigits : WritesDigits go
go-WritesDigits n = if-all (λ s. str_eq s "" ≡ false) (n ==ℤ pos 0) "0" "1" (λ _. refl) (λ _. refl)

abbrev value : Result ℤ → ℤ
value (ok n) = n
value (err e) = pos 0

slot-IsWell-zero : (r : ℤ) → IsWell go query_nodes (slot "q-0" "0" r)
unfolding is_slot lookup kind_name component_group_id_label
slot-IsWell-zero r = record {
  slot = refl;
  named = refl;
  canonical = λ n h. ap digit (sym (ap value h));
}

slot-IsWell-one : (r : ℤ) → IsWell go query_nodes (slot "q-1" "1" r)
unfolding is_slot lookup kind_name component_group_id_label
slot-IsWell-one r = record {
  slot = refl;
  named = refl;
  canonical = λ n h. ap digit (sym (ap value h));
}

quiet-IsSafe : IsSafe go query_nodes quiet
unfolding component_deploy_is_current_group lookup kind_name get_deploy_replicas
    component_group_id_label component_current_group_id_label
quiet-IsSafe = record {
  well = (slot-IsWell-zero (pos 2), slot-IsWell-one (pos 0));
  apart = refl;
  idle = λ r. (λ old. absurd (true≢false old), λ old. refl);
}

-- One reconciliation.
abbrev after_one : View
after_one =
    (reconcile_created go query_nodes cluster false
      (fresh go query_nodes cluster same_view cluster-laws go-WritesDigits quiet)).1.world

Reach-IsSafe_example : IsSafe go query_nodes after_one
Reach-IsSafe_example =
    Reach-IsSafe go query_nodes cluster same_view cluster-laws go-WritesDigits quiet after_one
      (next here (reconciled false refl)) quiet-IsSafe

choose_deploys-pair_example :
    (choose_deploys go query_nodes milvus (quiet.second ∷ quiet.first ∷ [])
      ≡ ok (quiet.first, quiet.second))
    ↔ TwoSlots go query_nodes milvus (quiet.second ∷ quiet.first ∷ []) quiet.first quiet.second
choose_deploys-pair_example =
    choose_deploys-pair go query_nodes milvus (quiet.second ∷ quiet.first ∷ []) quiet.first
      quiet.second

new_rollout_idle_example :
    let template = quiet.first.template in
    let j = fresh go query_nodes cluster same_view cluster-laws go-WritesDigits quiet in
    (d : Deployment) × ((d ≡ quiet.first) ⊎ (d ≡ quiet.second))
    × (leb_ℤ (get_deploy_replicas d) (pos 0) ≡ true)
    × (roll go query_nodes cluster quiet.first quiet.second j
        ≡ prepare_new_rollout go query_nodes cluster d template j)
unfolding last_rollout_finished component_deploy_is_current_group lookup kind_name
    component_group_id_label component_current_group_id_label rolling_id_label should_rollback
    is_pod_template_changed is_pod_template_equal
new_rollout_idle_example =
    new_rollout_idle go query_nodes cluster same_view cluster-laws go-WritesDigits quiet.first
      quiet.second (fresh go query_nodes cluster same_view cluster-laws go-WritesDigits quiet)
      quiet-IsSafe (refl, inl (refl, refl)) refl refl refl refl

abbrev group_labels : StringMap
group_labels = ("team", "search") ∷ ("milvus.io/service", "true") ∷ []

abbrev old_labels : StringMap
old_labels = ("team", "ads") ∷ ("kubectl.kubernetes.io/x", "y") ∷ []

group_labels-IsMap : IsMap group_labels
unfolding IsMap lookup
group_labels-IsMap = (refl, (refl, tt))

old_labels-IsMap : IsMap old_labels
unfolding IsMap lookup
old_labels-IsMap = (refl, (refl, tt))

merge_labels-union_example :
    lookup "team" (merge_labels (old_labels ∷ group_labels ∷ []))
    ≡ union (old_labels ∷ group_labels ∷ []) "team" none
merge_labels-union_example =
    merge_labels-union (old_labels ∷ group_labels ∷ []) "team"
      (old_labels-IsMap, (group_labels-IsMap, tt))

preserve_existing_metadata_prefixes-lookup_example :
    let key : String = "kubectl.kubernetes.io/x" in
    let result = preserve_existing_metadata_prefixes group_labels old_labels in
    ((v : String) → lookup key group_labels ≡ some v → lookup key result ≡ some v)
    × (lookup key group_labels ≡ none → IsPreserved key → lookup key result ≡ lookup key old_labels)
    × (lookup key group_labels ≡ none → ¬ (IsPreserved key) → lookup key result ≡ none)
preserve_existing_metadata_prefixes-lookup_example =
    preserve_existing_metadata_prefixes-lookup group_labels old_labels "kubectl.kubernetes.io/x"
      group_labels-IsMap old_labels-IsMap

abbrev grouped : MilvusComponent
grouped = record {
  kind = query_node;
  group = some (record {
    name = "hot";
    labels = ("app.kubernetes.io/instance", "other") ∷ [];
    annotations = [];
    replicas = none;
  });
}

abbrev labels_of : Option DeploymentGroup → StringMap
labels_of none = []
labels_of (some g) = g.labels

group_maps : (g : DeploymentGroup) → grouped.group ≡ some g → IsMap g.labels
unfolding IsMap lookup
group_maps g h = subst (λ (o : Option DeploymentGroup). IsMap (labels_of o)) h (refl, tt)

desired_deployment_labels-lookup_example :
    (lookup "app.kubernetes.io/instance" (desired_deployment_labels "m" grouped "1" old_labels)
      ≡ some "m")
    × (lookup
          (component_group_id_label (kind_name query_node))
          (desired_deployment_labels "m" grouped "1" old_labels)
        ≡ some "1")
unfolding get_selector_labels lookup insert kind_name component_group_id_label
desired_deployment_labels-lookup_example =
    desired_deployment_labels-lookup "m" "1" "app.kubernetes.io/instance" "m" grouped old_labels
      old_labels-IsMap group_maps refl refl refl

-- The deployment of before the change, which no rollout owns.
abbrev old_deployment : Deployment
old_deployment = record (deployment_of quarter_surge (pos 2)) {
  labels = ("app.kubernetes.io/component", "querynode") ∷ [];
}

recovered_deploy-slot_example :
    (is_slot query_nodes (recovered_deploy go query_nodes old_deployment) ≡ true)
    × (component_deploy_is_current_group go query_nodes
          (set_current_group_id_str milvus (state_key go query_nodes) "0")
          (recovered_deploy go query_nodes old_deployment)
        ≡ true)
unfolding is_old lookup component_group_id_label
recovered_deploy-slot_example = recovered_deploy-slot go query_nodes old_deployment milvus refl refl
