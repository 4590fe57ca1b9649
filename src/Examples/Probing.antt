-- ===== src/Examples/Probing.antt =====
-- Endpoints that are probed, an autoscaler that is reconciled, and tasks that end.
use milvus_operator.Base.{
  ℕ, String, true, false, Option, none, some, List, [], ◌∷◌, ◌≡◌, inl, inr, refl, any, lookup,
  arith, eq_iff, Error, requeue, api_not_found, errorf, wrap, Result, ok, err,
}
use milvus_operator.Base.Int.{ℤ, pos, ◌==ℤ◌}
use milvus_operator.Api.Status.{is_true}
use milvus_operator.Api.Labels.{rolling_id_label, component_current_group_id_label}
use milvus_operator.Api.Spec.{HpaSpec}
use milvus_operator.Conditions.{MilvusCondition}
use milvus_operator.Component.{kind_name}
use milvus_operator.Probes.{Cache, probe_lock_key, get, get_condition_round, put_flag}
use milvus_operator.Probes.Sequential.{Free, get_condition_round-Free, get_condition_round-empty}
use milvus_operator.Probes.Interleaved.{
  Callers, idle, starting, swapping, probing, put_pc, Reach, here, next, by, start, find, win,
  probes_exclude,
}
use milvus_operator.Rollout.{Milvus, is_component_rolling, get_current_group_id}
use milvus_operator.Autoscaler.{
  Hpa, HpaObjectSpec, same_optional, Server, get_hpa_name, reconcile_two_deploy_hpa,
  hpa_spec_needs_update,
}
use milvus_operator.Deployment.{PodTemplate}
use milvus_operator.Rollout.Updates.{new_deploy}
use milvus_operator.Autoscaler.Kept.{
  ServerLaws, Gone, reconcile_two_deploy_hpa-Gone, reconcile_two_deploy_hpa-target,
}
use milvus_operator.Groups.{done, failed, run}
use milvus_operator.Groups.Order.{asks_requeue, task_asks, run-requeue}
use milvus_operator.Examples.Rollouts.{go, milvus, query_nodes, digit, number}

abbrev ready : MilvusCondition
ready = record {
  type = "EtcdReady";
  status = is_true;
  last_transition_time = none;
  reason = "EtcdReady";
  message = "";
}

abbrev empty_cache : Cache
empty_cache = record { conditions = []; locks = []; flags = λ p. false; fresh = 0 }

abbrev etcd : List String
etcd = "etcd-1:2379" ∷ "etcd-0:2379" ∷ []

get_condition_round-Free_example :
    (d : Cache) × ((get_condition_round etcd ready empty_cache ≡ (some ready, d))
      × ((get etcd d ≡ some ready) × Free (probe_lock_key etcd) d))
unfolding lookup
get_condition_round-Free_example =
    get_condition_round-Free "etcd-1:2379" ("etcd-0:2379" ∷ []) ready empty_cache (inl refl)

get_condition_round-empty_example :
    (d : Cache) × ((get_condition_round [] ready empty_cache ≡ (some ready, d))
      × (get_condition_round [] ready d ≡ (none, d)))
unfolding lookup
get_condition_round-empty_example = get_condition_round-empty ready ready empty_cache (inl refl)

-- Caller 0 looks the lock up and takes it.
abbrev at_rest : Callers
at_rest = record {
  shared = record { lock = some 0; flags = λ p. false; fresh = 1 };
  pc = λ i. idle;
}

abbrev started : Callers
started = record at_rest { pc = put_pc 0 starting at_rest.pc }

abbrev found_lock : Callers
found_lock = record at_rest { pc = put_pc 0 (swapping 0) started.pc }

abbrev in_probe : Callers
in_probe = record {
  shared = record (at_rest.shared) { flags = put_flag 0 true at_rest.shared.flags };
  pc = put_pc 0 probing found_lock.pc;
}

in_probe-Reach : Reach at_rest in_probe
in_probe-Reach =
    next {d = found_lock}
      (next {d = started} (next here (by 0 starting start refl))
        (by 0 (swapping 0) (find 0 refl) refl))
      (by 0 probing (win 0 refl) refl)

probes_exclude_example : ◌≡◌ {A = ℕ} 0 0
probes_exclude_example =
    probes_exclude 0 at_rest in_probe 0 0 refl (λ k. refl) in_probe-Reach refl refl

abbrev answer : Option Hpa → Result Hpa
answer none = err api_not_found
answer (some h) = ok h

abbrev autoscalers : Server (Option Hpa)
autoscalers = record {
  get = λ name w. (answer w, w);
  create = λ h w. (none, some h);
  update = λ h w. (none, some h);
  delete = λ h w. (none, none);
  is_controlled_by = λ h m. true;
  set_controller_reference = λ m h. ok (record h { owner = some m.name });
  metric_as_object = some;
  behavior_as_object = some;
  same_metrics = λ a b. true;
  same_behavior = λ a b. true;
  itoa = digit;
  atoi = number;
  newer_than_2_6 = λ s. false;
}

abbrev stored : Option Hpa → Option Hpa
stored w = w

answer_ok : (w : Option Hpa) (h : Hpa) → answer w ≡ ok h → w ≡ some h
answer_ok none h q = absurd cc
answer_ok (some k) h q = cc

answer_err : (w : Option Hpa) (e : Error) → answer w ≡ err e → w ≡ none
answer_err none e q = refl
answer_err (some k) e q = absurd cc

same_number : (z : ℤ) → (z ==ℤ z) ≡ true
same_number z = ground arith

same_minimum : (o : Option ℤ) → same_optional o o ≡ true
unfolding same_optional
same_minimum none = refl
same_minimum (some z) = same_number z

needs_nothing : (s : HpaObjectSpec) → hpa_spec_needs_update autoscalers s s ≡ false
unfolding hpa_spec_needs_update
needs_nothing s =
    rw ((eq_iff s.target s.target).1 refl, same_minimum s.min_replicas, same_number s.max_replicas)
      refl

autoscalers-laws : ServerLaws autoscalers (get_hpa_name query_nodes milvus.name) stored
autoscalers-laws = record {
  kept = λ w. refl;
  found = answer_ok;
  missing = λ w e q p. answer_err w e q;
  created = λ h w q. refl;
  updated = λ h w q. refl;
  deleted = λ h w q. refl;
  same_spec = needs_nothing;
  owned = λ m h k q. cc;
}

abbrev autoscaled : HpaSpec
autoscaled = record {
  min_replicas = some (pos 2);
  max_replicas = pos 5;
  metrics = [];
  behavior = none;
}

abbrev rolling_milvus : Milvus
rolling_milvus = record milvus { labels = ("milvus.io/querynode-rolling-id", "1") ∷ [] }

-- The operator's own autoscaler, for the deployment of group 0.
abbrev present : Option Hpa
present = some (record {
  name = "m-milvus-querynode-hpa";
  labels = [];
  owner = some "m";
  spec = record {
    target = "m-milvus-querynode-0";
    min_replicas = some (pos 2);
    max_replicas = pos 5;
    metrics = [];
    behavior = none;
  };
})

reconcile_two_deploy_hpa-Gone_example :
    Gone autoscalers rolling_milvus query_nodes stored autoscalers-laws
      (reconcile_two_deploy_hpa autoscalers rolling_milvus query_nodes autoscaled present).1
unfolding is_component_rolling lookup rolling_id_label kind_name reconcile_two_deploy_hpa
reconcile_two_deploy_hpa-Gone_example =
    reconcile_two_deploy_hpa-Gone autoscalers rolling_milvus query_nodes stored autoscalers-laws
      autoscaled present refl refl

abbrev no_template : PodTemplate
no_template = record { labels = []; containers = []; rest = "" }

reconcile_two_deploy_hpa-target_example :
    (h : Hpa) × ((stored (reconcile_two_deploy_hpa autoscalers milvus query_nodes autoscaled none).1
        ≡ some h)
      × (h.spec.target ≡ (new_deploy go query_nodes milvus no_template (pos 0)).name))
unfolding is_component_rolling lookup rolling_id_label kind_name reconcile_two_deploy_hpa
    get_current_group_id component_current_group_id_label
reconcile_two_deploy_hpa-target_example =
    reconcile_two_deploy_hpa-target autoscalers milvus query_nodes stored autoscalers-laws
      autoscaled none go no_template (pos 0) refl refl (inr (refl, refl)) refl

abbrev texts : List Error → String
texts es = "groups error"

run-requeue_example :
    asks_requeue
      (run texts "run group" (failed (errorf "a") ∷ done ∷ failed (wrap "b" requeue) ∷ []))
    ≡ any task_asks (failed (errorf "a") ∷ done ∷ failed (wrap "b" requeue) ∷ [])
run-requeue_example =
    run-requeue texts "run group" (failed (errorf "a") ∷ done ∷ failed (wrap "b" requeue) ∷ [])
