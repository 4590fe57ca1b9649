-- ===== src/Status/Aggregated.antt =====
-- The state of a component whose deployment groups are aggregated.
use milvus_operator.Base.{
  ℕ, Bool, true, false, ◌&&◌, ◌||◌, List, [], ◌∷◌, all, any, ltb, ◌≡◌, refl, ap, ◌∙◌, arith,
  if◌then◌else◌,
}
use milvus_operator.Api.Status.{
  ComponentDeployStatus, DeploymentState, state_progressing, state_complete, state_failed,
  state_paused, get_state,
}
use milvus_operator.Status.{
  deployment_ready, Tally, completes, settles, fails, tally_status, tally_statuses, finish_tally,
  start_tally, aggregate_component_deploy_statuses,
}

-- Whether a state is one of the four.
abbrev pub is_state : DeploymentState → DeploymentState → Bool
is_state state_progressing state_progressing = true
is_state state_complete state_complete = true
is_state state_failed state_failed = true
is_state state_paused state_paused = true
is_state _ _ = false

abbrev pub has_state : DeploymentState → ComponentDeployStatus → Bool
has_state d s = is_state d (get_state s)

abbrev pub at_rest : ComponentDeployStatus → Bool
at_rest s = has_state state_complete s || has_state state_paused s

-- The state of several: complete when all are, paused when each is paused or complete, failed when
-- one is and these do not hold, and progressing otherwise.
abbrev pub joint_state : List ComponentDeployStatus → DeploymentState
joint_state ss =
    if all (has_state state_complete) ss
    then state_complete
    else if all at_rest ss
    then state_paused
    else if any (has_state state_failed) ss
    then state_failed
    else state_progressing

completes-is_state : (d : DeploymentState) → completes d ≡ is_state state_complete d
completes-is_state state_progressing = refl
completes-is_state state_complete = refl
completes-is_state state_failed = refl
completes-is_state state_paused = refl

pub settles-is_state :
    (d : DeploymentState) → settles d ≡ (is_state state_complete d || is_state state_paused d)
settles-is_state state_progressing = refl
settles-is_state state_complete = refl
settles-is_state state_failed = refl
settles-is_state state_paused = refl

fails-is_state : (d : DeploymentState) → fails d ≡ is_state state_failed d
fails-is_state state_progressing = refl
fails-is_state state_complete = refl
fails-is_state state_failed = refl
fails-is_state state_paused = refl

and_assoc : (a b c : Bool) → ((a && b) && c) ≡ (a && (b && c))
and_assoc true b c = refl
and_assoc false b c = refl

or_assoc : (a b c : Bool) → ((a || b) || c) ≡ (a || (b || c))
or_assoc true b c = refl
or_assoc false b c = refl

-- The flags that the loop carries.
record Flags (t u : Tally) (ss : List ComponentDeployStatus) : Type 0 where
  complete : u.all_complete ≡ (t.all_complete && all (has_state state_complete) ss)
  settled : u.all_complete_or_paused ≡ (t.all_complete_or_paused && all at_rest ss)
  ready : u.all_available ≡ (t.all_available && all (λ s. deployment_ready s.status) ss)
  failed : u.any_failed ≡ (t.any_failed || any (has_state state_failed) ss)

pub and_true : (a : Bool) → a ≡ (a && true)
and_true true = refl
and_true false = refl

or_false : (a : Bool) → a ≡ (a || false)
or_false true = refl
or_false false = refl

tally_statuses-Flags :
    (ss : List ComponentDeployStatus) (t : Tally) → Flags t (tally_statuses ss t) ss
unfolding tally_statuses tally_status
tally_statuses-Flags [] t = record {
  complete = and_true _;
  settled = and_true _;
  ready = and_true _;
  failed = or_false _;
}
tally_statuses-Flags (s ∷ ss) t =
    let f = tally_statuses-Flags ss (tally_status s t) in
    let d = get_state s in
    record {
      complete =
          f.complete
          ∙ and_assoc t.all_complete (completes d) (all (has_state state_complete) ss)
          ∙ ap (λ b. t.all_complete && (b && all (has_state state_complete) ss))
              (completes-is_state d);
      settled =
          f.settled
          ∙ and_assoc t.all_complete_or_paused (settles d) (all at_rest ss)
          ∙ ap (λ b. t.all_complete_or_paused && (b && all at_rest ss)) (settles-is_state d);
      ready = f.ready ∙ and_assoc t.all_available _ _;
      failed =
          f.failed
          ∙ or_assoc t.any_failed (fails d) (any (has_state state_failed) ss)
          ∙ ap (λ b. t.any_failed || (b || any (has_state state_failed) ss)) (fails-is_state d);
    }

self_ltb : (n : ℕ) → ltb n n ≡ false
self_ltb n = ground arith

abbrev state_of : Bool → Bool → Bool → DeploymentState
state_of complete settled failed =
    if complete
    then state_complete
    else if settled
    then state_paused
    else if failed
    then state_failed
    else state_progressing

finish_tally-state :
    (r : ComponentDeployStatus) (complete settled ready failed : Bool)
    → let t : Tally = record {
      ret = r;
      all_complete = complete;
      all_complete_or_paused = settled;
      all_available = ready;
      any_failed = failed;
    } in
      (get_state (finish_tally t) ≡ state_of complete settled failed)
      × (deployment_ready (finish_tally t).status ≡ ready)
unfolding get_state deployment_ready
finish_tally-state r true settled true failed = (rw (self_ltb r.generation) refl, refl)
finish_tally-state r true settled false failed = (rw (self_ltb r.generation) refl, refl)
finish_tally-state r false true true failed = (rw (self_ltb r.generation) refl, refl)
finish_tally-state r false true false failed = (rw (self_ltb r.generation) refl, refl)
finish_tally-state r false false true true = (rw (self_ltb r.generation) refl, refl)
finish_tally-state r false false false true = (rw (self_ltb r.generation) refl, refl)
finish_tally-state r false false true false = (rw (self_ltb r.generation) refl, refl)
finish_tally-state r false false false false = (rw (self_ltb r.generation) refl, refl)

-- The aggregated status of a component's deployment groups is complete if all groups are, else
-- paused if each is complete or paused, else failed if one is, else progressing; and it is ready
-- exactly when each of the groups is.
pub aggregate_component_deploy_statuses-state :
    (s : ComponentDeployStatus) (ss : List ComponentDeployStatus)
    → (get_state (aggregate_component_deploy_statuses (s ∷ ss)) ≡ joint_state (s ∷ ss))
      × (deployment_ready (aggregate_component_deploy_statuses (s ∷ ss)).status
          ≡ all (λ x. deployment_ready x.status) (s ∷ ss))
unfolding aggregate_component_deploy_statuses
aggregate_component_deploy_statuses-state s ss =
    let f = tally_statuses-Flags (s ∷ ss) (start_tally s) in
    let u = tally_statuses (s ∷ ss) (start_tally s) in
    let (state, ready) =
      finish_tally-state u.ret u.all_complete u.all_complete_or_paused u.all_available
        u.any_failed in
    (state ∙ (λ i. state_of (f.complete i) (f.settled i) (f.failed i)), ready ∙ f.ready)
