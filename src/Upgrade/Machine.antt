-- ===== src/Upgrade/Machine.antt =====
-- The state machine of the upgrade: DetermineCurrentState, RunStateMachine and updateCondition in
-- pkg/controllers/milvusupgrade_fsm.go, Reconcile in milvusupgrade_controller.go.
use milvus_operator.Base.{
  ℕ, zero, suc, String, Bool, true, false, ◌||◌, Option, none, some, List, [], ◌∷◌, if◌then◌else◌,
  Error, errorf, wrap, wrap_error, Result, ok, err, is_api_not_found,
}
use milvus_operator.Api.Status.{ConditionStatus, is_true, is_false}
use milvus_operator.Upgrade.{
  UpgradeState, pending, old_version_stopping, backup_meta, updating_meta, new_version_starting,
  succeeded, bakup_meta_failed, update_meta_failed, rollback_new_version_stopping,
  rollback_succeeded, state_name, need_requeue, is_state_in, Operation, rollback_operation,
  upgrade_operation, UpgradeStatus, MilvusUpgrade, Milvus,
}
use milvus_operator.Upgrade.Server.{Server, Job}
use milvus_operator.Upgrade.Replicas.{with_status}
use milvus_operator.Upgrade.Handlers.{Answer, state_func}

abbrev pub not_rollback_states : List UpgradeState
not_rollback_states =
    pending ∷ old_version_stopping ∷ backup_meta ∷ updating_meta ∷ new_version_starting ∷ succeeded
    ∷ bakup_meta_failed ∷ update_meta_failed ∷ []

abbrev pub is_rollback : Operation → Bool
is_rollback rollback_operation = true
is_rollback upgrade_operation = false

abbrev pub is_pending : UpgradeState → Bool
is_pending pending = true
is_pending _ = false

abbrev pub set_state : UpgradeState → UpgradeStatus → UpgradeStatus
set_state s st = record st { state = s }

-- The state to run from is the state of the status that this returns.
unfoldable pub determine_current_state : Operation → UpgradeStatus → UpgradeStatus
unfolding is_state_in
determine_current_state op st =
    if st.is_rollbacking || is_rollback op
    then if is_state_in st.state not_rollback_states
      then record st { is_rollbacking = true; state = rollback_new_version_stopping }
      else st
    else if is_pending st.state
    then set_state old_version_stopping st
    else st

unfoldable pub condition_status : UpgradeState → ConditionStatus
condition_status succeeded = is_true
condition_status rollback_succeeded = is_true
condition_status _ = is_false

-- The longest chain of states.
abbrev pub fuel : ℕ
fuel = 8

module _ {W : Type 0} (srv : Server W) where
  abbrev error_message : Option Error → String
  error_message none = ""
  error_message (some e) = srv.error_text e

  unfoldable pub update_condition : UpgradeStatus → Option Error → UpgradeStatus
  unfolding state_name condition_status
  update_condition st e = record st {
    conditions =
        srv.set_status_condition
          (record {
            type = if st.is_rollbacking then "Rollbacked" else "Upgraded";
            status = condition_status st.state;
            reason = state_name st.state;
            message = error_message e;
          })
          st.conditions;
  }

  -- How a pass over the states ends: the error returned, the error that the deferred condition
  -- sees, and what is left.
  pub record Outcome : Type 0 where
    pub returned : Option Error
    pub seen : Option Error
    pub job : Job W

  abbrev pub enter : UpgradeState → Job W → Job W
  enter s j = with_status srv j (set_state s j.upgrade.status)

  -- What the loop does with a handler's answer, `rest` being the loop from the next state.
  abbrev pub conclude : Answer srv → Option Outcome → Option Outcome
  conclude ((next, some e), j) rest = some (record { returned = some e; seen = some e; job = j })
  conclude ((next, none), j) rest =
      if is_pending next then some (record { returned = none; seen = none; job = j }) else rest

  -- The loop of RunStateMachine, `none` if the fuel runs out.
  unfoldable pub run_loop : ℕ → UpgradeState → Job W → Option Outcome
  unfolding state_func
  run_loop zero s j = none
  run_loop (suc n) s j = elim (state_func srv s) [
    | none ↦ some (record {
      returned = some (errorf "Unexpected upgrade state[%s]");
      seen = none;
      job = enter s j;
    })
    | some func ↦ elim func [
      | none ↦ some (record { returned = none; seen = none; job = enter s j })
      | some f ↦ let a = f (enter s j) in conclude a (run_loop n a.0.0 a.1)
    ]
  ]

  -- What the loop begins with, once the Milvus resource is read.
  abbrev pub loaded : MilvusUpgrade → UpgradeStatus → Milvus → W → Job W
  loaded u st m w = record {
    upgrade = record u {
      status = record st {
        conditions = srv.remove_status_condition "CheckingUpgrationState" st.conditions;
      };
    };
    milvus = m;
    world = w;
  }

  abbrev pub finish : Option Outcome → Option (Option Error × (MilvusUpgrade × W))
  finish none = none
  finish (some o) = some (
    o.returned,
    (record (o.job.upgrade) { status = update_condition o.job.upgrade.status o.seen }, o.job.world),
  )

  unfoldable pub run_state_machine : MilvusUpgrade → W → Option (Option Error × (MilvusUpgrade × W))
  unfolding determine_current_state run_loop update_condition
  run_state_machine u w =
      let st = determine_current_state u.spec.operation u.status in
      let (answer, w') = srv.get_milvus w in
      elim answer [
        | err e ↦ some (
          some e,
          (
            record u {
              status = record st {
                conditions =
                    srv.set_status_condition
                      (record {
                        type = "CheckingUpgrationState";
                        status = is_false;
                        reason = "GetMilvusFailed";
                        message = srv.error_text e;
                      })
                      st.conditions;
              };
            },
            w',
          ),
        )
        | ok m ↦ finish (run_loop fuel st.state (loaded u st m w'))
      ]

  -- Reconcile of an upgrade: `get` and `update_status` are the client's calls for the upgrade, and
  -- the answer is whether to come again, and the error.
  abbrev finish_reconcile :
      (MilvusUpgrade → W → Option Error × W)
      → Option Error × (MilvusUpgrade × W)
      → (Bool × Option Error) × W
  finish_reconcile update_status (e, (u, w)) =
      let (answer, w') = update_status u w in
      elim answer [
        | some x ↦
            ((false, some (wrap "failed to update status, with continueUpgrade err[%s]" x)), w')
        | none ↦ ((need_requeue u.status.state, wrap_error "failed to do upgrade" e), w')
      ]

  unfoldable pub reconcile :
      (W → Result MilvusUpgrade × W)
      → (MilvusUpgrade → W → Option Error × W)
      → W
      → Option ((Bool × Option Error) × W)
  unfolding run_state_machine need_requeue
  reconcile get update_status w =
      let (answer, w') = get w in
      elim answer [
        | err e ↦ some ((false, if is_api_not_found e then none else some e), w')
        | ok u ↦ elim (run_state_machine u w') [
          | none ↦ none
          | some r ↦ some (finish_reconcile update_status r)
        ]
      ]
