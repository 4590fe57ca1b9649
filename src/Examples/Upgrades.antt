-- ===== src/Examples/Upgrades.antt =====
-- Concrete upgrades at which the theorems on the upgrade's state machine apply.
use milvus_operator.Base.{
  ℕ, suc, Bool, true, false, Option, none, some, List, [], ◌∷◌, ◌≡◌, refl, inl, inr, arith, Error,
  errorf, ok,
}
use milvus_operator.Base.Int.{pos}
use milvus_operator.Deployment.{PodPhase}
use milvus_operator.Upgrade.{
  UpgradeState, updating_meta, rollback_restoring_old_meta, old_version_stopping, pending,
  upgrade_operation, rollback_operation, Operation, MilvusUpgrade, Milvus, is_state_in, state_name,
}
use milvus_operator.Upgrade.Server.{update_task, rollback_task, Server, Job}
use milvus_operator.Upgrade.Handlers.{
  updating_meta_func, rollback_restoring_old_meta_func, handle_pod,
}
use milvus_operator.Upgrade.Machine.{run_state_machine}
use milvus_operator.Upgrade.Frame.{core}
use milvus_operator.Upgrade.Termination.{Passes, determined, run_state_machine-Passes}
use milvus_operator.Upgrade.Invariant.{
  Valid, is_rollback_state, run_state_machine-Valid, rollback_stays,
}
use milvus_operator.Upgrade.Pods.{
  Succeeded, starts-Succeeded, restores-Succeeded, missing_pod-stays,
}
use milvus_operator.Examples.{rolling_three}

abbrev milvus : Milvus
milvus = record {
  name = "milvus";
  spec = rolling_three;
  annotations = [];
  owners = [];
  etcd_endpoints = "etcd:2379" ∷ [];
  conf = λ key. none;
}

-- A server that accepts every change and counts its calls; each task has the same pods.
abbrev server : List PodPhase → Server ℕ
server pods = record {
  get_milvus = λ w. (ok milvus, suc w);
  update_milvus = λ m w. (none, suc w);
  list_pods = λ name kind w. (ok pods, suc w);
  delete_pods = λ name kind w. (none, suc w);
  list_deployments = λ name w. (ok [], suc w);
  get_alpha = λ name w. (ok [], suc w);
  update_alpha = λ name m w. (none, suc w);
  set_controller_reference = λ o. none;
  create_or_update = λ o w. (none, suc w);
  set_status_condition = λ c cs. c ∷ cs;
  remove_status_condition = λ type cs. cs;
  error_text = λ e. "error";
  render = λ config. ok config.command;
  now = λ w. w;
  format_time = λ t. "2024-01-01T00:00:00Z";
  parse_time = λ text. some 0;
  newer_than_2_6 = λ text. false;
}

abbrev upgrade_in : Operation → UpgradeState → Bool → Bool → MilvusUpgrade
upgrade_in operation state changed rollbacking = record {
  name = "to-2-5";
  spec = record {
    operation = operation;
    source_version = "v2.4.0";
    target_version = "v2.5.0";
    target_image = "milvus:v2.5.0";
    tool_image = "tool";
    max_retry = pos 3;
    rollback_if_failed = true;
    backup_pvc = "";
  };
  status = record {
    state = state;
    conditions = [];
    source_image = "milvus:v2.4.0";
    meta_storage_changed = changed;
    meta_backuped = changed;
    is_rollbacking = rollbacking;
    replicas_before_upgrade = none;
    group_replicas_before_upgrade = none;
    backup_pvc = "";
    retried_times = pos 0;
  };
}

abbrev fresh : MilvusUpgrade
fresh = upgrade_in upgrade_operation pending false false

abbrev abandoned : MilvusUpgrade
abandoned = upgrade_in rollback_operation old_version_stopping false false

abbrev changing : MilvusUpgrade
changing = upgrade_in upgrade_operation updating_meta true false

abbrev restoring : MilvusUpgrade
restoring = upgrade_in upgrade_operation rollback_restoring_old_meta true true

fresh-Valid : Valid (core fresh)
fresh-Valid = record {
  rollback_flag = refl;
  backup_taken = λ e. ground arith;
  change_made = λ e. ground arith;
  backup_first = λ e. e;
  retries = inl refl;
}

abandoned-Valid : Valid (core abandoned)
abandoned-Valid = record {
  rollback_flag = refl;
  backup_taken = λ e. ground arith;
  change_made = λ e. ground arith;
  backup_first = λ e. e;
  retries = inl refl;
}

restoring-Valid : Valid (core restoring)
restoring-Valid = record {
  rollback_flag = refl;
  backup_taken = λ e. ground arith;
  change_made = λ e. ground arith;
  backup_first = λ e. e;
  retries = inl refl;
}

abbrev done : List PodPhase
done = PodPhase.succeeded ∷ []

abbrev job : MilvusUpgrade → Job ℕ
job u = record { upgrade = u; milvus = milvus; world = 0 }

run_state_machine-Passes_example :
    Passes (server done) (core (determined fresh)) (run_state_machine (server done) fresh 0)
run_state_machine-Passes_example = run_state_machine-Passes (server done) fresh 0

run_state_machine-Valid_example :
    (e : Option Error) × (u' : MilvusUpgrade) × (w' : ℕ) × (run_state_machine (server done) fresh 0
      ≡ some (e, (u', w')))
    × Valid (core u')
run_state_machine-Valid_example = run_state_machine-Valid (server done) fresh 0 fresh-Valid

rollback_stays_example :
    (e : Option Error) × (u' : MilvusUpgrade) × (w' : ℕ) × (run_state_machine
        (server done)
        abandoned
        0
      ≡ some (e, (u', w')))
    × (u'.status.is_rollbacking ≡ true)
    × (is_rollback_state u'.status.state ≡ true)
unfolding is_state_in state_name
rollback_stays_example = rollback_stays (server done) abandoned 0 abandoned-Valid (inr (refl, refl))

starts-Succeeded_example :
    (changing.status.meta_storage_changed ≡ true)
    × Succeeded (server done) update_task (job changing)
unfolding updating_meta_func handle_pod
starts-Succeeded_example = starts-Succeeded (server done) (job changing) refl

restores-Succeeded_example : Succeeded (server done) rollback_task (job restoring)
unfolding rollback_restoring_old_meta_func handle_pod
restores-Succeeded_example =
    restores-Succeeded (server done) (job restoring) restoring-Valid refl refl

missing_pod-stays_example :
    (u' : MilvusUpgrade) × (run_state_machine (server []) changing 0
      ≡ some (some (errorf "cannot find update-meta pod"), (u', 2)))
    × (u'.status.state ≡ updating_meta)
missing_pod-stays_example =
    missing_pod-stays (server []) changing milvus 0 1 2 refl refl refl refl refl refl
