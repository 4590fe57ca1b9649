-- ===== src/Upgrade/Handlers.antt =====
-- The state functions of the upgrade: the handlers of pkg/controllers/milvusupgrade_fsm.go and the
-- pods of their tasks.
use Prim.Native.String.{◌++◌}
use milvus_operator.Base.{
  String, true, Option, none, some, List, [], ◌∷◌, str_eq, if◌then◌else◌, Error, errorf, wrap,
  wrap_error, ok, err,
}
use milvus_operator.Base.Int.{pos, ◌+ℤ◌, ltb_ℤ}
use milvus_operator.Deployment.{PodPhase, running, failed, phase_unknown}
use milvus_operator.Upgrade.{
  UpgradeState, pending, old_version_stopping, backup_meta, updating_meta, new_version_starting,
  succeeded, bakup_meta_failed, update_meta_failed, rollback_new_version_stopping,
  rollback_restoring_old_meta, rollback_old_version_starting, rollback_succeeded, rollback_failed,
  unexpected, MilvusUpgrade, Milvus, remove_prefix_v,
}
use milvus_operator.Upgrade.Server.{
  TaskKind, backup_task, update_task, rollback_task, MigrationConfig, Object, volume_claim,
  config_map, task_pod, Server, Job, Effect, then_do,
}
use milvus_operator.Upgrade.Replicas.{
  with_status, with_milvus, wrap_effect, record_old_info, stop_milvus, start_milvus,
  is_milvus_stopping, is_milvus_stopped,
}

unfoldable pub task_name : TaskKind → String
task_name backup_task = "backup-meta"
task_name update_task = "update-meta"
task_name rollback_task = "rollback-meta"

unfoldable pub format_upgrade_obj_name : String → TaskKind → String
unfolding task_name
format_upgrade_obj_name upgrade kind = upgrade ++ ("-" ++ task_name kind)

-- The `Command` of the task's configuration.
unfoldable pub task_command : TaskKind → String
task_command backup_task = "backup"
task_command update_task = "run"
task_command rollback_task = "rollback"

abbrev pub or_default : String → Option String → String
or_default s none = s
or_default s (some t) = t

unfoldable pub migration_config : MilvusUpgrade → Milvus → TaskKind → MigrationConfig
unfolding remove_prefix_v task_command
migration_config u m kind = record {
  command = task_command kind;
  source_version = remove_prefix_v u.spec.source_version;
  target_version = remove_prefix_v u.spec.target_version;
  endpoints = m.etcd_endpoints;
  root_path = or_default m.name (m.conf "rootPath");
  meta_sub_path = or_default "meta" (m.conf "metaSubPath");
  kv_sub_path = or_default "kv" (m.conf "kvSubPath");
}

-- `doOnPodPhase`, on the first pod of the list.
abbrev pub do_on_pod_phase : {A : Type 0} → List PodPhase → A → A → A → A → A
do_on_pod_phase [] on_no_pod on_success on_failure unchanged = on_no_pod
do_on_pod_phase (p ∷ ps) on_no_pod on_success on_failure unchanged = elim p [
  | PodPhase.succeeded ↦ on_success
  | PodPhase.pending ↦ unchanged
  | running ↦ unchanged
  | failed ↦ on_failure
  | phase_unknown ↦ on_failure
]

module _ {W : Type 0} (srv : Server W) where
  -- A handler's next state, its error, and what it leaves.
  abbrev pub Answer : Type 0
  Answer = (UpgradeState × Option Error) × Job W

  abbrev pub to : UpgradeState → Job W → Answer
  to s j = ((s, none), j)

  -- `return "", errors.Wrap(err, text)`.
  abbrev pub stay : String → Option Error × Job W → Answer
  stay text (e, j) = ((pending, wrap_error text e), j)

  -- Create the object if it is not there.
  unfoldable pub create_or_update : Object → Effect W
  create_or_update o j = let (e, w) = srv.create_or_update o j.world in (e, record j { world = w })

  unfoldable pub create_sub_object_or_ignore : Object → Effect W
  unfolding create_or_update
  create_sub_object_or_ignore o j = elim (srv.set_controller_reference o) [
    | some e ↦ (some (wrap "set controller reference" e), j)
    | none ↦ create_or_update o j
  ]

  unfoldable pub create_config_map : TaskKind → Effect W
  unfolding create_sub_object_or_ignore migration_config format_upgrade_obj_name
  create_config_map kind j = elim (srv.render (migration_config j.upgrade j.milvus kind)) [
    | err e ↦ (some e, j)
    | ok yaml ↦
        create_sub_object_or_ignore
          (config_map (format_upgrade_obj_name j.upgrade.name kind) kind yaml) j
  ]

  -- The configuration map and the pod, which runs the tool image on the backup volume.
  unfoldable pub start_task_pod : TaskKind → Effect W
  unfolding create_config_map create_sub_object_or_ignore format_upgrade_obj_name
  start_task_pod kind j = then_do (create_config_map kind j) (λ k.
      let u = k.upgrade in
      create_sub_object_or_ignore
        (task_pod (format_upgrade_obj_name u.name kind) kind u.spec.tool_image u.status.backup_pvc)
        k)

  abbrev set_backup_pvc : Job W → String → Job W
  set_backup_pvc j name = with_status srv j (record (j.upgrade.status) { backup_pvc = name })

  unfoldable pub start_bakup_meta_pod : Effect W
  unfolding create_sub_object_or_ignore create_or_update start_task_pod
  start_bakup_meta_pod j =
      let given = j.upgrade.spec.backup_pvc in
      let i = set_backup_pvc j j.upgrade.name in
      if str_eq given ""
      then elim (srv.set_controller_reference (volume_claim j.upgrade.name)) [
        | some e ↦ (some (wrap "set controller reference" e), i)
        | none ↦
            then_do
              (wrap_effect srv "create backup pvc"
                (create_or_update (volume_claim j.upgrade.name) i))
              (start_task_pod backup_task)
      ]
      else start_task_pod backup_task (set_backup_pvc j given)

  unfoldable pub start_update_meta_pod : Effect W
  unfolding start_task_pod
  start_update_meta_pod = start_task_pod update_task

  unfoldable pub start_rollback_meta_pod : Effect W
  unfolding start_task_pod
  start_rollback_meta_pod = start_task_pod rollback_task

  -- `handlePod`: the pods of one task of the upgrade, then the callback of the first one's phase.
  unfoldable pub handle_pod :
      TaskKind → (Job W → Answer) → (Job W → Answer) → (Job W → Answer) → Job W → Answer
  handle_pod kind on_no_pod on_success on_failure j =
      let (answer, w) = srv.list_pods j.upgrade.name kind j.world in
      let k = record j { world = w } in
      elim answer [
        | err e ↦ ((pending, some (wrap "list pod for %s" e)), k)
        | ok pods ↦ do_on_pod_phase pods on_no_pod on_success on_failure (to pending) k
      ]

  unfoldable pub handle_upgrade_failed : Job W → Answer
  handle_upgrade_failed j =
      if j.upgrade.spec.rollback_if_failed
      then to rollback_new_version_stopping (
          with_status srv j (record (j.upgrade.status) {
            is_rollbacking = true;
            state = rollback_new_version_stopping;
          }))
      else to pending j

  abbrev pub set_image : Job W → String → Job W
  set_image j image = with_milvus srv j (record (j.milvus) {
    spec = record (j.milvus.spec) {
      components = record (j.milvus.spec.components) { image = image };
    };
  })

  -- Start with an image; an error ends the pass.
  unfoldable pub start_with : String → UpgradeState → Job W → Answer
  unfolding start_milvus
  start_with image next j =
      let (e, k) = start_milvus srv (set_image j image) in
      elim e [ some x ↦ ((pending, some x), k) | none ↦ to next k ]

  unfoldable pub rollback_old_version_starting_func : Job W → Answer
  unfolding start_with
  rollback_old_version_starting_func j =
      start_with j.upgrade.status.source_image rollback_succeeded j

  unfoldable pub starting_milvus_new_version : Job W → Answer
  unfolding start_with
  starting_milvus_new_version j = start_with j.upgrade.spec.target_image succeeded j

  -- What the two stopping states do once the replicas are zero.
  unfoldable pub when_stopped : UpgradeState → Job W → Answer
  unfolding is_milvus_stopped
  when_stopped next j =
      let (answer, k) = is_milvus_stopped srv j in
      elim answer [
        | err e ↦ ((pending, some (wrap "check milvus is stopped" e)), k)
        | ok stopped ↦ if stopped then to next k else to pending k
      ]

  unfoldable pub rollback_new_version_stopping_func : Job W → Answer
  unfolding is_milvus_stopping stop_milvus when_stopped
  rollback_new_version_stopping_func j =
      if is_milvus_stopping srv j
      then when_stopped rollback_restoring_old_meta j
      else stay "stop milvus" (stop_milvus srv j)

  unfoldable pub old_version_stopping_func : Job W → Answer
  unfolding is_milvus_stopping record_old_info stop_milvus when_stopped
  old_version_stopping_func j =
      if is_milvus_stopping srv j
      then when_stopped backup_meta j
      else stay "stop milvus" (stop_milvus srv (record_old_info srv j))

  abbrev set_meta_backuped : Job W → Job W
  set_meta_backuped j = with_status srv j (record (j.upgrade.status) { meta_backuped = true })

  unfoldable pub backup_meta_func : Job W → Answer
  unfolding handle_pod start_bakup_meta_pod
  backup_meta_func =
      handle_pod backup_task (λ j. stay "start backup-meta pod" (start_bakup_meta_pod j))
        (λ j. to updating_meta (set_meta_backuped j)) (to bakup_meta_failed)

  abbrev set_meta_storage_changed : Job W → Job W
  set_meta_storage_changed j =
      with_status srv j (record (j.upgrade.status) { meta_storage_changed = true })

  unfoldable pub updating_meta_func : Job W → Answer
  unfolding handle_pod start_update_meta_pod
  updating_meta_func j =
      if j.upgrade.status.meta_storage_changed
      then handle_pod update_task
          (λ k. ((update_meta_failed, some (errorf "cannot find update-meta pod")), k))
          (to new_version_starting) (to update_meta_failed) j
      else stay "start update-meta pod" (start_update_meta_pod (set_meta_storage_changed j))

  unfoldable pub rollback_restoring_old_meta_func : Job W → Answer
  unfolding handle_pod start_rollback_meta_pod
  rollback_restoring_old_meta_func j =
      if j.upgrade.status.meta_backuped
      then handle_pod rollback_task (λ k. stay "start backup-meta pod" (start_rollback_meta_pod k))
          (to rollback_old_version_starting) (to rollback_failed) j
      else to rollback_old_version_starting j

  unfoldable pub handle_bakup_meta_failed : Job W → Answer
  unfolding handle_upgrade_failed
  handle_bakup_meta_failed j =
      let tried = j.upgrade.status.retried_times +ℤ pos 1 in
      if ltb_ℤ j.upgrade.spec.max_retry tried
      then handle_upgrade_failed j
      else let (e, w) = srv.delete_pods j.upgrade.name backup_task j.world in
        let k = record j { world = w } in
        elim e [
          | some x ↦ ((pending, some (wrap "delete backup-meta pod" x)), k)
          | none ↦ to pending (
              with_status srv k
                (record (k.upgrade.status) { state = backup_meta; retried_times = tried }))
        ]

  -- `stateFuncMap`: `none` for a state that it lacks, `some none` for one without a function.
  unfoldable pub state_func : UpgradeState → Option (Option (Job W → Answer))
  unfolding old_version_stopping_func backup_meta_func updating_meta_func
      starting_milvus_new_version handle_bakup_meta_failed handle_upgrade_failed
      rollback_new_version_stopping_func rollback_restoring_old_meta_func
      rollback_old_version_starting_func
  state_func old_version_stopping = some (some old_version_stopping_func)
  state_func backup_meta = some (some backup_meta_func)
  state_func updating_meta = some (some updating_meta_func)
  state_func new_version_starting = some (some starting_milvus_new_version)
  state_func succeeded = some none
  state_func bakup_meta_failed = some (some handle_bakup_meta_failed)
  state_func update_meta_failed = some (some handle_upgrade_failed)
  state_func rollback_new_version_stopping = some (some rollback_new_version_stopping_func)
  state_func rollback_restoring_old_meta = some (some rollback_restoring_old_meta_func)
  state_func rollback_old_version_starting = some (some rollback_old_version_starting_func)
  state_func rollback_succeeded = some none
  state_func rollback_failed = some none
  state_func pending = none
  state_func (unexpected s) = none
