-- ===== src/Upgrade/Frame.antt =====
-- What the calls of the upgrade leave alone in its status.
use milvus_operator.Base.{
  String, Bool, Option, none, some, Error, ◌≡◌, refl, ◌∙◌, arith, inl, inr, Bool-cases,
}
use milvus_operator.Base.Int.{ℤ}
use milvus_operator.Upgrade.{UpgradeState, UpgradeSpec, MilvusUpgrade}
use milvus_operator.Upgrade.Server.{TaskKind, Object, Server, Job, Effect, then_do}
use milvus_operator.Upgrade.Replicas.{
  wrap_effect, annotate_alpha_cr, update, has_external_hpa, workloads, record_old_info, stop_milvus,
  start_milvus, is_milvus_stopped, mark_stopped_at_annotation,
}
use milvus_operator.Upgrade.Handlers.{
  create_or_update, create_sub_object_or_ignore, create_config_map, start_task_pod,
  start_bakup_meta_pod,
}

-- The spec, and the part of the status that decides the states.
pub record Core : Type 0 where
  pub spec : UpgradeSpec
  pub state : UpgradeState
  pub is_rollbacking : Bool
  pub meta_backuped : Bool
  pub meta_storage_changed : Bool
  pub retried_times : ℤ

abbrev pub core : MilvusUpgrade → Core
core u = record {
  spec = u.spec;
  state = u.status.state;
  is_rollbacking = u.status.is_rollbacking;
  meta_backuped = u.status.meta_backuped;
  meta_storage_changed = u.status.meta_storage_changed;
  retried_times = u.status.retried_times;
}

module _ {W : Type 0} (srv : Server W) where
  abbrev pub core_of : Job W → Core
  core_of j = core j.upgrade

  pub then_do-Same :
      (r : Option Error × Job W) (f : Effect W)
      → ((k : Job W) → core_of (f k).1 ≡ core_of k)
      → core_of (then_do r f).1 ≡ core_of r.1
  then_do-Same (some e, j) f h = refl
  then_do-Same (none, j) f h = h j

  pub annotate_alpha_cr-Same :
      (v : String) (j : Job W) → core_of (annotate_alpha_cr srv v j).1 ≡ core_of j
  unfolding annotate_alpha_cr
  annotate_alpha_cr-Same v j = ground arith

  pub update-Same : (j : Job W) → core_of (update srv j).1 ≡ core_of j
  unfolding update
  update-Same j = refl

  pub create_sub_object-Same :
      (o : Object) (j : Job W) → core_of (create_sub_object_or_ignore srv o j).1 ≡ core_of j
  unfolding create_sub_object_or_ignore create_or_update
  create_sub_object-Same o j = ground arith

  pub create_config_map-Same :
      (kind : TaskKind) (j : Job W) → core_of (create_config_map srv kind j).1 ≡ core_of j
  unfolding create_config_map create_sub_object_or_ignore create_or_update
  create_config_map-Same kind j = ground arith

  pub start_task_pod-Same :
      (kind : TaskKind) (j : Job W) → core_of (start_task_pod srv kind j).1 ≡ core_of j
  unfolding start_task_pod
  start_task_pod-Same kind j =
      then_do-Same (create_config_map srv kind j) _ (λ k. create_sub_object-Same _ k)
      ∙ create_config_map-Same kind j

  pub is_milvus_stopped-Same : (j : Job W) → core_of (is_milvus_stopped srv j).1 ≡ core_of j
  unfolding is_milvus_stopped mark_stopped_at_annotation update
  is_milvus_stopped-Same j = ground arith

  pub record_old_info-Same : (j : Job W) → core_of (record_old_info srv j) ≡ core_of j
  unfolding record_old_info
  record_old_info-Same j = ground arith

  pub start_bakup_meta_pod-Same : (j : Job W) → core_of (start_bakup_meta_pod srv j).1 ≡ core_of j
  unfolding start_bakup_meta_pod create_or_update
  start_bakup_meta_pod-Same j = grind (arith, start_task_pod-Same, then_do-Same)

  pub stop_milvus-Same : (j : Job W) → core_of (stop_milvus srv j).1 ≡ core_of j
  unfolding stop_milvus update
  stop_milvus-Same j = elim (Bool-cases (has_external_hpa j.milvus.spec (workloads srv j.milvus))) [
    | inl h ↦ rw h refl
    | inr h ↦ rw h (
        then_do-Same (wrap_effect srv "annotate alpha cr" (annotate_alpha_cr srv "upgrading" j)) _
          (λ k. refl)
        ∙ annotate_alpha_cr-Same "upgrading" j)
  ]

  pub start_milvus-Same : (j : Job W) → core_of (start_milvus srv j).1 ≡ core_of j
  unfolding start_milvus annotate_alpha_cr update
  start_milvus-Same j = ground arith
