-- ===== src/Upgrade/Transitions.antt =====
-- The transitions of the upgrade's state machine as a relation on the part of the upgrade that
-- decides them.
use milvus_operator.Base.{ℕ, true, false, ◌≡◌, sym, subst, ◌⊎◌}
use milvus_operator.Base.Int.{pos, ◌+ℤ◌, ltb_ℤ}
use milvus_operator.Upgrade.{
  UpgradeState, pending, old_version_stopping, backup_meta, updating_meta, new_version_starting,
  succeeded, bakup_meta_failed, update_meta_failed, rollback_new_version_stopping,
  rollback_restoring_old_meta, rollback_old_version_starting, rollback_succeeded, rollback_failed,
  unexpected,
}
use milvus_operator.Upgrade.Frame.{Core}

-- One transition: the cores before and after.
pub data Step : Core → Core → Type 0 where
  backup : {c : Core} → c.state ≡ old_version_stopping → Step c (record c { state = backup_meta })
  backuped :
      {c : Core}
      → c.state ≡ backup_meta
      → Step c (record c { state = updating_meta; meta_backuped = true })
  backup_fails :
      {c : Core} → c.state ≡ backup_meta → Step c (record c { state = bakup_meta_failed })
  change : {c : Core} → c.state ≡ updating_meta → Step c (record c { meta_storage_changed = true })
  changed :
      {c : Core}
      → c.state ≡ updating_meta
      → c.meta_storage_changed ≡ true
      → Step c (record c { state = new_version_starting })
  change_fails :
      {c : Core}
      → c.state ≡ updating_meta
      → c.meta_storage_changed ≡ true
      → Step c (record c { state = update_meta_failed })
  succeed : {c : Core} → c.state ≡ new_version_starting → Step c (record c { state = succeeded })
  retry :
      {c : Core}
      → c.state ≡ bakup_meta_failed
      → ltb_ℤ c.spec.max_retry (c.retried_times +ℤ pos 1) ≡ false
      → Step c (record c { state = backup_meta; retried_times = c.retried_times +ℤ pos 1 })
  roll_back :
      {c : Core}
      → (c.state ≡ bakup_meta_failed) ⊎ (c.state ≡ update_meta_failed)
      → c.spec.rollback_if_failed ≡ true
      → Step c (record c { state = rollback_new_version_stopping; is_rollbacking = true })
  restore :
      {c : Core}
      → c.state ≡ rollback_new_version_stopping
      → Step c (record c { state = rollback_restoring_old_meta })
  restored :
      {c : Core}
      → c.state ≡ rollback_restoring_old_meta
      → Step c (record c { state = rollback_old_version_starting })
  restore_fails :
      {c : Core}
      → c.state ≡ rollback_restoring_old_meta
      → c.meta_backuped ≡ true
      → Step c (record c { state = rollback_failed })
  rolled_back :
      {c : Core}
      → c.state ≡ rollback_old_version_starting
      → Step c (record c { state = rollback_succeeded })

-- The number of states from a state to the end of the longest chain.
abbrev pub rank : UpgradeState → ℕ
rank old_version_stopping = 8
rank backup_meta = 7
rank updating_meta = 6
rank bakup_meta_failed = 5
rank update_meta_failed = 5
rank rollback_new_version_stopping = 4
rank rollback_restoring_old_meta = 3
rank rollback_old_version_starting = 2
rank new_version_starting = 2
rank succeeded = 1
rank rollback_succeeded = 1
rank rollback_failed = 1
rank pending = 1
rank (unexpected s) = 1

pub data Steps : Core → Core → Type 0 where
  here : {c : Core} → Steps c c
  step : {c d e : Core} → Step c d → Steps d e → Steps c e

abbrev pub one : {c d : Core} → Step c d → Steps c d
one h = step h here

-- Nothing happened to a core.
pub same-Steps : {c d : Core} → d ≡ c → Steps c d
same-Steps {c = c} h = subst (λ d. Steps c d) (sym h) here
