-- ===== src/Rollout/Invariant.antt =====
-- While no rollout is under way, the deployment that is not current has no replicas: an invariant
-- of the writes of pkg/controllers/deploy_ctrl.go.
mod Writes
mod Reads
mod Rolling
mod Scaling
mod Reconcile
pub use Writes.*
pub use Reads.*
pub use Rolling.*
pub use Scaling.*
pub use Reconcile.*
