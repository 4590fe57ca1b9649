-- ===== src/Rollout/Reachable.antt =====
-- Reconciliations of one component's two deployments and the changes that others make between
-- them, and what holds in every world that they reach.
use milvus_operator.Base.{
  Bool, true, false, none, some, ◌≡◌, ◌⊎◌, inl, inr, refl, ◌∙◌, arith, Bool-cases,
}
use milvus_operator.Base.Int.{pos, leb_ℤ, ltb_ℤ}
use milvus_operator.Deployment.{Deployment, get_deploy_replicas}
use milvus_operator.Component.{MilvusComponent}
use milvus_operator.Rollout.{Milvus, is_component_rolling, get_current_group_id}
use milvus_operator.Rollout.Server.{Server, Library, Job}
use milvus_operator.Rollout.View.{View, ServerLaws, WritesDigits}
use milvus_operator.Rollout.Store.{component_deploy_is_current_group}
use milvus_operator.Rollout.Updates.{
  last_rollout_finished, prepare_new_rollout, is_pod_template_changed, should_rollback,
}
use milvus_operator.Rollout.Controller.{reconcile_created, roll, roll_if_changed}
use milvus_operator.Rollout.Slots.{IsCurrent}
use milvus_operator.Rollout.Invariant.{
  IsSafe, IsWell-labels, IsIdle, Safe, Holding, Holding-IsIdle, last_rollout_finished-true,
  reconcile_created-Safe,
}

module _ (lib : Library) (c : MilvusComponent) where
  -- Others leave a deployment's name and labels, and the replicas of one that is not current: an
  -- autoscaler scales the current one, the cluster writes statuses.
  pub record ChangedDeploy (m : Milvus) (d e : Deployment) : Type 0 where
    pub name : e.name ≡ d.name
    pub labels : e.labels ≡ d.labels
    pub replicas :
        component_deploy_is_current_group lib c m d ≡ false
        → get_deploy_replicas e ≡ get_deploy_replicas d

  -- A user edits the spec, and nobody else the labels and annotations of the rollout.
  pub record Changed (v u : View) : Type 0 where
    pub labels : u.milvus.labels ≡ v.milvus.labels
    pub annotations : u.milvus.annotations ≡ v.milvus.annotations
    pub first : ChangedDeploy v.milvus v.first u.first
    pub second : ChangedDeploy v.milvus v.second u.second

  changed-IsIdle :
      (m n : Milvus) (d e : Deployment)
      → n.annotations ≡ m.annotations
      → ChangedDeploy m d e
      → IsIdle lib c m d
      → IsIdle lib c n e
  unfolding component_deploy_is_current_group get_current_group_id
  changed-IsIdle m n d e q ch i old = let was = rw (q, ch.labels) at old in ch.replicas was ∙ i was

  Changed-IsSafe : (v u : View) → Changed v u → IsSafe lib c v → IsSafe lib c u
  unfolding is_component_rolling
  Changed-IsSafe v u ch s = record {
    well = (
      IsWell-labels lib c u.first v.first ch.first.labels s.well.0,
      IsWell-labels lib c u.second v.second ch.second.labels s.well.1,
    );
    apart = rw (ch.first.name, ch.second.name) s.apart;
    idle = λ r.
        let (p, q) = s.idle (rw ch.labels at r) in
        (
          changed-IsIdle v.milvus u.milvus v.first u.first ch.annotations ch.first p,
          changed-IsIdle v.milvus u.milvus v.second u.second ch.annotations ch.second q,
        );
  }

  module _ {W : Type 0} (srv : Server W) (view : W → View) (laws : ServerLaws srv view)
      (digits : WritesDigits lib) where
    -- A reconciliation starts from the stored resource.
    abbrev pub fresh : W → Job W
    fresh w = record { milvus = (view w).milvus; world = w }

    pub data Step (w : W) (u : W) : Type 0 where
      reconciled :
          (paused : Bool) → u ≡ (reconcile_created lib c srv paused (fresh w)).1.world → Step w u
      changed : Changed (view w) (view u) → Step w u

    pub data Reach (w : W) : W → Type 0 where
      here : Reach w w
      next : {u v : W} → Reach w u → Step u v → Reach w v

    Step-IsSafe : (w u : W) → Step w u → IsSafe lib c (view w) → IsSafe lib c (view u)
    Step-IsSafe w u (reconciled paused q) s =
        rw q (reconcile_created-Safe lib c srv view laws digits paused (fresh w) s refl).0
    Step-IsSafe w u (changed ch) s = Changed-IsSafe (view w) (view u) ch s

    -- Reconciliations after HandleCreate, whichever of their updates fail, and changes by others
    -- in between keep it that, while the component is not rolling, a deployment that is not of the
    -- current group has no replicas.
    pub Reach-IsSafe : (w u : W) → Reach w u → IsSafe lib c (view w) → IsSafe lib c (view u)
    Reach-IsSafe w u here s = s
    Reach-IsSafe w u (next {u = v} r st) s = Step-IsSafe v u st (Reach-IsSafe w v r s)

    -- Take a world where, while the component is not rolling, a deployment that is not of the
    -- current group has no replicas. When HandleRolling has the stored deployments x and y, the
    -- second not of the current group, is no rollback and finds the last rollout finished, then a
    -- changed pod template starts a rollout of one of the two that has no replicas.
    pub new_rollout_idle :
        (x y : Deployment) (j : Job W)
        → let template = lib.render j.milvus (some x.template) c false in
          Safe lib c srv view laws j.world
          → Holding lib c srv view laws x y j
          → IsCurrent lib c j.milvus y false
          → should_rollback lib c x y template ≡ false
          → last_rollout_finished lib c srv x y j ≡ ((true, none), j)
          → is_pod_template_changed lib c x template ≡ true
          → (d : Deployment) × ((d ≡ x) ⊎ (d ≡ y))
            × (leb_ℤ (get_deploy_replicas d) (pos 0) ≡ true)
            × (roll lib c srv x y j ≡ prepare_new_rollout lib c srv d template j)
    unfolding roll roll_if_changed
    new_rollout_idle x y j s h old forward fin differs =
        let last_idle =
          (Holding-IsIdle lib c srv view laws x y j s h
              (last_rollout_finished-true lib c srv view laws digits x y j fin)).1
            old in
        elim (Bool-cases (ltb_ℤ (pos 0) (get_deploy_replicas x))) [
          | inl t ↦ (y, inr refl, rw last_idle refl, rw (forward, fin, differs, t) refl)
          | inr f ↦ (x, inl refl, ground arith, rw (forward, fin, differs, f) refl)
        ]
