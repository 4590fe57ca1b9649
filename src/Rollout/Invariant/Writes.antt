-- ===== src/Rollout/Invariant/Writes.antt =====
-- The invariant, and the single writes that keep it.
use milvus_operator.Base.{
  String, true, false, Option, none, some, ◌≡◌, ◌⊎◌, inl, inr, refl, sym, ◌∙◌, Error, ok, str_eq,
  Bool-cases, arith, true≢false, eq_iff,
}
use milvus_operator.Base.Int.{ℤ, pos}
use milvus_operator.Api.Labels.{get}
use milvus_operator.Deployment.{Deployment, get_deploy_replicas}
use milvus_operator.Component.{MilvusComponent, kind_name}
use milvus_operator.Rollout.{Milvus, get_label_group_id, is_component_rolling}
use milvus_operator.Rollout.Server.{Server, Library, Job}
use milvus_operator.Rollout.View.{View, store, ServerLaws}
use milvus_operator.Rollout.Store.{is_slot, state_key, component_deploy_is_current_group}
use milvus_operator.Rollout.Updates.{update_deployment, update_milvus}
use milvus_operator.Rollout.Ends.{Ends}

other_name : (s t u : String) → str_eq s t ≡ false → u ≡ t → str_eq u s ≡ false
other_name s t u h q = elim (Bool-cases (str_eq u s)) [
  | inr p ↦ p
  | inl p ↦ absurd (true≢false (sym ((eq_iff s t).1 (sym ((eq_iff u s).0 p) ∙ q)) ∙ h))
]

store_first :
    (v : View) (d : Deployment) → d.name ≡ v.first.name → store d v ≡ record v { first = d }
unfolding store
store_first v d n = rw ((eq_iff _ _).1 n) refl

store_second :
    (v : View) (d : Deployment)
    → str_eq v.first.name v.second.name ≡ false
    → d.name ≡ v.second.name
    → store d v ≡ record v { second = d }
unfolding store
store_second v d apart n = rw (other_name _ _ _ apart n, (eq_iff _ _).1 n) refl

store_milvus : (d : Deployment) (v : View) → (store d v).milvus ≡ v.milvus
unfolding store
store_milvus d v = ground arith

module _ (lib : Library) (c : MilvusComponent) where
  -- A slot of the component with its label, whose group id is a number as `Itoa` writes it.
  pub record IsWell (d : Deployment) : Type 0 where
    pub slot : is_slot c d ≡ true
    pub named : get "app.kubernetes.io/component" d.labels ≡ kind_name c.kind
    pub canonical :
        (n : ℤ)
        → lib.atoi (get_label_group_id (kind_name c.kind) d.labels) ≡ ok n
        → lib.itoa n ≡ get_label_group_id (kind_name c.kind) d.labels

  abbrev pub IsIdle : Milvus → Deployment → Type 0
  IsIdle m d = component_deploy_is_current_group lib c m d ≡ false → get_deploy_replicas d ≡ pos 0

  abbrev pub NotRolling : Milvus → Type 0
  NotRolling m = is_component_rolling m (state_key lib c) ≡ false

  -- Two slots of different names; without a rollout the one that is not current has no replicas.
  pub record IsSafe (v : View) : Type 0 where
    pub well : IsWell v.first × IsWell v.second
    pub apart : str_eq v.first.name v.second.name ≡ false
    pub idle : NotRolling v.milvus → IsIdle v.milvus v.first × IsIdle v.milvus v.second

  -- The two deployments of a view, in either order.
  abbrev pub Held : View → Deployment → Deployment → Type 0
  Held v x y = ((x ≡ v.first) × (y ≡ v.second)) ⊎ ((x ≡ v.second) × (y ≡ v.first))

  pub IsWell-labels : (d e : Deployment) → d.labels ≡ e.labels → IsWell e → IsWell d
  unfolding is_slot
  IsWell-labels d e q w = record {
    slot = rw q w.slot;
    named = rw q w.named;
    canonical = rw q w.canonical;
  }

  pub IsIdle-same :
      (m : Milvus) (d e : Deployment)
      → d.labels ≡ e.labels
      → get_deploy_replicas d ≡ get_deploy_replicas e
      → IsIdle m e
      → IsIdle m d
  unfolding component_deploy_is_current_group
  IsIdle-same m d e q r i = λ old. r ∙ i (rw q at old)

  -- While the component is rolling nothing is asked of the replicas.
  pub rolling-IsSafe :
      (v : View) (m : Milvus)
      → IsSafe v
      → is_component_rolling m (state_key lib c) ≡ true
      → IsSafe (record v { milvus = m })
  rolling-IsSafe v m s h = record {
    well = s.well;
    apart = s.apart;
    idle = λ r. absurd (true≢false (sym h ∙ r));
  }

  IsSafe-first :
      (v : View) (d : Deployment)
      → IsSafe v
      → d.name ≡ v.first.name
      → IsWell d
      → (NotRolling v.milvus → IsIdle v.milvus d)
      → IsSafe (record v { first = d })
  IsSafe-first v d s n w i = record {
    well = (w, s.well.1);
    apart = rw n s.apart;
    idle = λ r. (i r, (s.idle r).1);
  }

  IsSafe-second :
      (v : View) (d : Deployment)
      → IsSafe v
      → d.name ≡ v.second.name
      → IsWell d
      → (NotRolling v.milvus → IsIdle v.milvus d)
      → IsSafe (record v { second = d })
  IsSafe-second v d s n w i = record {
    well = (s.well.0, w);
    apart = rw n s.apart;
    idle = λ r. ((s.idle r).0, i r);
  }

  -- Storing a new version of one of the two deployments.
  pub store-Held :
      (v : View) (x y d : Deployment)
      → IsSafe v
      → Held v x y
      → d.name ≡ x.name
      → IsWell d
      → (NotRolling v.milvus → IsIdle v.milvus d)
      → IsSafe (store d v) × Held (store d v) d y
  store-Held v x y d s (inl (p, q)) n w i =
      let name : d.name ≡ v.first.name = rw (n, p) refl in
      rw (store_first v d name) (IsSafe-first v d s name w i, inl (refl, q))
  store-Held v x y d s (inr (p, q)) n w i =
      let name : d.name ≡ v.second.name = rw (n, p) refl in
      rw (store_second v d s.apart name) (IsSafe-second v d s name w i, inr (refl, q))

  module _ {W : Type 0} (srv : Server W) (view : W → View) (laws : ServerLaws srv view) where
    abbrev pub Safe : W → Type 0
    Safe w = IsSafe (view w)

    -- The resource in memory is the one that is stored.
    abbrev pub Synced : Job W → Type 0
    Synced j = j.milvus ≡ (view j.world).milvus

    -- In this state the two deployments are `x` and `y`.
    abbrev pub Holding : Deployment → Deployment → Job W → Type 0
    Holding x y j = Synced j × Held (view j.world) x y

    updated-Safe :
        (x y d : Deployment) (j : Job W) (r : Option Error × W)
        → Safe j.world
        → Holding x y j
        → d.name ≡ x.name
        → IsWell d
        → (NotRolling j.milvus → IsIdle j.milvus d)
        → (r.0 ≡ none → view r.1 ≡ store d (view j.world))
        → ((e : Error) → r.0 ≡ some e → view r.1 ≡ view j.world)
        → (store d (view j.world)).milvus ≡ (view j.world).milvus
        → Ends Safe (Holding d y) (r.0, record j { world = r.1 })
    updated-Safe x y d j (none, w) s h n wd i stored refused m =
        let (safe, held) = store-Held (view j.world) x y d s h.1 n wd (rw h.0 at i) in
        (rw (stored refl) safe, λ q. (rw (stored refl) (h.0 ∙ sym m), rw (stored refl) held))
    updated-Safe x y d j (some e, w) s h n wd i stored refused m = (rw (refused e refl) s, λ q. cc)

    pub update_deployment-Safe :
        (x y d : Deployment) (j : Job W)
        → Safe j.world
        → Holding x y j
        → d.name ≡ x.name
        → IsWell d
        → (NotRolling j.milvus → IsIdle j.milvus d)
        → Ends Safe (Holding d y) (update_deployment srv d j)
    unfolding update_deployment
    update_deployment-Safe x y d j s h n wd i =
        updated-Safe x y d j (srv.update_deployment d j.world) s h n wd i
          (laws.deployment_updated d j.world) (laws.deployment_refused d j.world)
          (store_milvus d (view j.world))

    written-Safe :
        (j : Job W) (r : Option Error × W)
        → Safe j.world
        → IsSafe (record (view j.world) { milvus = j.milvus })
        → (r.0 ≡ none → view r.1 ≡ record (view j.world) { milvus = j.milvus })
        → ((e : Error) → r.0 ≡ some e → view r.1 ≡ view j.world)
        → Ends Safe Synced (r.0, record j { world = r.1 })
    written-Safe j (none, w) s t stored refused = (rw (stored refl) t, λ q. rw (stored refl) refl)
    written-Safe j (some e, w) s t stored refused = (rw (refused e refl) s, λ q. cc)

    pub update_milvus-Safe :
        (j : Job W)
        → Safe j.world
        → IsSafe (record (view j.world) { milvus = j.milvus })
        → Ends Safe Synced (update_milvus srv j)
    unfolding update_milvus
    update_milvus-Safe j s t =
        written-Safe j (srv.update_milvus j.milvus j.world) s t
          (laws.milvus_updated j.milvus j.world) (laws.milvus_refused j.milvus j.world)

    pub Holding-IsWell :
        (x y : Deployment) (j : Job W) → Safe j.world → Holding x y j → IsWell x × IsWell y
    Holding-IsWell x y j s (m, inl (p, q)) = rw (p, q) (s.well.0, s.well.1)
    Holding-IsWell x y j s (m, inr (p, q)) = rw (p, q) (s.well.1, s.well.0)

    pub Holding-IsIdle :
        (x y : Deployment) (j : Job W)
        → Safe j.world
        → Holding x y j
        → NotRolling j.milvus
        → IsIdle j.milvus x × IsIdle j.milvus y
    Holding-IsIdle x y j s (m, inl (p, q)) r = rw (p, q, m) (s.idle (rw m at r))
    Holding-IsIdle x y j s (m, inr (p, q)) r =
        let (f, g) = s.idle (rw m at r) in rw (p, q, m) (g, f)

    pub swap_Held : (v : View) (x y : Deployment) → Held v x y → Held v y x
    swap_Held v x y (inl (p, q)) = inr (q, p)
    swap_Held v x y (inr (p, q)) = inl (q, p)
