-- ===== src/Autoscaler/Kept.antt =====
-- What pkg/controllers/hpa.go leaves stored when it reports no error.
use Prim.Native.String.{◌++◌}
use milvus_operator.Base.{
  String, true, false, true≢false, Option, none, some, ◌≡◌, ◌⊎◌, inl, inr, refl, sym, ap, ◌∙◌,
  str_eq, eq_iff, Bool-cases, Result-cases, Error, Result, ok, err, wrap, is_api_not_found, wrapped,
}
use milvus_operator.Api.Spec.{HpaSpec}
use milvus_operator.Component.{MilvusComponent, kind_name}
use milvus_operator.Base.Int.{ℤ, pos}
use milvus_operator.Deployment.{PodTemplate}
use milvus_operator.Rollout.Server.{Library}
use milvus_operator.Rollout.Store.{get_deployment_name}
use milvus_operator.Rollout.Updates.{new_deploy}
use milvus_operator.Rollout.{Milvus, get_current_group_id, is_component_rolling}
use milvus_operator.Autoscaler.{
  Hpa, HpaObjectSpec, Server, get_hpa_name, build_hpa, hpa_spec_needs_update, delete_found,
  delete_hpa_if_exists, put_found, create_or_update_hpa, two_deploy_target, group_number,
  reconcile_two_deploy_hpa,
}

-- `view` is the stored autoscaler of the name. A read answers it, and a write that succeeds stores
-- or removes it; semantic equality is reflexive, and an owner reference leaves the spec.
pub record ServerLaws {W : Type 0} (srv : Server W) (name : String) (view : W → Option Hpa)
    : Type 0 where
  pub kept : (w : W) → view (srv.get name w).1 ≡ view w
  pub found : (w : W) (h : Hpa) → (srv.get name w).0 ≡ ok h → view w ≡ some h
  pub missing :
      (w : W) (e : Error) → (srv.get name w).0 ≡ err e → is_api_not_found e ≡ true → view w ≡ none
  pub created : (h : Hpa) (w : W) → (srv.create h w).0 ≡ none → view (srv.create h w).1 ≡ some h
  pub updated : (h : Hpa) (w : W) → (srv.update h w).0 ≡ none → view (srv.update h w).1 ≡ some h
  pub deleted : (h : Hpa) (w : W) → (srv.delete h w).0 ≡ none → view (srv.delete h w).1 ≡ none
  pub same_spec : (s : HpaObjectSpec) → hpa_spec_needs_update srv s s ≡ false
  pub owned : (m : Milvus) (h k : Hpa) → srv.set_controller_reference m h ≡ ok k → k.spec ≡ h.spec

wrapped-none :
    {W : Type 0} (t : String) (r : Option Error × W) → (wrapped t r).0 ≡ none → r.0 ≡ none
wrapped-none t (none, w) h = refl
wrapped-none t (some e, w) h = absurd cc

target-eq :
    {W : Type 0} (srv : Server W) (s t : HpaObjectSpec)
    → hpa_spec_needs_update srv s t ≡ false
    → s.target ≡ t.target
unfolding hpa_spec_needs_update
target-eq srv s t h = (eq_iff s.target t.target).0 (elim (Bool-cases (str_eq s.target t.target)) [
  | inl p ↦ p
  | inr p ↦ absurd (true≢false (rw p at h))
])

module _ {W : Type 0} (srv : Server W) (m : Milvus) (c : MilvusComponent) (view : W → Option Hpa)
    (laws : ServerLaws srv (get_hpa_name c m.name) view) where
  -- No autoscaler is left but one of somebody else.
  pub Gone : W → Type 0
  Gone w = (view w ≡ none) ⊎ ((h : Hpa) × ((view w ≡ some h) × (srv.is_controlled_by h m ≡ false)))

  module _ (w0 : W) where
    -- An answer of `Get` in the world `w0`.
    abbrev Answers : Result Hpa × W → Type 0
    Answers r =
        (view r.1 ≡ view w0)
        × (((h : Hpa) → r.0 ≡ ok h → view w0 ≡ some h)
            × ((e : Error) → r.0 ≡ err e → is_api_not_found e ≡ true → view w0 ≡ none))

    delete_found-Gone :
        (r : Result Hpa × W)
        → Answers r
        → (delete_found srv m r).0 ≡ none
        → Gone (delete_found srv m r).1
    unfolding Gone
    delete_found-Gone (err e, w) (kept, (found, missing)) h =
        elim (Bool-cases (is_api_not_found e)) [
          | inl p ↦ rw p (inl (kept ∙ missing e refl p))
          | inr p ↦ absurd (refused (rw p at h))
        ]
      where
        refused : ¬ ((◌≡◌ {A = Option Error} (some (wrap "get HPA" e)) none))
        refused q = cc
    delete_found-Gone (ok x, w) (kept, (found, missing)) h =
        elim (Bool-cases (srv.is_controlled_by x m)) [
          | inl p ↦
              rw p (inl (laws.deleted x w (wrapped-none "delete HPA" (srv.delete x w) (rw p at h))))
          | inr p ↦ rw p (inr (x, (kept ∙ found x refl, p)))
        ]

    put_found-stored :
        (desired : Hpa) (r : Result Hpa × W)
        → Answers r
        → (put_found srv desired r).0 ≡ none
        → (h : Hpa) × ((view (put_found srv desired r).1 ≡ some h)
            × (hpa_spec_needs_update srv h.spec desired.spec ≡ false))
    put_found-stored desired (err e, w) (kept, (found, missing)) h =
        elim (Bool-cases (is_api_not_found e)) [
          | inl p ↦
              (desired, (rw p (laws.created desired w (rw p at h)), laws.same_spec desired.spec))
          | inr p ↦ absurd (refused (rw p at h))
        ]
      where
        refused : ¬ ((◌≡◌ {A = Option Error} (some (wrap "get HPA" e)) none))
        refused q = cc
    put_found-stored desired (ok x, w) (kept, (found, missing)) h =
        elim (Bool-cases (hpa_spec_needs_update srv x.spec desired.spec)) [
          | inl p ↦
              let next = record x { spec = desired.spec } in
              (next, (rw p (laws.updated next w (rw p at h)), laws.same_spec desired.spec))
          | inr p ↦ (x, (rw p (kept ∙ found x refl), p))
        ]

  get-Answers : (w : W) → Answers w (srv.get (get_hpa_name c m.name) w)
  get-Answers w = (laws.kept w, (laws.found w, laws.missing w))

  -- While a component with two deployments is rolling, a reconciliation of its autoscaler that
  -- succeeds leaves none, unless one of the same name belongs to somebody else.
  pub reconcile_two_deploy_hpa-Gone :
      (spec : HpaSpec) (w : W)
      → is_component_rolling m (kind_name c.kind) ≡ true
      → (reconcile_two_deploy_hpa srv m c spec w).0 ≡ none
      → Gone (reconcile_two_deploy_hpa srv m c spec w).1
  unfolding reconcile_two_deploy_hpa delete_hpa_if_exists
  reconcile_two_deploy_hpa-Gone spec w r h =
      rw r (delete_found-Gone w (srv.get (get_hpa_name c m.name) w) (get-Answers w) (rw r at h))

  build_hpa-target :
      (spec : HpaSpec) (t : String) (desired : Hpa)
      → build_hpa srv m c spec t ≡ ok desired
      → desired.spec.target ≡ t
  unfolding build_hpa
  build_hpa-target spec t desired q =
      ap (λ (s : HpaObjectSpec). s.target) (laws.owned m _ desired q)

  create_or_update_hpa-target :
      (spec : HpaSpec) (t : String) (w : W)
      → (create_or_update_hpa srv m c spec t w).0 ≡ none
      → (h : Hpa) × ((view (create_or_update_hpa srv m c spec t w).1 ≡ some h)
          × (h.spec.target ≡ t))
  unfolding create_or_update_hpa
  create_or_update_hpa-target spec t w h = elim (Result-cases (build_hpa srv m c spec t)) [
    | inl (e, q) ↦ absurd (build_refused e (rw q at h))
    | inr (desired, q) ↦
        let (k, (stored, same)) =
          put_found-stored w desired (srv.get (get_hpa_name c m.name) w) (get-Answers w)
            (rw q at h) in
        (
          k,
          (rw q stored, target-eq srv k.spec desired.spec same ∙ build_hpa-target spec t desired q),
        )
  ]
    where
      build_refused : (e : Error) → ¬ ((◌≡◌ {A = Option Error} (some (wrap "build HPA" e)) none))
      build_refused e q = cc

  stored-target :
      (spec : HpaSpec) (w : W)
      → is_component_rolling m (kind_name c.kind) ≡ false
      → (reconcile_two_deploy_hpa srv m c spec w).0 ≡ none
      → (h : Hpa) × ((view (reconcile_two_deploy_hpa srv m c spec w).1 ≡ some h)
          × (h.spec.target ≡ two_deploy_target srv m c))
  unfolding reconcile_two_deploy_hpa
  stored-target spec w r h =
      rw r (create_or_update_hpa-target spec (two_deploy_target srv m c) w (rw r at h))

  -- The number of the current group: what the annotation says, or 0 where there is none.
  abbrev pub IsGroup : ℤ → Type 0
  IsGroup n =
      let id = get_current_group_id m (kind_name c.kind) in
      ((id ≡ "") × (n ≡ pos 0)) ⊎ ((str_eq id "" ≡ false) × (srv.atoi id ≡ ok n))

  group_number-IsGroup :
      (n : ℤ) → IsGroup n → group_number srv (get_current_group_id m (kind_name c.kind)) ≡ n
  group_number-IsGroup n (inl (no_id, zero)) = rw no_id (sym zero)
  group_number-IsGroup n (inr (id, number)) = rw (id, number) refl

  two_deploy_target-name :
      (lib : Library) (template : PodTemplate) (n : ℤ)
      → srv.itoa ≡ lib.itoa
      → IsGroup n
      → two_deploy_target srv m c ≡ (new_deploy lib c m template n).name
  unfolding two_deploy_target new_deploy
  two_deploy_target-name lib template n digits group =
      let base = get_deployment_name c m.name in
      ap (λ k. base ++ ("-" ++ srv.itoa k)) (group_number-IsGroup n group)
      ∙ ap (λ (f : ℤ → String). base ++ ("-" ++ f n)) digits

  -- While a component is not rolling, a reconciliation of its autoscaler that succeeds leaves one
  -- whose target has the name under which a rollout creates the deployment of the component's
  -- current group, which is group 0 if none is annotated. The server and the rollout write numbers
  -- in the same way.
  pub reconcile_two_deploy_hpa-target :
      (spec : HpaSpec) (w : W) (lib : Library) (template : PodTemplate) (n : ℤ)
      → is_component_rolling m (kind_name c.kind) ≡ false
      → srv.itoa ≡ lib.itoa
      → IsGroup n
      → (reconcile_two_deploy_hpa srv m c spec w).0 ≡ none
      → (h : Hpa) × ((view (reconcile_two_deploy_hpa srv m c spec w).1 ≡ some h)
          × (h.spec.target ≡ (new_deploy lib c m template n).name))
  reconcile_two_deploy_hpa-target spec w lib template n r digits group h =
      let (k, (stored, target)) = stored-target spec w r h in
      (k, (stored, target ∙ two_deploy_target-name lib template n digits group))
