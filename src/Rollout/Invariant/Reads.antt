-- ===== src/Rollout/Invariant/Reads.antt =====
-- The reads of the two deployments and of their pods, which leave what is stored.
use milvus_operator.Base.{
  String, true, false, [], ◌∷◌, ◌≡◌, inl, inr, refl, sym, ◌∙◌, Error, Result, ok, err, filter,
  Action, with_value, wrapped_value,
}
use milvus_operator.Deployment.{Deployment}
use milvus_operator.Component.{MilvusComponent}
use milvus_operator.Rollout.{Milvus}
use milvus_operator.Rollout.Server.{Server, Library, Job}
use milvus_operator.Rollout.View.{View, ServerLaws}
use milvus_operator.Rollout.Metadata.{get_selector_labels}
use milvus_operator.Rollout.Store.{
  is_slot, choose_deploys, get_deploys, list_deploy_pods, then_choose,
}
use milvus_operator.Rollout.Slots.{IsCurrent, choose_two}
use milvus_operator.Rollout.Ends.{Ends, wrapped_value-Ends}
use milvus_operator.Rollout.Invariant.Writes.{Held, Safe, Synced, Holding}

two_slots :
    (c : MilvusComponent) (x y : Deployment)
    → is_slot c x ≡ true
    → is_slot c y ≡ true
    → filter (is_slot c) (x ∷ y ∷ []) ≡ x ∷ y ∷ []
two_slots c x y p q = rw (p, q) refl

module _ (lib : Library) (c : MilvusComponent) {W : Type 0} (srv : Server W) where
  choose_job :
      {A : Type 0} {B : Type 0} (t : String) (r : Result A) (j : Job W) (f : A → Result B)
      → (then_choose lib c srv (wrapped_value t (r, j)) f).1 ≡ j
  choose_job t (ok a) j f = refl
  choose_job t (err e) j f = refl

  choose_value :
      {A : Type 0} {B : Type 0} (t : String) (r : Result A) (a : A) (j : Job W) (f : A → Result B)
      → r ≡ ok a
      → (then_choose lib c srv (wrapped_value t (r, j)) f).0 ≡ f a
  choose_value t r a j f h = rw h refl

  choose_error :
      {A : Type 0} {B : Type 0} (t : String) (r : Result A) (e : Error) (j : Job W)
      (f : A → Result B) (b : B)
      → r ≡ err e
      → ¬ ((then_choose lib c srv (wrapped_value t (r, j)) f).0 ≡ ok b)
  choose_error t r e j f b h = rw h (λ q. cc)

  module _ (view : W → View) (laws : ServerLaws srv view) where
    pub list_deploy_pods-job :
        (d : Deployment) (j : Job W)
        → ((list_deploy_pods lib c srv d j).1.milvus ≡ j.milvus)
          × (view (list_deploy_pods lib c srv d j).1.world ≡ view j.world)
    unfolding list_deploy_pods
    list_deploy_pods-job d j = rw (choose_job _ _ _ _) (refl, laws.pods_kept d.selector j.world)

    get_deploys-job :
        (j : Job W)
        → ((get_deploys lib c srv j).1.milvus ≡ j.milvus)
          × (view (get_deploys lib c srv j).1.world ≡ view j.world)
    unfolding get_deploys
    get_deploys-job j = rw (choose_job _ _ _ _) (refl, laws.deployments_kept _ j.world)

    get_deploys-value :
        (j : Job W) (d e : Deployment)
        → Safe lib c srv view laws j.world
        → (get_deploys lib c srv j).0 ≡ ok (d, e)
        → choose_deploys lib c j.milvus ((view j.world).first ∷ (view j.world).second ∷ [])
          ≡ ok (d, e)
    unfolding get_deploys
    get_deploys-value j d e s h =
        elim (laws.deployments_listed (get_selector_labels c j.milvus.name) j.world) [
          | inl q ↦
              sym (
                choose_value _ _ _ _ _ q
                ∙ rw
                    (two_slots c (view j.world).first (view j.world).second s.well.0.slot
                      s.well.1.slot)
                    refl)
              ∙ h
          | inr (x, q) ↦ absurd (choose_error _ _ x _ _ _ q h)
        ]

    two-Held :
        (v : View) (d e : Deployment) (m : Milvus)
        → choose_deploys lib c m (v.first ∷ v.second ∷ []) ≡ ok (d, e)
        → Held lib c v d e × (IsCurrent lib c m d true × IsCurrent lib c m e false)
    two-Held v d e m h =
        let (order, cur) = choose_two lib c m v.first v.second d e h in
        elim order [ inl q ↦ (inl (cc, cc), cur) | inr q ↦ (inr (cc, cc), cur) ]

    -- A handler that works on the two deployments works on what is stored.
    pub get_deploys-Safe :
        (L : Job W → Type 0) (t : String) (f : Deployment × Deployment → Action (Job W)) (j : Job W)
        → Safe lib c srv view laws j.world
        → Synced lib c srv view laws j
        → ((d e : Deployment) (k : Job W)
            → Safe lib c srv view laws k.world
            → Holding lib c srv view laws d e k
            → IsCurrent lib c k.milvus d true
            → IsCurrent lib c k.milvus e false
            → Ends (Safe lib c srv view laws) L (f (d, e) k))
        → Ends
            (Safe lib c srv view laws)
            L
            (with_value (wrapped_value t (get_deploys lib c srv j)) f)
    get_deploys-Safe L t f j s y g =
        let (m, v) = get_deploys-job j in
        wrapped_value-Ends (Safe lib c srv view laws) L t _ f (rw v s) (λ p q.
          let (held, (cur, old)) =
            two-Held (view j.world) p.0 p.1 j.milvus (get_deploys-value j p.0 p.1 s q) in
          g p.0 p.1 _ (rw v s) (rw (m, v) y, rw v held) (rw m cur) (rw m old))
