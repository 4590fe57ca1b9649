-- ===== src/Rollout/Slots.antt =====
-- Which two deployments GetDeploys of pkg/controllers/deploy_ctrl_util.go answers.
use milvus_operator.Base.{
  ℕ, suc, Bool, true, false, List, [], ◌∷◌, ltb, length, ◌≡◌, ◌⊎◌, ◌↔◌, inl, inr, refl, sym, ◌∙◌,
  arith, Error, errorf, if◌then◌else◌, Result, ok, err,
}
use milvus_operator.Deployment.{Deployment}
use milvus_operator.Component.{MilvusComponent}
use milvus_operator.Rollout.{Milvus}
use milvus_operator.Rollout.Server.{Library}
use milvus_operator.Rollout.Store.{component_deploy_is_current_group, sort_slots, choose_deploys}

more_than_two : (n : ℕ) → ltb 2 (suc (suc (suc n))) ≡ true
more_than_two n = ground arith

no_pair :
    (b : Bool) (s t : Error) (p : Deployment × Deployment) → ¬ ((if b then err s else err t) ≡ ok p)
no_pair true s t p h = cc
no_pair false s t p h = cc

module _ (lib : Library) (c : MilvusComponent) (m : Milvus) where
  abbrev pub IsCurrent : Deployment → Bool → Type 0
  IsCurrent d b = component_deploy_is_current_group lib c m d ≡ b

  -- The items are the two deployments in either order, and only the first is of the current group.
  abbrev pub TwoSlots : List Deployment → Deployment → Deployment → Type 0
  TwoSlots items d e =
      ((items ≡ d ∷ e ∷ []) ⊎ (items ≡ e ∷ d ∷ [])) × (IsCurrent d true × IsCurrent e false)

  -- The answer as a function of the two tests.
  pair_of : Bool → Bool → Deployment → Deployment → Result (Deployment × Deployment)
  pair_of true true x y = err (errorf "more than 1 current")
  pair_of true false x y = ok (x, y)
  pair_of false true x y = ok (y, x)
  pair_of false false x y = err (errorf "no deployment is for current group id")

  choose_pair :
      (x y : Deployment) (a b : Bool)
      → IsCurrent x a
      → IsCurrent y b
      → choose_deploys lib c m (x ∷ y ∷ []) ≡ pair_of a b x y
  unfolding choose_deploys sort_slots pair_of
  choose_pair x y true true p q = rw (p, q) refl
  choose_pair x y true false p q = rw (p, q) refl
  choose_pair x y false true p q = rw (p, q) refl
  choose_pair x y false false p q = rw (p, q) refl

  pair_of-TwoSlots :
      (x y d e : Deployment) (a b : Bool)
      → IsCurrent x a
      → IsCurrent y b
      → pair_of a b x y ≡ ok (d, e)
      → TwoSlots (x ∷ y ∷ []) d e
  unfolding pair_of
  pair_of-TwoSlots x y d e true true p q h = cc
  pair_of-TwoSlots x y d e true false p q h = (inl cc, (cc, cc))
  pair_of-TwoSlots x y d e false true p q h = (inr cc, (cc, cc))
  pair_of-TwoSlots x y d e false false p q h = cc

  pub choose_two :
      (x y d e : Deployment)
      → choose_deploys lib c m (x ∷ y ∷ []) ≡ ok (d, e)
      → TwoSlots (x ∷ y ∷ []) d e
  choose_two x y d e h =
      pair_of-TwoSlots x y d e _ _ refl refl (sym (choose_pair x y _ _ refl refl) ∙ h)

  choose_one :
      (x d e : Deployment) (b : Bool)
      → IsCurrent x b
      → ¬ (choose_deploys lib c m (x ∷ []) ≡ ok (d, e))
  unfolding choose_deploys sort_slots
  choose_one x d e true p = rw p (no_pair _ _ _ (d, e))
  choose_one x d e false p = rw p (λ h. cc)

  choose_many :
      (x y z : Deployment) (rest : List Deployment) (d e : Deployment)
      → ¬ (choose_deploys lib c m (x ∷ y ∷ z ∷ rest) ≡ ok (d, e))
  unfolding choose_deploys
  choose_many x y z rest d e = rw (more_than_two (length rest)) (λ h. cc)

  from_TwoSlots :
      (items : List Deployment) (d e : Deployment)
      → TwoSlots items d e
      → choose_deploys lib c m items ≡ ok (d, e)
  from_TwoSlots items d e (inl q, (a, b)) =
      rw q (choose_pair d e true false a b ∙ unfold pair_of in refl)
  from_TwoSlots items d e (inr q, (a, b)) =
      rw q (choose_pair e d false true b a ∙ unfold pair_of in refl)

  to_TwoSlots :
      (items : List Deployment) (d e : Deployment)
      → choose_deploys lib c m items ≡ ok (d, e)
      → TwoSlots items d e
  to_TwoSlots [] d e h = absurd (unfold choose_deploys in cc)
  to_TwoSlots (x ∷ []) d e h = absurd (choose_one x d e _ refl h)
  to_TwoSlots (x ∷ y ∷ []) d e h = choose_two x y d e h
  to_TwoSlots (x ∷ y ∷ z ∷ rest) d e h = absurd (choose_many x y z rest d e h)

  -- GetDeploys answers a current and a last deployment exactly when the component has these two,
  -- in either order, and only the first of them carries the current group id.
  pub choose_deploys-pair :
      (items : List Deployment) (d e : Deployment)
      → (choose_deploys lib c m items ≡ ok (d, e)) ↔ TwoSlots items d e
  choose_deploys-pair items d e = (to_TwoSlots items d e, from_TwoSlots items d e)
