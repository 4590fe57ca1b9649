-- ===== src/Webhook/Defaults/Given.antt =====
-- What giving replicas to components does to a spec.
use milvus_operator.Base.{
  Bool, true, false, true≢false, ==_iff, ◌||◌, Option, none, some, List, [], ◌∷◌, all, ◌≡◌, refl,
  sym, ap, ◌∙◌, inl, inr, if◌then◌else◌, ok, Option-cases,
}
use milvus_operator.Base.Int.{ℤ}
use milvus_operator.Api.Spec.{ComponentKind, Component, MilvusSpec, is_set}
use milvus_operator.Component.{kind_eq, kind_index, set_field}
use milvus_operator.Webhook.Defaults.{given, give, and_then, give_all}
use milvus_operator.Webhook.Defaults.Filled.{
  has, with_replicas, is_ready, settings, both, if_has, or_same, at_kind, if_ready, any_kind,
  or_swap,
}

-- What giving replicas to components does: they are ready, and nothing else is new.
pub record Gives (new : ComponentKind → Bool) (s : MilvusSpec) (t : MilvusSpec) : Type 0 where
  pub same_has : (j : ComponentKind) → has j t ≡ has j s
  pub ready : (j : ComponentKind) → is_ready j t ≡ (new j || is_ready j s)
  pub same_settings : settings t ≡ settings s

if_true : (b x : Bool) → (if b then true else x) ≡ (b || x)
if_true true x = refl
if_true false x = refl

field-Gives :
    (r : ℤ) (k : ComponentKind) (s : MilvusSpec) (c : Component)
    → s.components.field k ≡ some c
    → (t : MilvusSpec) × ((give k r s ≡ ok t) × Gives (kind_eq k) s t)
unfolding give
field-Gives r k s c e = elim (Option-cases c.replicas) [
  | inl z ↦ (
    set_field k (record c { replicas = some r }) s,
    (
      ap (given k r s) e ∙ given_none c z,
      record {
        same_has = λ j.
            if_has (kind_eq k j) (record c { replicas = some r }) (s.components.field j)
            ∙ sym (
                or_same (kind_eq k j) (has j s) (at_kind (λ o. is_set o ≡ true) k j s (rw e refl)));
        ready = λ j.
            if_ready (kind_eq k j) (record c { replicas = some r }) (s.components.field j)
            ∙ if_true (kind_eq k j) (is_ready j s);
        same_settings = refl;
      },
    ),
  )
  | inr (n, z) ↦ (
    s,
    (
      ap (given k r s) e ∙ given_some c n z,
      record {
        same_has = λ j. refl;
        ready = λ j.
            or_same (kind_eq k j) (is_ready j s)
              (at_kind (λ o. with_replicas o ≡ true) k j s (rw (e, z) refl));
        same_settings = refl;
      },
    ),
  )
]
  where
    given_none :
        (c : Component)
        → c.replicas ≡ none
        → given k r s (some c) ≡ ok (set_field k (record c { replicas = some r }) s)
    given_none c z = rw (z, given) refl

    given_some : (c : Component) (n : ℤ) → c.replicas ≡ some n → given k r s (some c) ≡ ok s
    given_some c n z = rw (z, given) refl

pub give-Gives :
    (r : ℤ) (k : ComponentKind) (s : MilvusSpec)
    → has k s ≡ true
    → (t : MilvusSpec) × ((give k r s ≡ ok t) × Gives (kind_eq k) s t)
give-Gives r k s h = elim (Option-cases (s.components.field k)) [
  | inl e ↦ absurd (true≢false (sym h ∙ ap is_set e))
  | inr (c, e) ↦ field-Gives r k s c e
]

pub all-has :
    (ks : List ComponentKind) (s t : MilvusSpec)
    → ((j : ComponentKind) → has j t ≡ has j s)
    → all (λ k. has k t) ks ≡ all (λ k. has k s) ks
all-has [] s t h = refl
all-has (k ∷ ks) s t h = rw (h k, all-has ks s t h) refl

pub give_all-Gives :
    (r : ℤ) (ks : List ComponentKind) (s : MilvusSpec)
    → all (λ k. has k s) ks ≡ true
    → (t : MilvusSpec) × ((give_all r ks s ≡ ok t) × Gives (λ j. any_kind j ks) s t)
unfolding give_all
give_all-Gives r [] s h =
    (s, (refl, record { same_has = λ j. refl; ready = λ j. refl; same_settings = refl }))
give_all-Gives r (k ∷ ks) s h =
    let (p, q) = both (has k s) (all (λ i. has i s) ks) h in
    let (t, (e, g)) = give-Gives r k s p in
    let (u, (f, i)) = give_all-Gives r ks t (all-has ks s t g.same_has ∙ q) in
    (
      u,
      (
        ap (λ a. and_then a (give_all r ks)) e ∙ f,
        record {
          same_has = λ j. i.same_has j ∙ g.same_has j;
          ready = λ j.
              i.ready j
              ∙ (ap (λ b. any_kind j ks || b) (g.ready j)
                  ∙ or_swap (any_kind j ks) (kind_eq k j) (is_ready j s));
          same_settings = i.same_settings ∙ g.same_settings;
        },
      ),
    )

pub give-same :
    (r : ℤ) (k : ComponentKind) (s : MilvusSpec) → is_ready k s ≡ true → give k r s ≡ ok s
unfolding give
give-same r k s h = same (s.components.field k) h
  where
    same : (o : Option Component) → with_replicas o ≡ true → given k r s o ≡ ok s
    same none h = absurd cc
    same (some c) h = elim (Option-cases c.replicas) [
      | inl z ↦ absurd (true≢false (sym h ∙ ap is_set z))
      | inr (n, z) ↦ rw (z, given) refl
    ]

pub give_all-same :
    (r : ℤ) (ks : List ComponentKind) (s : MilvusSpec)
    → all (λ k. is_ready k s) ks ≡ true
    → give_all r ks s ≡ ok s
unfolding give_all
give_all-same r [] s h = refl
give_all-same r (k ∷ ks) s h =
    let (p, q) = both (is_ready k s) (all (λ i. is_ready i s) ks) h in
    ap (λ a. and_then a (give_all r ks)) (give-same r k s p) ∙ give_all-same r ks s q

kind_eq_refl : (k : ComponentKind) → kind_eq k k ≡ true
kind_eq_refl k = (==_iff (kind_index k) (kind_index k)).1 refl

-- What has been given replicas is ready, and stays so.
all_ready :
    (p q : ComponentKind → Bool) (ks : List ComponentKind)
    → ((j : ComponentKind) → p j ≡ (any_kind j ks || q j))
    → all p ks ≡ true
all_ready p q [] h = refl
all_ready p q (k ∷ ks) h =
    rw (h k, kind_eq_refl k)
      (all_ready p (λ j. kind_eq k j || q j) ks
        (λ j. h j ∙ sym (or_swap (any_kind j ks) (kind_eq k j) (q j))))

pub Gives-all :
    {s t : MilvusSpec} (ks : List ComponentKind)
    → Gives (λ j. any_kind j ks) s t
    → all (λ k. is_ready k t) ks ≡ true
Gives-all {s} {t} ks g = all_ready (λ j. is_ready j t) (λ j. is_ready j s) ks g.ready

still_ready : (a b : Bool) → b ≡ true → (a || b) ≡ true
still_ready true b h = refl
still_ready false b h = h

pub Gives-keeps :
    {new : ComponentKind → Bool} {s t : MilvusSpec} (ks : List ComponentKind)
    → Gives new s t
    → all (λ k. is_ready k s) ks ≡ true
    → all (λ k. is_ready k t) ks ≡ true
Gives-keeps [] g h = refl
Gives-keeps {new} {s} {t} (k ∷ ks) g h =
    let (p, q) = both (is_ready k s) (all (λ i. is_ready i s) ks) h in
    rw (g.ready k, still_ready (new k) (is_ready k s) p) (Gives-keeps ks g q)
