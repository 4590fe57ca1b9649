-- ===== src/Webhook/Defaults/Filled.antt =====
-- Which components are there, and which have replicas, after components are made.
use milvus_operator.Base.{
  Bool, true, false, ◌&&◌, ◌||◌, Option, none, some, List, [], ◌∷◌, any, all, ◌≡◌, refl, sym, ap,
  ◌∙◌, inl, inr, if◌then◌else◌, Option-cases, subst,
}
use milvus_operator.Api.Spec.{ComponentKind, Component, MilvusSpec, is_set}
use milvus_operator.Component.{kind_eq}
use milvus_operator.Component.Replicas.{kind_eq_sound}
use milvus_operator.Webhook.Defaults.{empty_component, fill, fill_all}

abbrev pub has : ComponentKind → MilvusSpec → Bool
has k s = is_set (s.components.field k)

abbrev pub with_replicas : Option Component → Bool
with_replicas none = false
with_replicas (some c) = is_set c.replicas

abbrev pub is_ready : ComponentKind → MilvusSpec → Bool
is_ready k s = with_replicas (s.components.field k)

-- All of a spec but its components.
abbrev pub settings : MilvusSpec → MilvusSpec
settings s = record s { components = record (s.components) { field = λ k. none } }

pub both : (a b : Bool) → (a && b) ≡ true → (a ≡ true) × (b ≡ true)
both true b h = (refl, h)
both false b h = absurd cc

pub if_has :
    (b : Bool) (c : Component) (o : Option Component)
    → is_set (if b then some c else o) ≡ (b || is_set o)
if_has true c o = refl
if_has false c o = refl

pub or_same : (b x : Bool) → (b ≡ true → x ≡ true) → x ≡ (b || x)
or_same true x h = h refl
or_same false x h = refl

-- What holds of a kind's field holds of the field of an equal kind.
pub at_kind :
    (P : Option Component → Type 0) (k j : ComponentKind) (s : MilvusSpec)
    → P (s.components.field k)
    → kind_eq k j ≡ true
    → P (s.components.field j)
at_kind P k j s p e = subst (λ i. P (s.components.field i)) (kind_eq_sound k j e) p

pub fill-has : (k j : ComponentKind) (s : MilvusSpec) → has j (fill k s) ≡ (kind_eq k j || has j s)
unfolding fill
fill-has k j s = elim (Option-cases (s.components.field k)) [
  | inl e ↦ rw (fill, e) (if_has (kind_eq k j) empty_component (s.components.field j))
  | inr (c, e) ↦
      rw (fill, e)
        (or_same (kind_eq k j) (has j s) (at_kind (λ o. is_set o ≡ true) k j s (rw e refl)))
]

pub if_ready :
    (b : Bool) (c : Component) (o : Option Component)
    → with_replicas (if b then some c else o) ≡ (if b then is_set c.replicas else with_replicas o)
if_ready true c o = refl
if_ready false c o = refl

if_false : (b x : Bool) → (b ≡ true → x ≡ false) → (if b then false else x) ≡ x
if_false true x h = sym (h refl)
if_false false x h = refl

pub fill-is_ready : (k j : ComponentKind) (s : MilvusSpec) → is_ready j (fill k s) ≡ is_ready j s
unfolding fill
fill-is_ready k j s = elim (Option-cases (s.components.field k)) [
  | inl e ↦
      rw (fill, e)
        (if_ready (kind_eq k j) empty_component (s.components.field j)
          ∙ if_false (kind_eq k j) (is_ready j s)
              (at_kind (λ o. with_replicas o ≡ false) k j s (rw e refl)))
  | inr (c, e) ↦ rw (fill, e) refl
]

pub fill-settings : (k : ComponentKind) (s : MilvusSpec) → settings (fill k s) ≡ settings s
unfolding fill
fill-settings k s = elim (Option-cases (s.components.field k)) [
  | inl e ↦ rw (fill, e) refl
  | inr (c, e) ↦ rw (fill, e) refl
]

pub fill-same : (k : ComponentKind) (s : MilvusSpec) → has k s ≡ true → fill k s ≡ s
unfolding fill
fill-same k s h = elim (Option-cases (s.components.field k)) [
  | inl e ↦ absurd (no_field e)
  | inr (c, e) ↦ rw (fill, e) refl
]
  where
    no_field : s.components.field k ≡ none → ⊥
    no_field e = cc

abbrev pub any_kind : ComponentKind → List ComponentKind → Bool
any_kind j ks = any (λ k. kind_eq k j) ks

pub or_swap : (a b c : Bool) → (a || (b || c)) ≡ ((b || a) || c)
or_swap true true c = refl
or_swap true false c = refl
or_swap false true c = refl
or_swap false false c = refl

pub fill_all-has :
    (j : ComponentKind) (ks : List ComponentKind) (s : MilvusSpec)
    → has j (fill_all ks s) ≡ (any_kind j ks || has j s)
unfolding fill_all
fill_all-has j [] s = refl
fill_all-has j (k ∷ ks) s =
    fill_all-has j ks (fill k s)
    ∙ (ap (λ b. any_kind j ks || b) (fill-has k j s)
        ∙ or_swap (any_kind j ks) (kind_eq k j) (has j s))

pub fill_all-is_ready :
    (j : ComponentKind) (ks : List ComponentKind) (s : MilvusSpec)
    → is_ready j (fill_all ks s) ≡ is_ready j s
unfolding fill_all
fill_all-is_ready j [] s = refl
fill_all-is_ready j (k ∷ ks) s = fill_all-is_ready j ks (fill k s) ∙ fill-is_ready k j s

pub fill_all-settings :
    (ks : List ComponentKind) (s : MilvusSpec) → settings (fill_all ks s) ≡ settings s
unfolding fill_all
fill_all-settings [] s = refl
fill_all-settings (k ∷ ks) s = fill_all-settings ks (fill k s) ∙ fill-settings k s

pub fill_all-same :
    (ks : List ComponentKind) (s : MilvusSpec) → all (λ k. has k s) ks ≡ true → fill_all ks s ≡ s
unfolding fill_all
fill_all-same [] s h = refl
fill_all-same (k ∷ ks) s h =
    let (p, q) = both (has k s) (all (λ i. has i s) ks) h in
    ap (fill_all ks) (fill-same k s p) ∙ fill_all-same ks s q
