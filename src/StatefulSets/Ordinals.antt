-- ===== src/StatefulSets/Ordinals.antt =====
-- The number that matchStatefulSetPVCOrdinal of pkg/controllers/statefulset.go reads off the name
-- of a volume claim.
use Prim.Native.String.{◌++◌, len, slice}
use text.Mathlib.Text.{starts_with}
use text.Mathlib.TextEquality.{starts_with_iff}
use text.Mathlib.TextPositions.{len-append, slice-append_right}
use mathlib.Core.List.{Memᴰ}
use mathlib.Core.List.Memᴰ.{head, tail}
use milvus_operator.Base.{
  String, false, Option, some, List, [], ◌∷◌, map, Result, ok, err, ◌≡◌, refl, sym, ap, ◌∙◌, ◌⊎◌,
  inl, inr, Bool-cases, arith,
}
use milvus_operator.Base.Int.{ℤ, pos, ltb_ℤ, ◌≤ℤ◌}
use milvus_operator.Deployment.{to_int32}
use milvus_operator.StatefulSets.Claims.{ordinal_or, match_stateful_set_pvc_ordinal}

-- The name is `<template>-<set>-<n>`.
abbrev pub IsNamed : (String → Result ℤ) → String → String → ℤ → String → Type 0
IsNamed atoi set template n name =
    (rest : String) × ((template ++ ("-" ++ (set ++ "-"))) ++ rest ≡ name)
    × (atoi rest ≡ ok n)
    × (pos 0 ≤ℤ n)

after_prefix : (p rest name : String) → p ++ rest ≡ name → slice name (len p) (len name) ≡ rest
after_prefix p rest name h =
    ap (λ v. slice v (len p) (len v)) (sym h)
    ∙ (ap (λ k. slice (p ++ rest) (len p) k) (len-append p rest) ∙ slice-append_right p rest)

nonnegative : (n : ℤ) → ltb_ℤ n (pos 0) ≡ false → pos 0 ≤ℤ n
nonnegative n h = ground arith

not_below : (n : ℤ) → pos 0 ≤ℤ n → ltb_ℤ n (pos 0) ≡ false
not_below n h = ground arith

-- A found number is the read one or that of a later prefix.
ordinal_or-some :
    (later : Option ℤ) (read : Result ℤ) (m : ℤ)
    → ordinal_or later read ≡ some m
    → (later ≡ some m) ⊎ ((n : ℤ) × (read ≡ ok n) × (pos 0 ≤ℤ n) × (m ≡ to_int32 n))
ordinal_or-some later (err e) m h = inl h
ordinal_or-some later (ok n) m h = elim (Bool-cases (ltb_ℤ n (pos 0))) [
  | inl t ↦ inl (rw t at h)
  | inr f ↦ let q : some (to_int32 n) ≡ some m = rw f at h in inr (n, refl, nonnegative n f, cc)
]

ordinal_or-later : (k : ℤ) (read : Result ℤ) → (m : ℤ) × (ordinal_or (some k) read ≡ some m)
ordinal_or-later k (err e) = (k, refl)
ordinal_or-later k (ok n) = elim (Bool-cases (ltb_ℤ n (pos 0))) [
  | inl t ↦ (k, rw t refl)
  | inr f ↦ (to_int32 n, rw f refl)
]

module _ (atoi : String → Result ℤ) (set name : String) where
  abbrev pub prefixes : List String → List String
  prefixes ts = map (λ t. t ++ ("-" ++ (set ++ "-"))) ts

  -- The number is that of a template, as an int32.
  abbrev pub IsTemplateNumber : List String → ℤ → Type 0
  IsTemplateNumber ts m =
      (t : String) × (n : ℤ) × Memᴰ t ts × IsNamed atoi set t n name × (m ≡ to_int32 n)

  later_template :
      (u : String) (ts : List String) (m : ℤ) → IsTemplateNumber ts m → IsTemplateNumber (u ∷ ts) m
  later_template u ts m (t, n, place, named, same) = (t, n, tail place, named, same)

  -- A number that is found is the number of one of the templates.
  pub match_stateful_set_pvc_ordinal-named :
      (ts : List String) (m : ℤ)
      → match_stateful_set_pvc_ordinal atoi name (prefixes ts) ≡ some m
      → IsTemplateNumber ts m
  unfolding match_stateful_set_pvc_ordinal
  match_stateful_set_pvc_ordinal-named [] m h = absurd cc
  match_stateful_set_pvc_ordinal-named (t ∷ ts) m h =
      let p = t ++ ("-" ++ (set ++ "-")) in
      let later = λ (q : match_stateful_set_pvc_ordinal atoi name (prefixes ts) ≡ some m).
        later_template t ts m (match_stateful_set_pvc_ordinal-named ts m q) in
      elim (Bool-cases (starts_with name p)) [
        | inr f ↦ later (rw f at h)
        | inl starts ↦
            let (rest, q) = (starts_with_iff name p).0 starts in
            elim (ordinal_or-some (match_stateful_set_pvc_ordinal atoi name (prefixes ts))
              (atoi rest) m (rw (starts, after_prefix p rest name q) at h)) [
                | inl o ↦ later o
                | inr (n, read, natural, same) ↦ (t, n, head refl, (rest, q, read, natural), same)
              ]
      ]

  -- A claim that is named after one of the templates has a number.
  pub named-match_stateful_set_pvc_ordinal :
      (ts : List String) (t : String) (n : ℤ)
      → Memᴰ t ts
      → IsNamed atoi set t n name
      → (m : ℤ) × (match_stateful_set_pvc_ordinal atoi name (prefixes ts) ≡ some m)
  unfolding match_stateful_set_pvc_ordinal
  named-match_stateful_set_pvc_ordinal [] t n place named = elim place [ ]
  named-match_stateful_set_pvc_ordinal (u ∷ ts) t n (head e) (rest, q, read, natural) =
      let p = u ++ ("-" ++ (set ++ "-")) in
      let here : p ++ rest ≡ name = rw (sym e) q in
      (
        to_int32 n,
        rw
            (
              (starts_with_iff name p).1 (rest, here),
              after_prefix p rest name here,
              read,
              not_below n natural,
            )
            refl,
      )
  named-match_stateful_set_pvc_ordinal (u ∷ ts) t n (tail place) named =
      let p = u ++ ("-" ++ (set ++ "-")) in
      let (k, found) = named-match_stateful_set_pvc_ordinal ts t n place named in
      elim (Bool-cases (starts_with name p)) [
        | inl starts ↦
            let (m, o) = ordinal_or-later k (atoi (slice name (len p) (len name))) in
            (m, rw (starts, found) o)
        | inr other ↦ (k, rw (other, found) refl)
      ]
