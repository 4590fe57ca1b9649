-- ===== src/Merge/Last.antt =====
-- The last entry of each key of a list, and what replacing or appending an entry does to it.
use milvus_operator.Base.{
  ℕ, suc, String, Bool, true, false, Option, none, some, List, [], ◌∷◌, ◌++◌, map, str_eq, ◌≡◌, ◌⊎◌,
  inl, inr, subst, refl, sym, ap, ◌∙◌, if◌then◌else◌, eq_iff,
}
use milvus_operator.Merge.{has_key, next_or, src_map, set_at}

next_or-none : (o : Option ℕ) (b : Bool) → next_or o b ≡ none → (o ≡ none) × (b ≡ false)
next_or-none (some i) b h = absurd cc
next_or-none none true h = absurd cc
next_or-none none false h = (refl, refl)

next_or-some :
    (o : Option ℕ) (b : Bool) (i : ℕ)
    → next_or o b ≡ some i
    → ((j : ℕ) × ((o ≡ some j) × (i ≡ suc j))) ⊎ ((i ≡ 0) × ((b ≡ true) × (o ≡ none)))
next_or-some (some j) b i h = inl (j, (refl, cc))
next_or-some none true i h = inr (cc, (refl, refl))
next_or-some none false i h = absurd cc

pub has_key-some : (n : String) (o : Option String) → has_key n o ≡ true → o ≡ some n
has_key-some n none h = absurd cc
has_key-some n (some m) h = ap some ((eq_iff m n).0 h)

module _ {A : Type 0} where
  abbrev pub or_else : Option A → Option A → Option A
  or_else none o = o
  or_else (some x) o = some x

  pub or_else_assoc : (a b d : Option A) → or_else (or_else a b) d ≡ or_else a (or_else b d)
  or_else_assoc none b d = refl
  or_else_assoc (some x) b d = refl

  pub or_else-none : (a : Option A) → or_else a none ≡ a
  or_else-none none = refl
  or_else-none (some x) = refl

  module _ (key : A → Option String) where
    unfoldable pub last_with : String → List A → Option A
    last_with n [] = none
    last_with n (x ∷ xs) = or_else (last_with n xs) (if has_key n (key x) then some x else none)

    pub last_with-append :
        (n : String) (xs ys : List A)
        → last_with n (xs ++ ys) ≡ or_else (last_with n ys) (last_with n xs)
    unfolding last_with
    last_with-append n [] ys = sym (or_else-none (last_with n ys))
    last_with-append n (x ∷ xs) ys = rw (last_with-append n xs ys) (
        or_else_assoc (last_with n ys) (last_with n xs)
          (if has_key n (key x) then some x else none))

    src_map-none :
        (n : String) (xs : List A) → src_map (map key xs) n ≡ none → last_with n xs ≡ none
    unfolding src_map last_with
    src_map-none n [] h = refl
    src_map-none n (x ∷ xs) h =
        let (p, q) = next_or-none (src_map (map key xs) n) (has_key n (key x)) h in
        rw (src_map-none n xs p, q) refl

    pub set_at-append :
        (n : String) (i : ℕ) (x : A) (xs ys : List A)
        → src_map (map key xs) n ≡ some i
        → set_at i x (xs ++ ys) ≡ set_at i x xs ++ ys
    unfolding src_map set_at
    set_at-append n i x [] ys h = absurd cc
    set_at-append n i x (z ∷ xs) ys h = elim (next_or-some _ _ i h) [
      | inl (j, (p, q)) ↦ rw q (ap (λ l. z ∷ l) (set_at-append n j x xs ys p))
      | inr (q, (b, p)) ↦ rw q refl
    ]

    pub set_at-keys :
        (n : String) (i : ℕ) (x : A) (xs : List A)
        → key x ≡ some n
        → src_map (map key xs) n ≡ some i
        → map key (set_at i x xs) ≡ map key xs
    unfolding src_map set_at
    set_at-keys n i x [] k h = refl
    set_at-keys n i x (z ∷ xs) k h = elim (next_or-some _ _ i h) [
      | inl (j, (p, q)) ↦ rw q (ap (λ l. key z ∷ l) (set_at-keys n j x xs k p))
      | inr (q, (b, p)) ↦ rw q (ap (λ o. o ∷ map key xs) (k ∙ sym (has_key-some n (key z) b)))
    ]

    -- An entry that takes the place of the last one of its key.
    replaced :
        (n m : String) (x z : A) (o : Option A)
        → key x ≡ some n
        → key z ≡ some n
        → (str_eq n m ≡ true → o ≡ none)
        → or_else o (if has_key m (key x) then some x else none)
          ≡ or_else
              (if has_key m (key x) then some x else none)
              (or_else o (if has_key m (key z) then some z else none))
    replaced n m x z o k l h = rw (k, l) (by_test (str_eq n m) o h)
      where
        by_test :
            (b : Bool) (o : Option A)
            → (b ≡ true → o ≡ none)
            → or_else o (if b then some x else none)
              ≡ or_else (if b then some x else none) (or_else o (if b then some z else none))
        by_test true o h = rw (h refl) refl
        by_test false o h = refl

    pub last_with-set_at :
        (n m : String) (i : ℕ) (x : A) (xs : List A)
        → key x ≡ some n
        → src_map (map key xs) n ≡ some i
        → last_with m (set_at i x xs)
          ≡ or_else (if has_key m (key x) then some x else none) (last_with m xs)
    unfolding src_map set_at last_with
    last_with-set_at n m i x [] k h = absurd cc
    last_with-set_at n m i x (z ∷ xs) k h = elim (next_or-some _ _ i h) [
      | inl (j, (p, q)) ↦
          rw (q, last_with-set_at n m j x xs k p)
            (or_else_assoc (if has_key m (key x) then some x else none) (last_with m xs)
              (if has_key m (key z) then some z else none))
      | inr (q, (b, p)) ↦ rw q (
          replaced n m x z (last_with m xs) k (has_key-some n (key z) b)
            (λ e. subst (λ t. last_with t xs ≡ none) ((eq_iff n m).0 e) (src_map-none n xs p)))
    ]
