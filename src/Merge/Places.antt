-- ===== src/Merge/Places.antt =====
-- What a merge of lists gives each key, and where its entries stand.
use mathlib.Core.List.{append-nil, append_assoc, map-append}
use milvus_operator.Base.{
  ℕ, String, Bool, true, false, ◌||◌, is_some, str_eq, Option, none, some, List, [], ◌∷◌, ◌++◌, map,
  ◌≡◌, refl, sym, ap, ◌∙◌, if◌then◌else◌, eq_iff, arith,
}
use milvus_operator.Merge.{
  next_or, has_key, src_map, set_at, put_at, index_in, place_all, merge_lists,
}
use milvus_operator.Merge.Last.{
  or_else, last_with, or_else_assoc, or_else-none, last_with-append, set_at-append, set_at-keys,
  last_with-set_at, has_key-some,
}

index_in-some :
    (ks : List (Option String)) (k : Option String) (i : ℕ)
    → index_in ks k ≡ some i
    → (n : String) × ((k ≡ some n) × (src_map ks n ≡ some i))
index_in-some ks none i h = absurd cc
index_in-some ks (some n) i h = (n, (refl, h))

-- Whether a key is in a list.
abbrev pub is_among : String → List (Option String) → Bool
is_among n [] = false
is_among n (none ∷ ks) = is_among n ks
is_among n (some m ∷ ks) = str_eq m n || is_among n ks

-- The keys of a list that are not in `ks`, with each entry that has no key.
abbrev pub fresh_keys : List (Option String) → List (Option String) → List (Option String)
fresh_keys ks [] = []
fresh_keys ks (none ∷ l) = none ∷ fresh_keys ks l
fresh_keys ks (some n ∷ l) =
    let rest = fresh_keys ks l in if is_among n ks then rest else some n ∷ rest

next_or-is_some : (o : Option ℕ) (b : Bool) → is_some (next_or o b) ≡ (b || is_some o)
next_or-is_some none true = refl
next_or-is_some none false = refl
next_or-is_some (some i) true = refl
next_or-is_some (some i) false = refl

src_map-is_among : (ks : List (Option String)) (n : String) → is_some (src_map ks n) ≡ is_among n ks
unfolding src_map
src_map-is_among [] n = refl
src_map-is_among (none ∷ ks) n = next_or-is_some (src_map ks n) false ∙ src_map-is_among ks n
src_map-is_among (some m ∷ ks) n =
    next_or-is_some (src_map ks n) (str_eq m n) ∙ ap (λ b. str_eq m n || b) (src_map-is_among ks n)

fresh_keys-among :
    (ks : List (Option String)) (n : String) (i : ℕ) (l : List (Option String))
    → src_map ks n ≡ some i
    → fresh_keys ks (some n ∷ l) ≡ fresh_keys ks l
fresh_keys-among ks n i l q = rw (sym (src_map-is_among ks n) ∙ ap is_some q) refl

fresh_keys-fresh :
    (ks : List (Option String)) (k : Option String) (l : List (Option String))
    → index_in ks k ≡ none
    → fresh_keys ks (k ∷ l) ≡ k ∷ fresh_keys ks l
fresh_keys-fresh ks none l q = refl
fresh_keys-fresh ks (some n) l q = rw (sym (src_map-is_among ks n) ∙ ap is_some q) refl

fresh_keys-nil : (l : List (Option String)) → fresh_keys [] l ≡ l
fresh_keys-nil [] = refl
fresh_keys-nil (none ∷ l) = ap (λ r. none ∷ r) (fresh_keys-nil l)
fresh_keys-nil (some n ∷ l) = ap (λ r. some n ∷ r) (fresh_keys-nil l)

module _ {A : Type 0} where
  module _ (key : A → Option String) where
    -- The entries of `src`, perhaps replaced, and what has been appended, which has no key of `src`.
    record IsMerged (ks : List (Option String)) (merged : List A) : Type 0 where
      front : List A
      extra : List A
      split : merged ≡ front ++ extra
      same : map key front ≡ ks
      apart : (n : String) (i : ℕ) → src_map ks n ≡ some i → last_with key n extra ≡ none

    src-IsMerged : (src : List A) → IsMerged (map key src) src
    unfolding last_with
    src-IsMerged src = record {
      front = src;
      extra = [];
      split = sym (append-nil src);
      same = refl;
      apart = λ n i q. refl;
    }

    not_in_src :
        (ks : List (Option String)) (n : String) (i : ℕ) (k : Option String)
        → index_in ks k ≡ none
        → src_map ks n ≡ some i
        → has_key n k ≡ false
    not_in_src ks n i none h q = refl
    not_in_src ks n i (some m) h q = ground (arith, eq_iff m n)

    put_at-IsMerged :
        (ks : List (Option String)) (merged : List A) (x : A) (o : Option ℕ)
        → index_in ks (key x) ≡ o
        → IsMerged ks merged
        → IsMerged ks (put_at o x merged)
    unfolding last_with
    put_at-IsMerged ks merged x none h g = record {
      front = g.front;
      extra = g.extra ++ (x ∷ []);
      split = rw (g.split) (append_assoc g.front g.extra (x ∷ []));
      same = g.same;
      apart = λ n i q.
          last_with-append key n g.extra (x ∷ [])
          ∙ rw (not_in_src ks n i (key x) h q) (g.apart n i q);
    }
    put_at-IsMerged ks merged x (some i) h g =
        let (n, (k, q)) = index_in-some ks (key x) i h in
        let at = ap (λ l. src_map l n) g.same ∙ q in
        record {
          front = set_at i x g.front;
          extra = g.extra;
          split = rw (g.split) (set_at-append key n i x g.front g.extra at);
          same = set_at-keys key n i x g.front k at ∙ g.same;
          apart = g.apart;
        }

    or_else-swap :
        (b : Bool) (x : A) (e f : Option A)
        → (b ≡ true → e ≡ none)
        → or_else e (or_else (if b then some x else none) f)
          ≡ or_else (if b then some x else none) (or_else e f)
    or_else-swap true x e f h = rw (h refl) refl
    or_else-swap false x e f h = refl

    put_at-last :
        (ks : List (Option String)) (merged : List A) (x : A) (o : Option ℕ) (m : String)
        → index_in ks (key x) ≡ o
        → IsMerged ks merged
        → last_with key m (put_at o x merged)
          ≡ or_else (if has_key m (key x) then some x else none) (last_with key m merged)
    unfolding last_with
    put_at-last ks merged x none m h g = last_with-append key m merged (x ∷ [])
    put_at-last ks merged x (some i) m h g =
        let (n, (k, q)) = index_in-some ks (key x) i h in
        let at = ap (λ l. src_map l n) g.same ∙ q in
        ap (λ l. last_with key m (set_at i x l)) g.split
        ∙ (ap (last_with key m) (set_at-append key n i x g.front g.extra at)
            ∙ (last_with-append key m (set_at i x g.front) g.extra
                ∙ (ap (or_else (last_with key m g.extra))
                      (last_with-set_at key n m i x g.front k at)
                    ∙ (or_else-swap (has_key m (key x)) x (last_with key m g.extra)
                          (last_with key m g.front)
                          (λ b. g.apart m i (sym (ap (index_in ks) (has_key-some m (key x) b)) ∙ h))
                        ∙ sym (
                            ap (or_else (if has_key m (key x) then some x else none)) (
                              ap (last_with key m) g.split
                              ∙ last_with-append key m g.front g.extra))))))

    place_all-last :
        (ks : List (Option String)) (dst merged : List A) (m : String)
        → IsMerged ks merged
        → last_with key m (place_all key ks dst merged)
          ≡ or_else (last_with key m dst) (last_with key m merged)
    unfolding place_all last_with
    place_all-last ks [] merged m g = refl
    place_all-last ks (x ∷ xs) merged m g =
        place_all-last ks xs (put_at (index_in ks (key x)) x merged) m
          (put_at-IsMerged ks merged x _ refl g)
        ∙ (ap (or_else (last_with key m xs)) (put_at-last ks merged x _ m refl g)
            ∙ sym (or_else_assoc (last_with key m xs) _ (last_with key m merged)))

    -- Where a list's last entry of a key counts, a merge has for each key what `dst` has, and what
    -- `src` has for a key that `dst` has not.
    pub merge_lists-last :
        (src dst : List A) (m : String)
        → last_with key m (merge_lists key src dst)
          ≡ or_else (last_with key m dst) (last_with key m src)
    unfolding merge_lists last_with
    merge_lists-last [] dst m = sym (or_else-none (last_with key m dst))
    merge_lists-last (s ∷ src) [] m = refl
    merge_lists-last (s ∷ src) (d ∷ dst) m =
        place_all-last (map key (s ∷ src)) (d ∷ dst) (s ∷ src) m (src-IsMerged (s ∷ src))

    set_at-place :
        (ks : List (Option String)) (merged : List A) (x : A) (i : ℕ)
        → index_in ks (key x) ≡ some i
        → IsMerged ks merged
        → map key (set_at i x merged) ≡ map key merged
    set_at-place ks merged x i h g =
        let (n, (k, q)) = index_in-some ks (key x) i h in
        let at = ap (λ l. src_map l n) g.same ∙ q in
        ap (λ l. map key (set_at i x l)) g.split
        ∙ (ap (map key) (set_at-append key n i x g.front g.extra at)
            ∙ (map-append key (set_at i x g.front) g.extra
                ∙ (ap (λ r. r ++ map key g.extra) (set_at-keys key n i x g.front k at)
                    ∙ sym (ap (map key) g.split ∙ map-append key g.front g.extra))))

    put_at-keys :
        (ks : List (Option String)) (merged : List A) (x : A) (o : Option ℕ)
        (l : List (Option String))
        → index_in ks (key x) ≡ o
        → IsMerged ks merged
        → map key (put_at o x merged) ++ fresh_keys ks l
          ≡ map key merged ++ fresh_keys ks (key x ∷ l)
    put_at-keys ks merged x none l h g =
        ap (λ r. r ++ fresh_keys ks l) (map-append key merged (x ∷ []))
        ∙ (append_assoc (map key merged) (key x ∷ []) (fresh_keys ks l)
            ∙ ap (λ r. map key merged ++ r) (sym (fresh_keys-fresh ks (key x) l h)))
    put_at-keys ks merged x (some i) l h g =
        let (n, (k, q)) = index_in-some ks (key x) i h in
        ap (λ r. r ++ fresh_keys ks l) (set_at-place ks merged x i h g)
        ∙ ap (λ r. map key merged ++ r)
            (sym (ap (λ o. fresh_keys ks (o ∷ l)) k ∙ fresh_keys-among ks n i l q))

    place_all-keys :
        (ks : List (Option String)) (dst merged : List A)
        → IsMerged ks merged
        → map key (place_all key ks dst merged) ≡ map key merged ++ fresh_keys ks (map key dst)
    unfolding place_all
    place_all-keys ks [] merged g = sym (append-nil (map key merged))
    place_all-keys ks (x ∷ xs) merged g =
        place_all-keys ks xs (put_at (index_in ks (key x)) x merged)
          (put_at-IsMerged ks merged x _ refl g)
        ∙ put_at-keys ks merged x _ (map key xs) refl g

    -- A merge keeps the places of `src`, and puts every entry of `dst` that has a key that `src` has
    -- not, or no key, behind them in the order of `dst`.
    pub merge_lists-keys :
        (src dst : List A)
        → map key (merge_lists key src dst) ≡ map key src ++ fresh_keys (map key src) (map key dst)
    unfolding merge_lists
    merge_lists-keys [] dst = sym (fresh_keys-nil (map key dst))
    merge_lists-keys (s ∷ src) [] = sym (append-nil (map key (s ∷ src)))
    merge_lists-keys (s ∷ src) (d ∷ dst) =
        place_all-keys (map key (s ∷ src)) (d ∷ dst) (s ∷ src) (src-IsMerged (s ∷ src))
