-- ===== src/Base/Sublists.antt =====
-- Places in a list and sublists.
use mathlib.Core.Path.{◌≡◌, refl, sym, ap, ◌∙◌}
use mathlib.Core.Bool.{Bool, true}
use mathlib.Core.List.{List, [], ◌∷◌, ◌++◌, Memᴰ, Sublistᴰ}
use mathlib.Core.List.Memᴰ.{head, tail}
use mathlib.Core.List.Sublistᴰ.{slnil, cons, cons-cons}
use milvus_operator.Base.{if-all, filter}

module _ {A : Type 0} where
  pub filter-Memᴰ :
      (p : A → Bool) (xs : List A) (x : A) → Memᴰ x xs → p x ≡ true → Memᴰ x (filter p xs)
  filter-Memᴰ p [] x place h = elim place [ ]
  filter-Memᴰ p (y ∷ ys) x (head e) h = rw (sym (ap p e) ∙ h) (head e)
  filter-Memᴰ p (y ∷ ys) x (tail place) h =
      if-all (λ l. Memᴰ x l) (p y) (y ∷ filter p ys) (filter p ys)
        (λ _. tail (filter-Memᴰ p ys x place h)) (λ _. filter-Memᴰ p ys x place h)

  pub filter-Sublistᴰ : (p : A → Bool) (xs : List A) → Sublistᴰ (filter p xs) xs
  filter-Sublistᴰ p [] = slnil
  filter-Sublistᴰ p (x ∷ xs) =
      if-all (λ l. Sublistᴰ l (x ∷ xs)) (p x) (x ∷ filter p xs) (filter p xs)
        (λ _. cons-cons refl (filter-Sublistᴰ p xs)) (λ _. cons (filter-Sublistᴰ p xs))

  nil-Sublistᴰ : (xs : List A) → Sublistᴰ [] xs
  nil-Sublistᴰ [] = slnil
  nil-Sublistᴰ (x ∷ xs) = cons (nil-Sublistᴰ xs)

  -- The first part of a sublist is a sublist.
  pub Sublistᴰ-append :
      (xs ys wanted cs : List A) → xs ++ ys ≡ wanted → Sublistᴰ wanted cs → Sublistᴰ xs cs
  Sublistᴰ-append [] ys wanted cs h s = nil-Sublistᴰ cs
  Sublistᴰ-append (x ∷ xs) ys [] [] h slnil = absurd cc
  Sublistᴰ-append (x ∷ xs) ys (w ∷ wanted) [] h s = elim s [ ]
  Sublistᴰ-append (x ∷ xs) ys wanted (c ∷ cs) h (cons s) =
      cons (Sublistᴰ-append (x ∷ xs) ys wanted cs h s)
  Sublistᴰ-append (x ∷ xs) ys (w ∷ wanted) (c ∷ cs) h (cons-cons e s) =
      let first : x ≡ w = cc in
      let rest : xs ++ ys ≡ wanted = cc in
      cons-cons (first ∙ e) (Sublistᴰ-append xs ys wanted cs rest s)
