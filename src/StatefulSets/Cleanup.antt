-- ===== src/StatefulSets/Cleanup.antt =====
-- What the operator deletes of the volume claims of a stateful set.
use mathlib.Core.List.{Memᴰ, Sublistᴰ}
use milvus_operator.Base.{
  String, Bool, true, false, true≢false, not, Option, none, some, List, [], ◌∷◌, ◌++◌, All, filter,
  append_nil, append_assoc, Error, Result, ok, then_do, ◌≡◌, refl, sym, subst, ap, ◌∙◌, inl, inr,
  Bool-cases, arith,
}
use milvus_operator.Base.Sublists.{filter-Memᴰ, filter-Sublistᴰ, Sublistᴰ-append}
use milvus_operator.Base.Int.{ℤ, pos, ltb_ℤ, ◌≤ℤ◌}
use milvus_operator.Deployment.{to_int32}
use milvus_operator.StatefulSets.Ordinals.{
  IsNamed, match_stateful_set_pvc_ordinal-named, named-match_stateful_set_pvc_ordinal,
}
use milvus_operator.StatefulSets.{StatefulSet, get_stateful_set_replicas}
use milvus_operator.StatefulSets.Claims.{
  Claim, claim_prefixes, match_stateful_set_pvc_ordinal, at_least, is_scaled_down, unless_not_found,
  Server, with_templates, delete_scaled_down, cleanup_scaled_down_stateful_set_pvcs, delete_claims,
  scaled_down_text,
}

-- A server that keeps the claims whose deletion it was asked for, in order.
abbrev pub recorded : (Claim → Option Error) → Claim → List Claim → Option Error × List Claim
recorded answer c log = (answer c, log ++ (c ∷ []))

-- `spec.replicas`, 1 where it is absent.
abbrev pub wanted_replicas : Option ℤ → ℤ
wanted_replicas none = pos 1
wanted_replicas (some r) = r

-- By its name the claim is that of pod `n` for one of the set's templates.
abbrev pub IsOfPod : (String → Result ℤ) → StatefulSet → Claim → ℤ → Type 0
IsOfPod atoi s c n = (t : String) × Memᴰ t s.claim_templates × IsNamed atoi s.name t n c.name

-- The claim does not terminate, and is that of a pod beyond the wanted replicas.
abbrev pub IsRemovable : (String → Result ℤ) → StatefulSet → Claim → Type 0
IsRemovable atoi s c =
    (c.terminating ≡ false)
    × (n : ℤ) × IsOfPod atoi s c n
    × (wanted_replicas s.replicas ≤ℤ to_int32 n)

-- No template makes it the claim of a wanted pod.
abbrev pub IsUnwanted : (String → Result ℤ) → StatefulSet → Claim → Type 0
IsUnwanted atoi s c = (n : ℤ) → IsOfPod atoi s c n → wanted_replicas s.replicas ≤ℤ to_int32 n

not-true : (b : Bool) → not b ≡ true → b ≡ false
not-true true h = absurd cc
not-true false h = refl

at_least-some :
    (desired : ℤ) (o : Option ℤ)
    → at_least desired o ≡ true
    → (n : ℤ) × (o ≡ some n) × (ltb_ℤ n desired ≡ false)
at_least-some desired none h = absurd cc
at_least-some desired (some n) h = (n, refl, not-true (ltb_ℤ n desired) h)

not_least : (n m : ℤ) → ltb_ℤ n m ≡ false → m ≤ℤ n
not_least n m h = ground arith

least_not : (n m : ℤ) → m ≤ℤ n → ltb_ℤ n m ≡ false
least_not n m h = ground arith

get_stateful_set_replicas-wanted_replicas :
    (s : StatefulSet) → get_stateful_set_replicas s ≡ wanted_replicas s.replicas
unfolding get_stateful_set_replicas
get_stateful_set_replicas-wanted_replicas s = elim s.replicas [ none ↦ refl | some r ↦ refl ]

is_scaled_down-IsRemovable :
    (atoi : String → Result ℤ) (s : StatefulSet) (c : Claim)
    → is_scaled_down atoi s c ≡ true
    → IsRemovable atoi s c
unfolding is_scaled_down claim_prefixes
is_scaled_down-IsRemovable atoi s c h = elim (Bool-cases c.terminating) [
  | inl t ↦ absurd (true≢false (sym h ∙ rw (t, is_scaled_down) refl))
  | inr f ↦
      let (m, found, least) =
        at_least-some (get_stateful_set_replicas s)
          (match_stateful_set_pvc_ordinal atoi c.name (claim_prefixes s))
          (sym (rw (f, is_scaled_down) refl) ∙ h) in
      let (t, n, place, named, same) =
        match_stateful_set_pvc_ordinal-named atoi s.name c.name s.claim_templates m found in
      (
        f,
        n,
        (t, place, named),
        subst (λ k. wanted_replicas s.replicas ≤ℤ k) same
            (subst (λ w. w ≤ℤ m) (get_stateful_set_replicas-wanted_replicas s)
              (not_least m (get_stateful_set_replicas s) least)),
      )
]

IsRemovable-is_scaled_down :
    (atoi : String → Result ℤ) (s : StatefulSet) (c : Claim)
    → IsRemovable atoi s c
    → IsUnwanted atoi s c
    → is_scaled_down atoi s c ≡ true
unfolding is_scaled_down claim_prefixes
IsRemovable-is_scaled_down atoi s c (stays, n, (t, place, named), beyond) unwanted =
    let (m, found) =
      named-match_stateful_set_pvc_ordinal atoi s.name c.name s.claim_templates t n place named in
    let (u, k, there, read, same) =
      match_stateful_set_pvc_ordinal-named atoi s.name c.name s.claim_templates m found in
    let least : get_stateful_set_replicas s ≤ℤ m =
      rw (get_stateful_set_replicas-wanted_replicas s, same) (unwanted k (u, there, read)) in
    rw (stays, found, least_not m (get_stateful_set_replicas s) least) refl

filter-All :
    {A : Type 0} {P : A → Type 0} (p : A → Bool) (xs : List A)
    → ((x : A) → p x ≡ true → P x)
    → All P (filter p xs)
filter-All p [] h = tt
filter-All p (x ∷ xs) h = elim (Bool-cases (p x)) [
  | inl t ↦ rw t (h x t, filter-All p xs h)
  | inr t ↦ rw t (filter-All p xs h)
]

All-append : (P : Claim → Type 0) (xs ys : List Claim) → All P (xs ++ ys) → All P xs
All-append P [] ys h = tt
All-append P (x ∷ xs) ys (h, hs) = (h, All-append P xs ys hs)

module _ (answer : Claim → Option Error) (text : Claim → String) (chosen : Claim → Bool) where
  abbrev pub run : List Claim → List Claim → Option Error × List Claim
  run = delete_claims (recorded answer) text chosen

  -- A run that starts with `log` sends the wanted deletions up to an error.
  abbrev Sends : List Claim → List Claim → Option Error × List Claim → Type 0
  Sends wanted log (e, after) =
      (sent : List Claim) × (unsent : List Claim) × (after ≡ log ++ sent)
      × (sent ++ unsent ≡ wanted)
      × (e ≡ none → unsent ≡ [])

  after_delete :
      (e : Option Error) (c : Claim) (wanted log : List Claim)
      (rest : List Claim → Option Error × List Claim)
      → Sends wanted (log ++ (c ∷ [])) (rest (log ++ (c ∷ [])))
      → Sends (c ∷ wanted) log (then_do (e, log ++ (c ∷ [])) rest)
  after_delete (some e) c wanted log rest h = (c ∷ [], wanted, refl, refl, λ never. absurd cc)
  after_delete none c wanted log rest (sent, unsent, ran, together, ends) =
      (c ∷ sent, unsent, ran ∙ append_assoc log (c ∷ []) sent, ap (λ l. c ∷ l) together, ends)

  delete_claims-Sends : (cs log : List Claim) → Sends (filter chosen cs) log (run cs log)
  unfolding delete_claims
  delete_claims-Sends [] log = ([], [], sym (append_nil log), refl, λ h. refl)
  delete_claims-Sends (c ∷ cs) log = elim (Bool-cases (chosen c)) [
    | inl t ↦
        rw (t, delete_claims)
          (after_delete (unless_not_found (text c) (answer c)) c (filter chosen cs) log (run cs)
            (delete_claims-Sends cs (log ++ (c ∷ []))))
    | inr t ↦ rw (t, delete_claims) (delete_claims-Sends cs log)
  ]

delete_claims-IsRemovable :
    (atoi : String → Result ℤ) (answer : Claim → Option Error) (s : StatefulSet) (cs : List Claim)
    → let (e, sent) =
        delete_claims (recorded answer) scaled_down_text (is_scaled_down atoi s) cs [] in
      Sublistᴰ sent cs
      × All (IsRemovable atoi s) sent
      × (e ≡ none
          → (c : Claim) → Memᴰ c cs
          → IsRemovable atoi s c
          → IsUnwanted atoi s c
          → Memᴰ c sent)
delete_claims-IsRemovable atoi answer s cs =
    let chosen = is_scaled_down atoi s in
    let (sent, unsent, ran, together, ends) =
      delete_claims-Sends answer scaled_down_text chosen cs [] in
    rw ran (
      Sublistᴰ-append sent unsent (filter chosen cs) cs together (filter-Sublistᴰ chosen cs),
      All-append (IsRemovable atoi s) sent unsent (
          subst (All (IsRemovable atoi s)) (sym together)
            (filter-All chosen cs (is_scaled_down-IsRemovable atoi s))),
      λ h c place removable unwanted.
          let all : sent ≡ filter chosen cs =
            sym (append_nil sent) ∙ ap (λ l. sent ++ l) (sym (ends h)) ∙ together in
          subst (Memᴰ c) (sym all) (
            filter-Memᴰ chosen cs c place (IsRemovable-is_scaled_down atoi s c removable unwanted)),
    )

-- Of the claims that the server lists for a set with claim templates, the operator asks to delete
-- some in the order of the list, and only such as do not terminate and have the name
-- `<template>-<set>-<number>` of a pod whose number, as an int32, is not below the set's replicas;
-- if it returns no error, it has asked for every such claim that no template makes the claim of a
-- pod below them.
pub cleanup_scaled_down_stateful_set_pvcs-IsRemovable :
    (atoi : String → Result ℤ) (answer : Claim → Option Error) (srv : Server (List Claim))
    (s : StatefulSet) (t : String) (ts : List String) (cs : List Claim)
    → s.claim_templates ≡ t ∷ ts
    → srv.list_claims s.selector [] ≡ (ok cs, [])
    → srv.delete_claim ≡ recorded answer
    → let (e, sent) = cleanup_scaled_down_stateful_set_pvcs atoi srv s [] in
      Sublistᴰ sent cs
      × All (IsRemovable atoi s) sent
      × (e ≡ none
          → (c : Claim) → Memᴰ c cs
          → IsRemovable atoi s c
          → IsUnwanted atoi s c
          → Memᴰ c sent)
unfolding cleanup_scaled_down_stateful_set_pvcs
cleanup_scaled_down_stateful_set_pvcs-IsRemovable atoi answer srv s t ts cs templates listed
      deletes =
    let clean : List String → Option Error × List Claim = λ l.
      with_templates l (λ u. delete_scaled_down atoi srv s (srv.list_claims s.selector u)) [] in
    let runs =
      ap clean templates
      ∙ ap (delete_scaled_down atoi srv s) listed
      ∙ ap (λ d. delete_claims d scaled_down_text (is_scaled_down atoi s) cs []) deletes in
    rw runs (delete_claims-IsRemovable atoi answer s cs)
