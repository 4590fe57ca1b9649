-- ===== src/Conditions/Update.antt =====
-- UpdateCondition and RemoveConditions of pkg/controllers/utils.go against
-- GetMilvusConditionByType.
use text.Mathlib.TextPositions.{eq_refl}
use milvus_operator.Base.{
  ℕ, String, Bool, true, false, not, ◌&&◌, none, some, List, [], ◌∷◌, filter, any, str_eq,
  if◌then◌else◌, ◌≡◌, refl, sym, ap, ◌∙◌, inl, inr, arith, eq_iff, Bool-cases,
}
use milvus_operator.Api.Status.{ConditionStatus, is_true, is_false, unknown}
use milvus_operator.Conditions.{
  MilvusCondition, status_text, is_type, agrees, stamped, put_condition, update_condition,
  remove_conditions, get_condition,
}

-- A condition says the same as another, whenever it began to.
pub record Says (c d : MilvusCondition) : Type 0 where
  pub type : d.type ≡ c.type
  pub status : d.status ≡ c.status
  pub reason : d.reason ≡ c.reason
  pub message : d.message ≡ c.message

status_text-same : (a b : ConditionStatus) → str_eq (status_text a) (status_text b) ≡ true → a ≡ b
status_text-same is_true is_true h = refl
status_text-same is_true is_false h = ground arith
status_text-same is_true unknown h = ground arith
status_text-same is_false is_true h = ground arith
status_text-same is_false is_false h = refl
status_text-same is_false unknown h = ground arith
status_text-same unknown is_true h = ground arith
status_text-same unknown is_false h = ground arith
status_text-same unknown unknown h = refl

and-both : (a b : Bool) → (a && b) ≡ true → (a ≡ true) × (b ≡ true)
and-both true b h = (refl, h)
and-both false b h = ground arith

text-same : (s t : String) → str_eq s t ≡ true → s ≡ t
text-same s t h = (eq_iff s t).0 h

agrees-Says :
    (c old : MilvusCondition) → is_type c.type old ≡ true → agrees old c ≡ true → Says c old
agrees-Says c old t h =
    let (st, h2) = and-both (str_eq (status_text old.status) (status_text c.status)) _ h in
    let (r, m) = and-both (str_eq old.reason c.reason) _ h2 in
    record {
      type = text-same old.type c.type t;
      status = status_text-same old.status c.status st;
      reason = text-same old.reason c.reason r;
      message = text-same old.message c.message m;
    }

stamped-Says : (now : ℕ) (c : MilvusCondition) → Says c (stamped now c)
stamped-Says now c = record { type = refl; status = refl; reason = refl; message = refl }

agrees-stamped : (now : ℕ) (c : MilvusCondition) → agrees (stamped now c) c ≡ true
agrees-stamped now c = rw (eq_refl (status_text c.status), eq_refl c.reason, eq_refl c.message) refl

put-get :
    (now : ℕ) (c : MilvusCondition) (cs : List MilvusCondition)
    → (d : MilvusCondition) × (get_condition c.type (put_condition now c cs) ≡ some d) × Says c d
unfolding get_condition put_condition
put-get now c [] = (stamped now c, rw (eq_refl c.type) refl, stamped-Says now c)
put-get now c (old ∷ rest) = elim (Bool-cases (is_type c.type old)) [
  | inl t ↦ elim (Bool-cases (agrees old c)) [
    | inl a ↦ (old, rw (t, a, t) refl, agrees-Says c old t a)
    | inr a ↦ (stamped now c, rw (t, a, eq_refl c.type) refl, stamped-Says now c)
  ]
  | inr t ↦ let (d, e, says) = put-get now c rest in (d, rw (t, t) e, says)
]

put-other :
    (now : ℕ) (t : String) (c : MilvusCondition) (cs : List MilvusCondition)
    → str_eq c.type t ≡ false
    → get_condition t (put_condition now c cs) ≡ get_condition t cs
unfolding get_condition put_condition
put-other now t c [] h = ground arith
put-other now t c (old ∷ rest) h =
    ground
      (arith, put-other now t c rest h, eq_iff c.type t, eq_iff old.type t, eq_iff old.type c.type)

filter-get :
    (t : String) (cs : List MilvusCondition)
    → str_eq "" t ≡ false
    → get_condition t (filter (λ x. not (is_type "" x)) cs) ≡ get_condition t cs
unfolding get_condition
filter-get t [] h = refl
filter-get t (c ∷ cs) h =
    ground (arith, filter-get t cs h, eq_iff c.type t, eq_iff c.type "", eq_iff "" t)

put-twice :
    (now later : ℕ) (c : MilvusCondition) (cs : List MilvusCondition)
    → put_condition later c (put_condition now c cs) ≡ put_condition now c cs
unfolding put_condition
put-twice now later c [] = rw (eq_refl c.type, agrees-stamped now c) refl
put-twice now later c (old ∷ rest) = elim (Bool-cases (is_type c.type old)) [
  | inl t ↦ elim (Bool-cases (agrees old c)) [
    | inl a ↦ rw (t, a, t, a) refl
    | inr a ↦ rw (t, a, eq_refl c.type, agrees-stamped now c) refl
  ]
  | inr t ↦ rw (t, t, put-twice now later c rest) refl
]

module _ (c : MilvusCondition) (typed : is_type "" c ≡ false) where
  unnamed-other : (old : MilvusCondition) → is_type "" old ≡ true → is_type c.type old ≡ false
  unnamed-other old h =
      ground (arith, typed, eq_iff c.type "", eq_iff old.type "", eq_iff old.type c.type)

  named-same : (old : MilvusCondition) → is_type c.type old ≡ true → is_type "" old ≡ false
  named-same old h =
      ground (arith, typed, eq_iff c.type "", eq_iff old.type "", eq_iff old.type c.type)

  filter-put :
      (now : ℕ) (cs : List MilvusCondition)
      → filter (λ x. not (is_type "" x)) (put_condition now c cs)
        ≡ put_condition now c (filter (λ x. not (is_type "" x)) cs)
  unfolding put_condition
  filter-put now [] = rw typed refl
  filter-put now (old ∷ rest) = elim (Bool-cases (is_type c.type old)) [
    | inl t ↦ elim (Bool-cases (agrees old c)) [
      | inl a ↦ rw (t, a, named-same old t, t, a) refl
      | inr a ↦ rw (t, a, named-same old t, typed, t, a) refl
    ]
    | inr t ↦ elim (Bool-cases (is_type "" old)) [
      | inl e ↦ rw (t, e, filter-put now rest) refl
      | inr e ↦ rw (t, e, filter-put now rest, t) refl
    ]
  ]

filter-twice :
    (cs : List MilvusCondition)
    → filter (λ x. not (is_type "" x)) (filter (λ x. not (is_type "" x)) cs)
      ≡ filter (λ x. not (is_type "" x)) cs
filter-twice [] = refl
filter-twice (c ∷ cs) = elim (Bool-cases (is_type "" c)) [
  | inl e ↦ rw e (filter-twice cs)
  | inr e ↦ rw (e, e, filter-twice cs) refl
]

-- Updating a condition of a type that is not empty sets that condition and no other: its type then
-- reads as its status, reason and message, and every other type that is not empty reads as before.
pub update_condition-get :
    (now : ℕ) (c : MilvusCondition) (cs : List MilvusCondition)
    → is_type "" c ≡ false
    → ((d : MilvusCondition) × (get_condition c.type (update_condition now c cs) ≡ some d)
        × Says c d)
      × ((t : String)
          → str_eq c.type t ≡ false
          → str_eq "" t ≡ false
          → get_condition t (update_condition now c cs) ≡ get_condition t cs)
unfolding update_condition
update_condition-get now c cs typed =
    let valid = filter (λ x. not (is_type "" x)) cs in
    (
      rw typed (put-get now c valid),
      λ t other named. rw typed (put-other now t c valid other ∙ filter-get t cs named),
    )

-- An update that says nothing new changes nothing: repeating an update of a typed condition at a
-- later time gives the same conditions, with the times that they had.
pub update_condition-update_condition :
    (now later : ℕ) (c : MilvusCondition) (cs : List MilvusCondition)
    → is_type "" c ≡ false
    → update_condition later c (update_condition now c cs) ≡ update_condition now c cs
unfolding update_condition
update_condition-update_condition now later c cs typed =
    let valid = filter (λ x. not (is_type "" x)) cs in
    rw typed (
      ap (put_condition later c)
        (filter-put c typed now valid ∙ ap (put_condition now c) (filter-twice cs))
      ∙ put-twice now later c valid)

same_any :
    (types : List String) (t : String) (c : MilvusCondition)
    → is_type t c ≡ true
    → any (λ u. is_type u c) types ≡ any (λ u. str_eq t u) types
same_any types t c e = ap (λ x. any (λ u. str_eq x u) types) (text-same c.type t e)

-- Removing conditions removes those of the given types, and every other type reads as before.
remove_conditions-get :
    (types : List String) (t : String) (cs : List MilvusCondition)
    → get_condition t (remove_conditions types cs)
      ≡ (if any (λ u. str_eq t u) types then none else get_condition t cs)
unfolding remove_conditions get_condition
remove_conditions-get types t [] = ground arith
remove_conditions-get types t (c ∷ cs) = elim (Bool-cases (any (λ u. is_type u c) types)) [
  | inl a ↦ elim (Bool-cases (is_type t c)) [
    | inl e ↦
        let h = sym (same_any types t c e) ∙ a in
        rw (a, h) (remove_conditions-get types t cs ∙ rw h refl)
    | inr e ↦ rw (a, e) (remove_conditions-get types t cs)
  ]
  | inr a ↦ elim (Bool-cases (is_type t c)) [
    | inl e ↦ rw (a, e, sym (same_any types t c e) ∙ a) refl
    | inr e ↦ rw (a, e) (remove_conditions-get types t cs)
  ]
]
