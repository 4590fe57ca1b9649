-- ===== src/Probes/Sequential.antt =====
-- One caller of GetCondition after another.
use milvus_operator.Base.{
  ℕ, String, true, false, Option, none, some, List, [], ◌∷◌, ◌≡◌, ◌⊎◌, inl, inr, refl, ap, ◌∙◌,
  arith, lookup, lookup-insert, eq_iff, ◌==◌,
}
use milvus_operator.Conditions.{MilvusCondition}
use milvus_operator.Probes.{
  Cache, str_slice_as_key, probe_lock_key, try_start_probe_for, end_probe_for, get, set,
  get_condition_round, compare_and_swap, set_new_lock, put_flag, swap_or_make, release,
  probe_or_read,
}

same_number : (p : ℕ) → (p == p) ≡ true
same_number p = ground arith

release-conditions : (o : Option ℕ) (c : Cache) → (release o c).conditions ≡ c.conditions
release-conditions none c = refl
release-conditions (some p) c = refl

module _ (key : String) where
  -- The lock is free, or has not been made yet.
  abbrev pub Free : Cache → Type 0
  Free c =
      (lookup key c.locks ≡ none)
      ⊎ ((p : ℕ) × ((lookup key c.locks ≡ some p) × (c.flags p ≡ false)))

  abbrev pub Held : Cache → Type 0
  Held c = (p : ℕ) × ((lookup key c.locks ≡ some p) × (c.flags p ≡ true))

  swap_free :
      (p : ℕ) (c : Cache)
      → lookup key c.locks ≡ some p
      → c.flags p ≡ false
      → (d : Cache) × ((compare_and_swap p c ≡ (true, d))
          × (Held d × (d.conditions ≡ c.conditions)))
  unfolding compare_and_swap
  swap_free p c q f = (
    record c { flags = put_flag p true c.flags },
    (rw f refl, ((p, (q, rw (same_number p) refl)), refl)),
  )

  make_free :
      (c : Cache)
      → (d : Cache) × ((swap_or_make key none c ≡ (true, d))
          × (Held d × (d.conditions ≡ c.conditions)))
  unfolding set_new_lock
  make_free c =
      let d = set_new_lock key c in
      let found = lookup-insert key key c.fresh c.locks ∙ rw ((eq_iff key key).1 refl) refl in
      let (e, (q, rest)) = swap_free c.fresh d found (rw (same_number c.fresh) refl) in
      (e, (rw found q, rest))

  start-Free :
      (c : Cache)
      → Free c
      → (d : Cache) × ((swap_or_make key (lookup key c.locks) c ≡ (true, d))
          × (Held d × (d.conditions ≡ c.conditions)))
  start-Free c (inl q) = let (d, (r, rest)) = make_free c in (d, (rw q r, rest))
  start-Free c (inr (p, (q, f))) = let (d, (r, rest)) = swap_free p c q f in (d, (rw q r, rest))

  start-Held : (c : Cache) → Held c → swap_or_make key (lookup key c.locks) c ≡ (false, c)
  unfolding compare_and_swap
  start-Held c (p, (q, f)) = rw (q, f) refl

  release-Free : (c : Cache) → Held c → Free (release (lookup key c.locks) c)
  release-Free c (p, (q, f)) = rw q (inr (p, (q, rw (same_number p) refl)))

-- A probe of endpoints whose lock is free answers what it has found, keeps it for those who read
-- the cache, and leaves the lock free.
pub get_condition_round-Free :
    (e : String) (es : List String) (probed : MilvusCondition) (c : Cache)
    → Free (probe_lock_key (e ∷ es)) c
    → (d : Cache) × ((get_condition_round (e ∷ es) probed c ≡ (some probed, d))
        × ((get (e ∷ es) d ≡ some probed) × Free (probe_lock_key (e ∷ es)) d))
unfolding get_condition_round try_start_probe_for end_probe_for get set
get_condition_round-Free e es probed c free =
    let key = str_slice_as_key (e ∷ es) in
    let lock = probe_lock_key (e ∷ es) in
    let (d, (r, (held, same))) = start-Free lock c free in
    let kept = set (e ∷ es) probed d in
    (
      release (lookup lock kept.locks) kept,
      (
        ap (probe_or_read (e ∷ es) probed) r,
        (
          ap (lookup key) (release-conditions (lookup lock kept.locks) kept)
              ∙ lookup-insert key key probed d.conditions
              ∙ rw ((eq_iff key key).1 refl) refl,
          release-Free lock kept held,
        ),
      ),
    )

-- While a probe holds the lock, others read the cache and change nothing.
pub get_condition_round-Held :
    (endpoints : List String) (probed : MilvusCondition) (c : Cache)
    → Held (probe_lock_key endpoints) c
    → get_condition_round endpoints probed c ≡ (get endpoints c, c)
unfolding get_condition_round try_start_probe_for
get_condition_round-Held endpoints probed c held = rw (start-Held _ c held) refl

-- The first GetCondition for no endpoints at all answers and never frees their lock: the next ones
-- get no answer, however often they try.
pub get_condition_round-empty :
    (probed again : MilvusCondition) (c : Cache)
    → Free (probe_lock_key []) c
    → (d : Cache) × ((get_condition_round [] probed c ≡ (some probed, d))
        × (get_condition_round [] again d ≡ (none, d)))
unfolding get_condition_round try_start_probe_for end_probe_for get set
get_condition_round-empty probed again c free =
    let (d, (r, (held, same))) = start-Free (probe_lock_key []) c free in
    (d, (ap (probe_or_read [] probed) r, get_condition_round-Held [] again d held))
