-- ===== src/Probes.antt =====
-- The cache that coordinates the probes of etcd, storage and message queue endpoints:
-- pkg/controllers/endpoint_check_cache.go and GetCondition of conditions.go. The cache is go-cache,
-- with entries that do not expire; a lock is an `int32` behind a pointer, which is 1 while held.
pub mod Interleaved
pub mod Sequential
use Prim.Native.String.{◌++◌}
use Prim.Native.String
use Prim.Native.Nat.{Ordering}
use milvus_operator.Base.{
  ℕ, suc, ◌+◌, String, Bool, true, false, Option, none, some, List, [], ◌∷◌, ◌==◌, lookup, insert,
  if◌then◌else◌,
}
use milvus_operator.Conditions.{MilvusCondition}

-- `flags` are the integers, by pointer; `fresh` is a pointer that is not in use.
pub record Cache : Type 0 where
  pub conditions : List (String × MilvusCondition)
  pub locks : List (String × ℕ)
  pub flags : ℕ → Bool
  pub fresh : ℕ

-- `sort.Sort` of texts, as an insertion sort, and `strings.Join`.
unfoldable pub insert_text : String → List String → List String
insert_text s [] = s ∷ []
insert_text s (t ∷ ts) =
    let rest = insert_text s ts in
    elim (String.compare t s) [ Ordering.lt ↦ t ∷ rest | _ ↦ s ∷ t ∷ ts ]

unfoldable pub sort_texts : List String → List String
unfolding insert_text
sort_texts [] = []
sort_texts (s ∷ ss) = insert_text s (sort_texts ss)

unfoldable pub join : String → List String → String
join separator [] = ""
join separator (s ∷ []) = s
join separator (s ∷ t ∷ rest) = s ++ (separator ++ join separator (t ∷ rest))

unfoldable pub str_slice_as_key : List String → String
unfolding sort_texts join
str_slice_as_key endpoints = join "," (sort_texts endpoints)

abbrev pub probe_lock_key : List String → String
probe_lock_key endpoints = str_slice_as_key endpoints ++ "_probe_lock"

abbrev pub put_flag : ℕ → Bool → (ℕ → Bool) → ℕ → Bool
put_flag p b flags q = if q == p then b else flags q

-- `e.cache.Set(probeLockKey, new(int32), -1)`.
unfoldable pub set_new_lock : String → Cache → Cache
set_new_lock key c = record c {
  locks = insert key c.fresh c.locks;
  flags = put_flag c.fresh false c.flags;
  fresh = suc c.fresh;
}

-- `atomic.CompareAndSwapInt32(lockPtr, 0, 1)`.
unfoldable pub compare_and_swap : ℕ → Cache → Bool × Cache
compare_and_swap p c =
    if c.flags p then (false, c) else (true, record c { flags = put_flag p true c.flags })

abbrev pub swap_found : Option ℕ → Cache → Bool × Cache
swap_found none c = (false, c)
swap_found (some p) c = compare_and_swap p c

abbrev pub swap_or_make : String → Option ℕ → Cache → Bool × Cache
swap_or_make key (some p) c = compare_and_swap p c
swap_or_make key none c = let d = set_new_lock key c in swap_found (lookup key d.locks) d

unfoldable pub try_start_probe_for : List String → Cache → Bool × Cache
unfolding set_new_lock compare_and_swap str_slice_as_key
try_start_probe_for endpoints c =
    let key = probe_lock_key endpoints in swap_or_make key (lookup key c.locks) c

abbrev pub release : Option ℕ → Cache → Cache
release none c = c
release (some p) c = record c { flags = put_flag p false c.flags }

unfoldable pub end_probe_for : List String → Cache → Cache
unfolding str_slice_as_key
end_probe_for [] c = c
end_probe_for (e ∷ es) c = release (lookup (probe_lock_key (e ∷ es)) c.locks) c

unfoldable pub get : List String → Cache → Option MilvusCondition
unfolding str_slice_as_key
get [] c = none
get (e ∷ es) c = lookup (str_slice_as_key (e ∷ es)) c.conditions

unfoldable pub set : List String → MilvusCondition → Cache → Cache
unfolding str_slice_as_key
set [] cond c = c
set (e ∷ es) cond c = record c { conditions = insert (str_slice_as_key (e ∷ es)) cond c.conditions }

-- One round of GetCondition's loop: the probe if the lock is free, otherwise the cached condition,
-- or none, after which it sleeps and tries again.
abbrev pub probe_or_read :
    List String → MilvusCondition → Bool × Cache → Option MilvusCondition × Cache
probe_or_read endpoints probed (true, c) =
    (some probed, end_probe_for endpoints (set endpoints probed c))
probe_or_read endpoints probed (false, c) = (get endpoints c, c)

unfoldable pub get_condition_round :
    List String → MilvusCondition → Cache → Option MilvusCondition × Cache
unfolding try_start_probe_for end_probe_for get set
get_condition_round endpoints probed c =
    probe_or_read endpoints probed (try_start_probe_for endpoints c)
