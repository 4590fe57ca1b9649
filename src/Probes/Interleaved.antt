-- ===== src/Probes/Interleaved.antt =====
-- Callers of GetCondition that run at the same time, for the same endpoints: the loads, stores and
-- swaps of pkg/controllers/endpoint_check_cache.go are the steps, in any order.
use milvus_operator.Base.{
  ℕ, suc, Bool, true, false, true≢false, Option, none, some, ◌≡◌, refl, sym, subst, ◌∙◌, arith,
  ◌==◌, ==_iff, if◌then◌else◌, if-all,
}
use milvus_operator.Probes.{put_flag}

-- The lock of the endpoints in the cache, the integers by pointer, and an unused pointer.
pub record Shared : Type 0 where
  pub lock : Option ℕ
  pub flags : ℕ → Bool
  pub fresh : ℕ

-- Where a caller is: about to look the lock up, to set a new one, to look up what it has set, to
-- swap; in its probe; about to look the lock up again and to store 0 in it.
pub data Pc : Type 0 where
  idle starting missing made probing ending : Pc
  swapping releasing : ℕ → Pc

abbrev pub holds_lock : Pc → Bool
holds_lock probing = true
holds_lock ending = true
holds_lock (releasing p) = true
holds_lock _ = false

-- One access to what is shared.
pub data Move (s : Shared) : Pc → Shared → Pc → Type 0 where
  start : Move s idle s starting
  find : (p : ℕ) → s.lock ≡ some p → Move s starting s (swapping p)
  miss : s.lock ≡ none → Move s starting s missing
  make :
      Move s missing
        (record {
          lock = some s.fresh;
          flags = put_flag s.fresh false s.flags;
          fresh = suc s.fresh;
        })
        made
  load : (p : ℕ) → s.lock ≡ some p → Move s made s (swapping p)
  win :
      (p : ℕ)
      → s.flags p ≡ false
      → Move s (swapping p) (record s { flags = put_flag p true s.flags }) probing
  lose : (p : ℕ) → s.flags p ≡ true → Move s (swapping p) s idle
  retry : (p : ℕ) → s.flags p ≡ true → Move s (swapping p) s starting
  probed : Move s probing s ending
  reload : (p : ℕ) → s.lock ≡ some p → Move s ending s (releasing p)
  free : (p : ℕ) → Move s (releasing p) (record s { flags = put_flag p false s.flags }) idle

pub record Callers : Type 0 where
  pub shared : Shared
  pub pc : ℕ → Pc

abbrev pub put_pc : ℕ → Pc → (ℕ → Pc) → ℕ → Pc
put_pc i x pc j = if j == i then x else pc j

pub data Step (c : Callers) (d : Callers) : Type 0 where
  by : (i : ℕ) (x : Pc) → Move c.shared (c.pc i) d.shared x → d.pc ≡ put_pc i x c.pc → Step c d

pub data Reach (c : Callers) : Callers → Type 0 where
  here : Reach c c
  next : {d e : Callers} → Reach c d → Step d e → Reach c e

-- A caller's pointer is that of the lock, which exists.
AtLock : ℕ → Pc → Type 0
AtLock p missing = ⊥
AtLock p made = ⊥
AtLock p (swapping q) = q ≡ p
AtLock p (releasing q) = q ≡ p
AtLock p _ = Unit

record IsExclusive (p : ℕ) (c : Callers) : Type 0 where
  lock : c.shared.lock ≡ some p
  at : (i : ℕ) → AtLock p (c.pc i)
  on : (i : ℕ) → holds_lock (c.pc i) ≡ true → c.shared.flags p ≡ true
  one : (i j : ℕ) → holds_lock (c.pc i) ≡ true → holds_lock (c.pc j) ≡ true → i ≡ j

put-all :
    (P : Pc → Type 0) (i j : ℕ) (x : Pc) (pc : ℕ → Pc)
    → (j ≡ i → P x)
    → ((j == i) ≡ false → P (pc j))
    → P (put_pc i x pc j)
put-all P i j x pc f g = if-all P (j == i) x (pc j) (λ q. f ((==_iff j i).0 q)) g

same_pointer : (p : ℕ) → (p == p) ≡ true
same_pointer p = ground arith

-- A move that neither takes nor frees the lock.
quiet :
    (p i : ℕ) (x : Pc) (c d : Callers)
    → d.shared ≡ c.shared
    → d.pc ≡ put_pc i x c.pc
    → AtLock p x
    → holds_lock x ≡ holds_lock (c.pc i)
    → IsExclusive p c
    → IsExclusive p d
quiet p i x c d s q a h e = record {
  lock = rw s e.lock;
  at = λ j. rw q (put-all (AtLock p) i j x c.pc (λ _. a) (λ _. e.at j));
  on = λ j k. rw s (e.on j (sym (same j) ∙ k));
  one = λ j k u v. e.one j k (sym (same j) ∙ u) (sym (same k) ∙ v);
}
  where
    same : (j : ℕ) → holds_lock (d.pc j) ≡ holds_lock (c.pc j)
    same j =
        rw q
          (put-all (λ y. holds_lock y ≡ holds_lock (c.pc j)) i j x c.pc (λ r. rw r h) (λ _. refl))

-- The swap that succeeds: nobody held the lock.
won :
    (p i : ℕ) (c d : Callers)
    → c.shared.flags p ≡ false
    → d.shared ≡ record (c.shared) { flags = put_flag p true c.shared.flags }
    → d.pc ≡ put_pc i probing c.pc
    → IsExclusive p c
    → IsExclusive p d
unfolding AtLock
won p i c d f s q e = record {
  lock = rw s e.lock;
  at = λ j. rw q (put-all (AtLock p) i j probing c.pc (λ _. tt) (λ _. e.at j));
  on = λ j k. rw (s, same_pointer p) refl;
  one = λ j k u v. is_winner j u ∙ sym (is_winner k v);
}
  where
    is_winner : (j : ℕ) → holds_lock (d.pc j) ≡ true → j ≡ i
    is_winner j u =
        put-all (λ y. holds_lock y ≡ true → j ≡ i) i j probing c.pc (λ r _. r)
          (λ _ h. absurd (true≢false (sym (e.on j h) ∙ f))) (rw q at u)

-- The lock is freed by its only holder.
freed :
    (p i : ℕ) (c d : Callers)
    → c.pc i ≡ releasing p
    → d.shared ≡ record (c.shared) { flags = put_flag p false c.shared.flags }
    → d.pc ≡ put_pc i idle c.pc
    → IsExclusive p c
    → IsExclusive p d
unfolding AtLock
freed p i c d r s q e = record {
  lock = rw s e.lock;
  at = λ j. rw q (put-all (AtLock p) i j idle c.pc (λ _. tt) (λ _. e.at j));
  on = λ j k. absurd (nobody j k);
  one = λ j k u v. absurd (nobody j u);
}
  where
    nobody : (j : ℕ) → ¬ (holds_lock (d.pc j) ≡ true)
    nobody j u =
        put-all (λ y. ¬ (holds_lock y ≡ true)) i j idle c.pc (λ _ h. true≢false (sym h))
          (λ ne h. true≢false (sym ((==_iff j i).1 (e.one j i h (rw r refl))) ∙ ne)) (rw q at u)

the_lock : (p r : ℕ) (s : Shared) → s.lock ≡ some p → s.lock ≡ some r → r ≡ p
the_lock p r s h k = cc

no_lock : (p : ℕ) (s : Shared) → s.lock ≡ some p → s.lock ≡ none → ⊥
no_lock p s h k = cc

-- A caller that is at `a` makes one move.
move-IsExclusive :
    (p i : ℕ) {s u : Shared} {a x : Pc} (c d : Callers)
    → Move s a u x
    → c.shared ≡ s
    → c.pc i ≡ a
    → d.shared ≡ u
    → d.pc ≡ put_pc i x c.pc
    → IsExclusive p c
    → IsExclusive p d
unfolding AtLock
move-IsExclusive p i c d start s a u q e = quiet p i starting c d (u ∙ sym s) q tt (rw a refl) e
move-IsExclusive p i c d (find r h) s a u q e =
    quiet p i (swapping r) c d (u ∙ sym s) q (the_lock p r c.shared e.lock (rw s h)) (rw a refl) e
move-IsExclusive p i c d (miss h) s a u q e = absurd (no_lock p c.shared e.lock (rw s h))
move-IsExclusive p i c d make s a u q e = absurd (subst (AtLock p) a (e.at i))
move-IsExclusive p i c d (load r h) s a u q e = absurd (subst (AtLock p) a (e.at i))
move-IsExclusive p i c d (win r f) s a u q e =
    let same = subst (AtLock p) a (e.at i) in
    won p i c d (rw (s, sym same) f) (rw (s, sym same) u) q e
move-IsExclusive p i c d (lose r f) s a u q e = quiet p i idle c d (u ∙ sym s) q tt (rw a refl) e
move-IsExclusive p i c d (retry r f) s a u q e =
    quiet p i starting c d (u ∙ sym s) q tt (rw a refl) e
move-IsExclusive p i c d probed s a u q e = quiet p i ending c d (u ∙ sym s) q tt (rw a refl) e
move-IsExclusive p i c d (reload r h) s a u q e =
    quiet p i (releasing r) c d (u ∙ sym s) q (the_lock p r c.shared e.lock (rw s h)) (rw a refl) e
move-IsExclusive p i c d (free r) s a u q e =
    let same = subst (AtLock p) a (e.at i) in
    freed p i c d (rw (sym same) a) (rw (s, sym same) u) q e

Step-IsExclusive : (p : ℕ) (c d : Callers) → Step c d → IsExclusive p c → IsExclusive p d
Step-IsExclusive p c d (by i x mv q) e = move-IsExclusive p i c d mv refl refl refl q e

Reach-IsExclusive : (p : ℕ) (c d : Callers) → Reach c d → IsExclusive p c → IsExclusive p d
Reach-IsExclusive p c d here e = e
Reach-IsExclusive p c d (next {d = m} r st) e =
    Step-IsExclusive p m d st (Reach-IsExclusive p c m r e)

-- Once the lock of the endpoints is in the cache, two callers never probe them at the same time,
-- however their accesses interleave.
pub probes_exclude :
    (p : ℕ) (c d : Callers) (i j : ℕ)
    → c.shared.lock ≡ some p
    → ((k : ℕ) → c.pc k ≡ idle)
    → Reach c d
    → d.pc i ≡ probing
    → d.pc j ≡ probing
    → i ≡ j
unfolding AtLock
probes_exclude p c d i j lock quiet_start r pi pj =
    (Reach-IsExclusive p c d r first).one i j (rw pi refl) (rw pj refl)
  where
    first : IsExclusive p c
    first = record {
      lock = lock;
      at = λ k. rw (quiet_start k) tt;
      on = λ k h. absurd (true≢false (sym (rw (quiet_start k) at h)));
      one = λ k l h m. absurd (true≢false (sym (rw (quiet_start k) at h)));
    }
