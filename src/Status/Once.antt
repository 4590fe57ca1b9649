-- ===== src/Status/Once.antt =====
-- The loops of the status syncer visit each instance that they choose.
use milvus_operator.Base.{
  ℕ, Bool, false, Option, none, List, [], ◌∷◌, ◌++◌, length, filter, append_assoc, All, Error, ◌≡◌,
  ◌≤◌, ◌<◌, refl, ◌∙◌, ap, arith, inl, inr, Bool-cases, length-append,
}
use milvus_operator.Status.Batches.{is_full, sync_batches}
use milvus_operator.Status.Pods.{latest}
use milvus_operator.Status.Syncer.{Instance}

-- A world that keeps the groups in the order in which they ran.
abbrev pub recorded :
    (List Instance → Option Error)
    → List Instance
    → List (List Instance)
    → Option Error × List (List Instance)
recorded answer args w = (answer args, w ++ (args ∷ []))

abbrev pub joined_groups : List (List Instance) → List Instance
joined_groups [] = []
joined_groups (g ∷ gs) = g ++ joined_groups gs

abbrev pub Fits : ℕ → List Instance → Type 0
Fits bound g = length g ≤ bound

is_full-room : (bound : ℕ) (args : List Instance) → is_full bound args ≡ false → length args < bound
unfolding is_full
is_full-room bound args h = ground arith

module _ (answer : List Instance → Option Error) (bound : ℕ) (chosen : Instance → Bool) where
  -- What the loop adds to the groups that ran before it.
  abbrev Covers :
      List Instance → List Instance → List (List Instance) → List (List Instance) → Type 0
  Covers is args w v =
      (gs : List (List Instance)) × (v ≡ w ++ gs)
      × (joined_groups gs ≡ args ++ filter chosen is)
      × All (Fits bound) gs

  le_of_lt : (n : ℕ) → n < bound → n ≤ bound
  le_of_lt n h = omega arith

  positive : (n : ℕ) → n < bound → 0 < bound
  positive n h = omega arith

  batch-Fits :
      (i : Instance) (args : List Instance) → length args < bound → Fits bound (args ++ (i ∷ []))
  batch-Fits i args h = grind (arith, length-append)

  sync_batches-Covers :
      (is args : List Instance) (ret : Option Error) (w : List (List Instance))
      → length args < bound
      → Covers is args w (sync_batches (recorded answer) bound chosen is args ret w).1
  unfolding sync_batches
  sync_batches-Covers [] args ret w h = (args ∷ [], refl, refl, (le_of_lt (length args) h, tt))
  sync_batches-Covers (i ∷ is) args ret w h =
      let batch = args ++ (i ∷ []) in
      elim (Bool-cases (chosen i)) [
        | inr c ↦ rw (c, sync_batches) (sync_batches-Covers is args ret w h)
        | inl c ↦ elim (Bool-cases (is_full bound batch)) [
          | inl full ↦
              let more = latest ret (answer batch) in
              let (gs, ran, together, fit) =
                sync_batches-Covers is [] more (w ++ (batch ∷ [])) (positive (length args) h) in
              rw (c, full, sync_batches)
                (
                  batch ∷ gs,
                  ran ∙ append_assoc w (batch ∷ []) gs,
                  ap (λ l. batch ++ l) together ∙ append_assoc args (i ∷ []) (filter chosen is),
                  (batch-Fits i args h, fit),
                )
          | inr room ↦
              let (gs, ran, together, fit) =
                sync_batches-Covers is batch ret w (is_full-room bound batch room) in
              rw (c, room, sync_batches)
                (gs, ran, together ∙ append_assoc args (i ∷ []) (filter chosen is), fit)
        ]
      ]

-- Whatever the groups end with, the loop runs exactly the instances that it chooses, in their order
-- and each as often as it is listed, in groups of at most `bound` instances, where `bound` is not 0.
pub sync_batches-filter :
    (answer : List Instance → Option Error) (bound : ℕ) (chosen : Instance → Bool)
    (is : List Instance)
    → 0 < bound
    → let groups = (sync_batches (recorded answer) bound chosen is [] none []).1 in
      (joined_groups groups ≡ filter chosen is) × All (Fits bound) groups
sync_batches-filter answer bound chosen is h =
    let (gs, ran, together, fit) = sync_batches-Covers answer bound chosen is [] none [] h in
    rw ran (together, fit)
