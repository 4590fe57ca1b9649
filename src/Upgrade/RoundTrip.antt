-- ===== src/Upgrade/RoundTrip.antt =====
-- recordOldInfo, stopMilvus and startMilvus of pkg/controllers/milvusupgrade_fsm.go one after another.
use milvus_operator.Base.{
  ℕ, ◌<◌, ◌^◌, Bool, true, false, ◌&&◌, ◌||◌, Option, none, some, List, [], ◌∷◌, map, ◌≡◌, refl,
  sym, ap, ◌∙◌, ◌⊎◌, inl, inr, if◌then◌else◌, Option-cases,
}
use milvus_operator.Base.Int.{ℤ, pos}
use milvus_operator.Api.Spec.{ComponentKind, Component, MilvusSpec, is_set}
use milvus_operator.Component.{
  plain, kind_eq, get_replicas, set_replicas, set_field, replicas_value,
}
use milvus_operator.Component.Replicas.{
  configured, kind_eq_sound, unconfigured, is_configured, get-set,
}
use milvus_operator.Deployment.{to_int32}
use milvus_operator.Scale.Rounds.{to_int32_pos}
use milvus_operator.Upgrade.{MilvusReplicas}
use milvus_operator.Upgrade.Replicas.{
  GroupReplicas, no_replicas, replicas_or_none, set_status_replicas, record_component,
  record_components, set_or_keep, stop_components, recorded_replicas, restore_components,
}

abbrev pub member : ComponentKind → List ComponentKind → Bool
member j [] = false
member j (k ∷ ks) = kind_eq k j || member j ks

set_or_keep-cases :
    (k : ComponentKind) (r : ℤ) (spec : MilvusSpec)
    → ((spec.components.field k ≡ none) × (set_or_keep (plain k) r spec ≡ spec))
      ⊎ ((f : Component) × (spec.components.field k ≡ some f)
          × (set_or_keep (plain k) r spec ≡ set_field k (record f { replicas = some r }) spec))
unfolding set_replicas
set_or_keep-cases k r spec = elim (Option-cases (spec.components.field k)) [
  | inl h ↦ inl (h, rw (set_or_keep, h) refl)
  | inr (f, h) ↦ inr (f, h, rw (set_or_keep, h) refl)
]

set_or_keep-get :
    (k j : ComponentKind) (r : ℤ) (spec : MilvusSpec)
    → get_replicas (plain j) (set_or_keep (plain k) r spec)
      ≡ (if kind_eq k j && configured spec j then some r else get_replicas (plain j) spec)
set_or_keep-get k j r spec = elim (set_or_keep-cases k r spec) [
  | inl (h, q) ↦ ap (get_replicas (plain j)) q ∙ rw (unconfigured k j spec h) refl
  | inr (f, h, q) ↦
      ap (get_replicas (plain j)) q
      ∙ rw (is_configured k j f spec h) (get-set k j f (some r) spec h).1
]

set-field :
    (f : Component) (b : Bool) (o : Option Component)
    → (b && is_set o) ≡ b
    → is_set (if b then some f else o) ≡ is_set o
set-field f true o h = sym h
set-field f false o h = refl

set_or_keep-configured :
    (k j : ComponentKind) (r : ℤ) (spec : MilvusSpec)
    → configured (set_or_keep (plain k) r spec) j ≡ configured spec j
set_or_keep-configured k j r spec = elim (set_or_keep-cases k r spec) [
  | inl (h, q) ↦ ap (λ x. configured x j) q
  | inr (f, h, q) ↦
      ap (λ x. configured x j) q
      ∙ set-field (record f { replicas = some r }) (kind_eq k j) (spec.components.field j)
          (is_configured k j f spec h)
]

stop-configured :
    (ks : List ComponentKind) (j : ComponentKind) (spec : MilvusSpec)
    → configured (stop_components (map plain ks) spec) j ≡ configured spec j
unfolding stop_components
stop-configured [] j spec = refl
stop-configured (k ∷ ks) j spec =
    stop-configured ks j (set_or_keep (plain k) (pos 0) spec)
    ∙ set_or_keep-configured k j (pos 0) spec

restore-choice :
    (b in_rest c c' : Bool) (x y old new : Option ℤ)
    → (b ≡ true → x ≡ y)
    → c' ≡ c
    → new ≡ (if b && c then x else old)
    → (if in_rest && c' then y else new) ≡ (if (b || in_rest) && c then y else old)
restore-choice true true true c' x y old new s e n = rw e refl
restore-choice true true false c' x y old new s e n = rw (e, n) refl
restore-choice true false true c' x y old new s e n = rw (n, s refl) refl
restore-choice true false false c' x y old new s e n = rw n refl
restore-choice false true true c' x y old new s e n = rw e refl
restore-choice false true false c' x y old new s e n = rw (e, n) refl
restore-choice false false c c' x y old new s e n = rw n refl

restore-get :
    (m : MilvusReplicas) (g : Option GroupReplicas) (ks : List ComponentKind) (j : ComponentKind)
    (spec : MilvusSpec)
    → (restore_components m g (map plain ks) spec).0 ≡ none
      × (get_replicas (plain j) (restore_components m g (map plain ks) spec).1 ≡ (
          if member j ks && configured spec j
          then some (to_int32 (m j))
          else get_replicas (plain j) spec))
unfolding restore_components recorded_replicas
restore-get m g [] j spec = (refl, refl)
restore-get m g (k ∷ ks) j spec =
    let next = set_or_keep (plain k) (to_int32 (m k)) spec in
    let (e, h) = restore-get m g ks j next in
    (
      e,
      h
          ∙ restore-choice (kind_eq k j) (member j ks) (configured spec j) (configured next j)
              (some (to_int32 (m k))) (some (to_int32 (m j))) (get_replicas (plain j) spec)
              (get_replicas (plain j) next)
              (λ q. ap (λ i. some (to_int32 (m i))) (kind_eq_sound k j q))
              (set_or_keep-configured k j (to_int32 (m k)) spec)
              (set_or_keep-get k j (to_int32 (m k)) spec),
    )

record-choice :
    (b in_rest : Bool) (x y z : ℤ)
    → (b ≡ true → x ≡ y)
    → (if in_rest then y else if b then x else z) ≡ (if b || in_rest then y else z)
record-choice true true x y z h = refl
record-choice true false x y z h = h refl
record-choice false in_rest x y z h = refl

record-get :
    (spec : MilvusSpec) (rg : Bool) (ks : List ComponentKind) (j : ComponentKind)
    (m : MilvusReplicas) (g : Option GroupReplicas)
    → replicas_or_none (record_components spec true rg (map plain ks) (some m) g).0 j
      ≡ (if member j ks then replicas_value (get_replicas (plain j) spec) else m j)
unfolding record_components record_component
record-get spec rg [] j m g = refl
record-get spec rg (k ∷ ks) j m g =
    record-get spec rg ks j (set_status_replicas k (replicas_value (get_replicas (plain k) spec)) m)
      g
    ∙ record-choice (kind_eq k j) (member j ks) (replicas_value (get_replicas (plain k) spec))
        (replicas_value (get_replicas (plain j) spec)) (m j)
        (λ q. ap (λ i. replicas_value (get_replicas (plain i) spec)) (kind_eq_sound k j q))

stop-get :
    (ks : List ComponentKind) (j : ComponentKind) (spec : MilvusSpec)
    → get_replicas (plain j) (stop_components (map plain ks) spec)
      ≡ (if member j ks && configured spec j then some (pos 0) else get_replicas (plain j) spec)
unfolding stop_components
stop-get [] j spec = refl
stop-get (k ∷ ks) j spec =
    let next = set_or_keep (plain k) (pos 0) spec in
    stop-get ks j next
    ∙ restore-choice (kind_eq k j) (member j ks) (configured spec j) (configured next j)
        (some (pos 0)) (some (pos 0)) (get_replicas (plain j) spec) (get_replicas (plain j) next)
        (λ q. refl) (set_or_keep-configured k j (pos 0) spec) (set_or_keep-get k j (pos 0) spec)

-- Recording the replicas of any components without deployment groups, stopping them and starting
-- them again stops each configured one of them, and gives it back the int32 replica count it had,
-- one for a component that had none.
pub restore-stop :
    (spec : MilvusSpec) (ks : List ComponentKind) (j : ComponentKind) (n : ℕ)
    → member j ks ≡ true
    → configured spec j ≡ true
    → replicas_value (get_replicas (plain j) spec) ≡ pos n
    → n < 2 ^ 31
    → let record_groups =
        record_components spec true true (map plain ks) (some no_replicas) (some []) in
      let stopped = stop_components (map plain ks) spec in
      let restored =
        restore_components
          (replicas_or_none record_groups.0)
          record_groups.1
          (map plain ks)
          stopped in
      (get_replicas (plain j) stopped ≡ some (pos 0))
      × (restored.0 ≡ none)
      × (get_replicas (plain j) restored.1 ≡ some (pos n))
restore-stop spec ks j n h c r b =
    let recorded = record_components spec true true (map plain ks) (some no_replicas) (some []) in
    let stopped = stop_components (map plain ks) spec in
    let (e, q) = restore-get (replicas_or_none recorded.0) recorded.1 ks j stopped in
    let value = record-get spec true ks j no_replicas (some []) in
    (
      stop-get ks j spec ∙ rw (h, c) refl,
      e,
      q ∙ rw (h, stop-configured ks j spec, c, value, h, r, to_int32_pos n b) refl,
    )
