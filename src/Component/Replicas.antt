-- ===== src/Component/Replicas.antt =====
-- SetReplicas against GetReplicas, for a component without deployment groups.
use milvus_operator.Base.{
  ℕ, Bool, true, false, ◌&&◌, Option, none, some, ok, ◌≡◌, refl, sym, ap, subst, ◌∙◌, ◌==◌, arith,
  if◌then◌else◌,
}
use milvus_operator.Base.Int.{ℤ}
use milvus_operator.Api.Spec.{
  ComponentKind, mix_coord, root_coord, data_coord, query_coord, index_coord, data_node, query_node,
  index_node, streaming_node, proxy, standalone, cdc, Component, MilvusSpec, is_set,
}
use milvus_operator.Component.{
  plain, kind_index, kind_eq, get_replicas, set_field, set_replicas, component_replicas,
}

kind_of : ℕ → ComponentKind
kind_of n =
    if n == 0
    then mix_coord
    else if n == 1
    then root_coord
    else if n == 2
    then data_coord
    else if n == 3
    then query_coord
    else if n == 4
    then index_coord
    else if n == 5
    then data_node
    else if n == 6
    then query_node
    else if n == 7
    then index_node
    else if n == 8
    then streaming_node
    else if n == 9
    then proxy
    else if n == 10
    then standalone
    else cdc

kind_of-index : (k : ComponentKind) → kind_of (kind_index k) ≡ k
unfolding kind_of
kind_of-index mix_coord = refl
kind_of-index root_coord = refl
kind_of-index data_coord = refl
kind_of-index query_coord = refl
kind_of-index index_coord = refl
kind_of-index data_node = refl
kind_of-index query_node = refl
kind_of-index index_node = refl
kind_of-index streaming_node = refl
kind_of-index proxy = refl
kind_of-index standalone = refl
kind_of-index cdc = refl

same_number : (m n : ℕ) → (m == n) ≡ true → m ≡ n
same_number m n h = ground arith

-- Kinds that compare equal are equal.
pub kind_eq_sound : (k j : ComponentKind) → kind_eq k j ≡ true → k ≡ j
kind_eq_sound k j h =
    sym (kind_of-index k)
    ∙ (ap kind_of (same_number (kind_index k) (kind_index j) h) ∙ kind_of-index j)

abbrev pub configured : MilvusSpec → ComponentKind → Bool
configured spec j = is_set (spec.components.field j)

unset : (a b : Bool) → (a ≡ true → b ≡ false) → (a && b) ≡ false
unset true b h = h refl
unset false b h = refl

set : (a b : Bool) → (a ≡ true → b ≡ true) → (a && b) ≡ a
set true b h = h refl
set false b h = refl

pub unconfigured :
    (k j : ComponentKind) (spec : MilvusSpec)
    → spec.components.field k ≡ none
    → (kind_eq k j && configured spec j) ≡ false
unconfigured k j spec h =
    unset (kind_eq k j) (configured spec j)
      (λ e. subst (λ i. configured spec i ≡ false) (kind_eq_sound k j e) (ap is_set h))

pub is_configured :
    (k j : ComponentKind) (f : Component) (spec : MilvusSpec)
    → spec.components.field k ≡ some f
    → (kind_eq k j && configured spec j) ≡ kind_eq k j
is_configured k j f spec h =
    set (kind_eq k j) (configured spec j)
      (λ e. subst (λ i. configured spec i ≡ true) (kind_eq_sound k j e) (ap is_set h))

field-set :
    (k j : ComponentKind) (f : Component) (r : Option ℤ) (b : Bool) (o : Option Component)
    → component_replicas (if b then some (record f { replicas = r }) else o)
      ≡ (if b then r else component_replicas o)
field-set k j f r true o = refl
field-set k j f r false o = refl

-- Setting the replicas of a component that the spec has succeeds: its replicas are then what was
-- set, and those of every other component are as they were.
pub get-set :
    (k j : ComponentKind) (f : Component) (r : Option ℤ) (spec : MilvusSpec)
    → spec.components.field k ≡ some f
    → (set_replicas (plain k) spec r ≡ ok (set_field k (record f { replicas = r }) spec))
      × (get_replicas (plain j) (set_field k (record f { replicas = r }) spec)
          ≡ (if kind_eq k j then r else get_replicas (plain j) spec))
unfolding get_replicas set_replicas
get-set k j f r spec h =
    (rw (set_replicas, h) refl, field-set k j f r (kind_eq k j) (spec.components.field j))
