-- ===== src/Component/Dependencies/Reverse.antt =====
-- The two maps of a dependency graph against each other: pkg/controllers/dependency_graph.go.
use milvus_operator.Base.{
  String, Bool, true, false, not, ◌&&◌, ◌||◌, List, [], ◌∷◌, ◌++◌, if◌then◌else◌, ◌≡◌, refl, sym,
  ap, ◌∙◌, inl, inr, arith, Bool-cases,
}
use milvus_operator.Api.Spec.{
  ComponentKind, rolling_downgrade, rolling_upgrade, MilvusSpec, is_cluster, use_streaming_node,
  use_mix_coord, is_version_greater_than_2_6,
}
use milvus_operator.Component.{MilvusComponent, kind_eq}
use milvus_operator.Component.Dependencies.{
  DependencyGraph, new_dependency_graph, has, add_reversed, add_dependency, add_dependencies,
  keys_fresh, graph_for, get_dependencies, with_mode,
}
use milvus_operator.Component.Replicas.{kind_eq_sound}

has_append :
    (k : ComponentKind) (xs ys : List ComponentKind) → has k (xs ++ ys) ≡ (has k xs || has k ys)
has_append k [] ys = refl
has_append k (x ∷ xs) ys = ground (arith, has_append k xs ys)

kind_eq_sym : (a b : ComponentKind) → kind_eq a b ≡ kind_eq b a
kind_eq_sym a b = ground arith

has-if :
    (c k : ComponentKind) (b : Bool) (ks : List ComponentKind)
    → has k (if b then ks ++ c ∷ [] else ks) ≡ (has k ks || (b && kind_eq c k))
has-if c k true ks = has_append k ks (c ∷ []) ∙ rw (kind_eq_sym k c) (ground arith)
has-if c k false ks = ground arith

regroup : (p b q r : Bool) → ((p && q) || (r || (b && p))) ≡ ((p && (b || q)) || r)
regroup p b q r = ground arith

-- Who is in a reversed list after the component's dependencies are added.
has-add_reversed :
    (c k d : ComponentKind) (ds : List ComponentKind)
    (reversed : ComponentKind → List ComponentKind)
    → has k (add_reversed c ds reversed d) ≡ ((kind_eq c k && has d ds) || has k (reversed d))
unfolding add_reversed
has-add_reversed c k d [] reversed = ground arith
has-add_reversed c k d (e ∷ ds) reversed =
    has-add_reversed c k d ds (λ j. if kind_eq e j then reversed j ++ c ∷ [] else reversed j)
    ∙ (ap (λ x. (kind_eq c k && has d ds) || x) (has-if c k (kind_eq e d) (reversed d))
        ∙ (regroup (kind_eq c k) (kind_eq e d) (has d ds) (has k (reversed d))
            ∙ ap (λ x. (kind_eq c k && (x || has d ds)) || has k (reversed d)) (kind_eq_sym e d)))

-- One map of the graph is the inverse of the other, and its keys are among those seen.
record IsInverse (g : DependencyGraph) (seen : List ComponentKind) : Type 0 where
  inverse : (c d : ComponentKind) → has c (g.reversed_dependencies d) ≡ has d (g.dependencies c)
  keys : (k d : ComponentKind) → has k seen ≡ false → has d (g.dependencies k) ≡ false

replace-has :
    (c k d : ComponentKind) (b : Bool) (ds old : List ComponentKind)
    → (b ≡ true → has d old ≡ false)
    → ((b && has d ds) || has d old) ≡ has d (if b then ds else old)
replace-has c k d true ds old h = rw (h refl) (ground arith)
replace-has c k d false ds old h = refl

not-true : (b : Bool) → not b ≡ true → b ≡ false
not-true b h = ground arith

or-false : (a b : Bool) → (a || b) ≡ false → (a ≡ false) × (b ≡ false)
or-false a b h = ground arith

and-true : (a b : Bool) → (a && b) ≡ true → (a ≡ true) × (b ≡ true)
and-true a b h = ground arith

add_dependency-IsInverse :
    (c : ComponentKind) (ds seen : List ComponentKind) (g : DependencyGraph)
    → has c seen ≡ false
    → IsInverse g seen
    → IsInverse (add_dependency c ds g) (c ∷ seen)
unfolding add_dependency
add_dependency-IsInverse c ds seen g fresh v = record {
  inverse = λ k d.
      has-add_reversed c k d ds g.reversed_dependencies
      ∙ (ap (λ x. (kind_eq c k && has d ds) || x) (v.inverse k d)
          ∙ replace-has c k d (kind_eq c k) ds (g.dependencies k) (λ e.
            ap (λ j. has d (g.dependencies j)) (sym (kind_eq_sound c k e)) ∙ v.keys c d fresh));
  keys = λ k d h.
      let (other, unseen) = or-false (kind_eq k c) (has k seen) h in
      rw (kind_eq_sym c k ∙ other) (v.keys k d unseen);
}

add_dependencies-IsInverse :
    (adds : List (ComponentKind × List ComponentKind)) (seen : List ComponentKind)
    (g : DependencyGraph)
    → keys_fresh adds seen ≡ true
    → IsInverse g seen
    → (c d : ComponentKind)
    → has c ((add_dependencies adds g).reversed_dependencies d)
      ≡ has d ((add_dependencies adds g).dependencies c)
unfolding add_dependencies
add_dependencies-IsInverse [] seen g h v = v.inverse
add_dependencies-IsInverse ((c, ds) ∷ rest) seen g h v =
    let (fresh, more) = and-true (not (has c seen)) (keys_fresh rest (c ∷ seen)) h in
    add_dependencies-IsInverse rest (c ∷ seen) (add_dependency c ds g) more
      (add_dependency-IsInverse c ds seen g (not-true (has c seen) fresh) v)

empty-IsInverse : IsInverse new_dependency_graph []
empty-IsInverse = record { inverse = λ c d. refl; keys = λ k d h. refl }

empty-or :
    (c d : ComponentKind) (b : Bool) (xs ys : List ComponentKind)
    → has c xs ≡ has d ys
    → has c (if b then [] else xs) ≡ has d (if b then [] else ys)
empty-or c d true xs ys h = refl
empty-or c d false xs ys h = h

module _ (newer : String → Bool) where
  graph_for-keys_fresh : (spec : MilvusSpec) → keys_fresh (graph_for newer spec) [] ≡ true
  unfolding graph_for
  graph_for-keys_fresh spec = elim (Bool-cases (use_streaming_node newer spec)) [
    | inl h ↦ rw h refl
    | inr h ↦ elim (Bool-cases (use_mix_coord spec)) [
      | inl m ↦ rw (h, m) refl
      | inr m ↦ rw (h, m) refl
    ]
  ]

  -- A downgrade rolls the components of a cluster in the reverse order of an upgrade: one kind is
  -- among the dependencies of another in a rolling downgrade exactly if the other is among its
  -- dependencies in a rolling upgrade of the same spec.
  pub get_dependencies-reverse :
      (spec : MilvusSpec) (c d : MilvusComponent)
      → has c.kind (get_dependencies newer (with_mode rolling_downgrade spec) d)
        ≡ has d.kind (get_dependencies newer (with_mode rolling_upgrade spec) c)
  unfolding get_dependencies graph_for use_streaming_node is_version_greater_than_2_6 use_mix_coord
  get_dependencies-reverse spec c d = empty-or c.kind d.kind (not (is_cluster spec.mode)) _ _ (
      add_dependencies-IsInverse (graph_for newer spec) [] new_dependency_graph
        (graph_for-keys_fresh spec) empty-IsInverse c.kind d.kind)
