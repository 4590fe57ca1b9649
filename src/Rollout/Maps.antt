-- ===== src/Rollout/Maps.antt =====
-- The metadata that the operator writes, as finite maps: MergeLabels of pkg/controllers/utils.go
-- and preserveExistingMetadataPrefixes and desiredDeploymentLabels of deployment_updater.go.
use text.Mathlib.Text.{starts_with}
use text.Mathlib.TextBridge.{IsPrefix}
use text.Mathlib.TextEquality.{starts_with_iff}
use milvus_operator.Base.{
  String, Bool, true, false, ◌||◌, ◌⊎◌, Option, none, some, List, [], ◌∷◌, ◌≡◌, inl, inr, refl,
  subst, sym, ap, ◌∙◌, lookup, insert, lookup-insert, All, str_eq, eq_iff, if◌then◌else◌, is_some,
  if-all, unequal_sym, Bool-cases, Option-cases,
}
use milvus_operator.Api.Labels.{StringMap, component_group_id_label}
use milvus_operator.Component.{MilvusComponent, kind_name}
use milvus_operator.Api.Spec.{DeploymentGroup}
use milvus_operator.Rollout.Metadata.{
  put_all, merge_onto, merge_labels, is_preserved, keep_entry, keep_prefixed,
  preserve_existing_metadata_prefixes, get_selector_labels, group_labels, desired_deployment_labels,
  new_component_app_labels, deployment_group_label,
}

-- The keys of a Go map are distinct.
unfoldable pub IsMap : StringMap → Type 0
IsMap [] = Unit
IsMap ((key, value) ∷ rest) = (lookup key rest ≡ none) × IsMap rest

-- The entry of the second, if there is one.
abbrev pub override : Option String → Option String → Option String
override old none = old
override old (some v) = some v

override-none : (o : Option String) → override none o ≡ o
override-none none = refl
override-none (some v) = refl

insert-IsMap : (key v : String) (m : StringMap) → IsMap m → IsMap (insert key v m)
unfolding insert lookup IsMap
insert-IsMap key v [] h = (refl, tt)
insert-IsMap key v ((name, value) ∷ rest) h = elim (Bool-cases (str_eq name key)) [
  | inl p ↦ rw p (subst (λ k. lookup k rest ≡ none) ((eq_iff name key).0 p) h.0, h.1)
  | inr p ↦
      rw p (
        lookup-insert key name v rest ∙ rw (unequal_sym name key p) h.0,
        insert-IsMap key v rest h.1,
      )
]

put_all-IsMap : (m into : StringMap) → IsMap into → IsMap (put_all m into)
unfolding put_all
put_all-IsMap [] into h = h
put_all-IsMap ((key, v) ∷ rest) into h =
    put_all-IsMap rest (insert key v into) (insert-IsMap key v into h)

merge_onto-IsMap :
    (ms : List StringMap) (into : StringMap) → IsMap into → IsMap (merge_onto ms into)
unfolding merge_onto
merge_onto-IsMap [] into h = h
merge_onto-IsMap (m ∷ ms) into h = merge_onto-IsMap ms (put_all m into) (put_all-IsMap m into h)

put_all-lookup :
    (m into : StringMap) (key : String)
    → IsMap m
    → lookup key (put_all m into) ≡ override (lookup key into) (lookup key m)
unfolding put_all IsMap lookup
put_all-lookup [] into key h = refl
put_all-lookup ((name, value) ∷ rest) into key h =
    put_all-lookup rest (insert name value into) key h.1 ∙ elim (Bool-cases (str_eq name key)) [
      | inr p ↦ rw (lookup-insert name key value into, p) refl
      | inl p ↦
          let gone : lookup key rest ≡ none =
            subst (λ k. lookup k rest ≡ none) ((eq_iff name key).0 p) h.0 in
          rw (lookup-insert name key value into, p, gone) refl
    ]

-- What a key reads as after the maps have been merged from left to right.
unfoldable pub union : List StringMap → String → Option String → Option String
union [] key old = old
union (m ∷ ms) key old = union ms key (override old (lookup key m))

merge_onto-lookup :
    (ms : List StringMap) (into : StringMap) (key : String)
    → All IsMap ms
    → lookup key (merge_onto ms into) ≡ union ms key (lookup key into)
unfolding merge_onto union
merge_onto-lookup [] into key h = refl
merge_onto-lookup (m ∷ ms) into key h =
    merge_onto-lookup ms (put_all m into) key h.1
    ∙ ap (union ms key) (put_all-lookup m into key h.0)

-- MergeLabels is the union of its maps, in which a later map's entry replaces an earlier's.
pub merge_labels-union :
    (ms : List StringMap) (key : String)
    → All IsMap ms
    → lookup key (merge_labels ms) ≡ union ms key none
unfolding merge_labels lookup
merge_labels-union ms key h = merge_onto-lookup ms [] key h

-- The wanted entry, or an existing one whose prefix is preserved.
abbrev pub kept_or : Option String → Bool → Option String → Option String
kept_or (some v) preserved old = some v
kept_or none true old = old
kept_or none false old = none

keep_entry-other :
    (name value key : String) (result : StringMap)
    → str_eq name key ≡ false
    → lookup key (keep_entry name value result) ≡ lookup key result
unfolding keep_entry
keep_entry-other name value key result p =
    if-all (λ (m : StringMap). lookup key m ≡ lookup key result) (is_some (lookup name result))
      result _ (λ _. refl)
      (λ _.
        if-all (λ (m : StringMap). lookup key m ≡ lookup key result) (is_preserved name)
          (insert name value result) result (λ _. lookup-insert name key value result ∙ rw p refl)
          (λ _. refl))

put_or_keep :
    (value key : String) (result : StringMap) (o : Option String) (b : Bool)
    → lookup key result ≡ o
    → lookup key (if is_some o then result else if b then insert key value result else result)
      ≡ kept_or o b (some value)
put_or_keep value key result (some v) b h = h
put_or_keep value key result none true h =
    lookup-insert key key value result ∙ rw ((eq_iff key key).1 refl) refl
put_or_keep value key result none false h = h

keep_entry-same :
    (value key : String) (result : StringMap)
    → lookup key (keep_entry key value result)
      ≡ kept_or (lookup key result) (is_preserved key) (some value)
unfolding keep_entry
keep_entry-same value key result =
    put_or_keep value key result (lookup key result) (is_preserved key) refl

kept_or-twice :
    (o : Option String) (b : Bool) (v : String)
    → kept_or (kept_or o b (some v)) b none ≡ kept_or o b (some v)
kept_or-twice (some u) b v = refl
kept_or-twice none true v = refl
kept_or-twice none false v = refl

kept_or-nothing : (o : Option String) (b : Bool) → kept_or o b none ≡ o
kept_or-nothing (some v) b = refl
kept_or-nothing none true = refl
kept_or-nothing none false = refl

keep_prefixed-lookup :
    (existing result : StringMap) (key : String)
    → IsMap existing
    → lookup key (keep_prefixed existing result)
      ≡ kept_or (lookup key result) (is_preserved key) (lookup key existing)
unfolding keep_prefixed IsMap lookup
keep_prefixed-lookup [] result key h = sym (kept_or-nothing _ _)
keep_prefixed-lookup ((name, value) ∷ rest) result key h =
    keep_prefixed-lookup rest (keep_entry name value result) key h.1
    ∙ elim (Bool-cases (str_eq name key)) [
      | inr p ↦ rw (p, keep_entry-other name value key result p) refl
      | inl p ↦
          let same = (eq_iff name key).0 p in
          let gone = subst (λ k. lookup k rest ≡ none) same h.0 in
          let put =
            subst
              (λ k.
                lookup key (keep_entry k value result)
                ≡ kept_or (lookup key result) (is_preserved key) (some value))
              (sym same) (keep_entry-same value key result) in
          rw (p, put, gone) (kept_or-twice _ _ value)
    ]

preserve_existing_metadata_prefixes-kept_or :
    (desired existing : StringMap) (key : String)
    → IsMap desired
    → IsMap existing
    → lookup key (preserve_existing_metadata_prefixes desired existing)
      ≡ kept_or (lookup key desired) (is_preserved key) (lookup key existing)
unfolding preserve_existing_metadata_prefixes union
preserve_existing_metadata_prefixes-kept_or desired existing key d e =
    keep_prefixed-lookup existing (merge_labels (desired ∷ [])) key e
    ∙ rw (merge_labels-union (desired ∷ []) key (d, tt), override-none (lookup key desired)) refl

-- The prefixes of Kubernetes' tools, of the operator and of Kubernetes' deployments.
abbrev pub IsPreserved : String → Type 0
IsPreserved key =
    IsPrefix "kubectl.kubernetes.io/" key
    ⊎ (IsPrefix "milvus.io/" key ⊎ IsPrefix "deployment.kubernetes.io/" key)

abbrev SomeOfThree : Bool → Bool → Bool → Type 0
SomeOfThree a b c = (a ≡ true) ⊎ ((b ≡ true) ⊎ (c ≡ true))

three-or : (a b c : Bool) → SomeOfThree a b c → (a || (b || (c || false))) ≡ true
three-or a b c (inl p) = rw p refl
three-or true b c (inr (inl p)) = refl
three-or false b c (inr (inl p)) = rw p refl
three-or true b c (inr (inr p)) = refl
three-or false true c (inr (inr p)) = refl
three-or false false c (inr (inr p)) = rw p refl

or-three : (a b c : Bool) → (a || (b || (c || false))) ≡ true → SomeOfThree a b c
or-three true b c h = inl refl
or-three false true c h = inr (inl refl)
or-three false false true h = inr (inr refl)
or-three false false false h = absurd cc

is_preserved-yes : (key : String) → IsPreserved key → is_preserved key ≡ true
unfolding is_preserved
is_preserved-yes key (inl p) = three-or _ _ _ (inl ((starts_with_iff key _).1 p))
is_preserved-yes key (inr (inl p)) = three-or _ _ _ (inr (inl ((starts_with_iff key _).1 p)))
is_preserved-yes key (inr (inr p)) = three-or _ _ _ (inr (inr ((starts_with_iff key _).1 p)))

three_prefixes :
    (key : String)
    → SomeOfThree
        (starts_with key "kubectl.kubernetes.io/")
        (starts_with key "milvus.io/")
        (starts_with key "deployment.kubernetes.io/")
    → IsPreserved key
three_prefixes key (inl p) = inl ((starts_with_iff key "kubectl.kubernetes.io/").0 p)
three_prefixes key (inr (inl p)) = inr (inl ((starts_with_iff key "milvus.io/").0 p))
three_prefixes key (inr (inr p)) = inr (inr ((starts_with_iff key "deployment.kubernetes.io/").0 p))

is_preserved-no : (key : String) → ¬ (IsPreserved key) → is_preserved key ≡ false
unfolding is_preserved
is_preserved-no key other = elim (Bool-cases (is_preserved key)) [
  | inl t ↦ absurd (other (three_prefixes key (or-three _ _ _ t)))
  | inr f ↦ f
]

-- Metadata that is written over what there is. A key of the wanted metadata reads as wanted. Any
-- other reads as before if it begins with "kubectl.kubernetes.io/", "milvus.io/" or
-- "deployment.kubernetes.io/", and as nothing if it begins with none of these.
pub preserve_existing_metadata_prefixes-lookup :
    (desired existing : StringMap) (key : String)
    → IsMap desired
    → IsMap existing
    → let result = preserve_existing_metadata_prefixes desired existing in
      ((v : String) → lookup key desired ≡ some v → lookup key result ≡ some v)
      × (lookup key desired ≡ none → IsPreserved key → lookup key result ≡ lookup key existing)
      × (lookup key desired ≡ none → ¬ (IsPreserved key) → lookup key result ≡ none)
preserve_existing_metadata_prefixes-lookup desired existing key d e =
    let reads = preserve_existing_metadata_prefixes-kept_or desired existing key d e in
    (
      λ v h. rw (reads, h) refl,
      λ h p. rw (reads, h, is_preserved-yes key p) refl,
      λ h other. rw (reads, h, is_preserved-no key other) refl,
    )

new_component_app_labels-IsMap : (n k : String) → IsMap (new_component_app_labels n k)
unfolding new_component_app_labels IsMap lookup
new_component_app_labels-IsMap n k = (refl, (refl, (refl, (refl, tt))))

get_selector_labels-IsMap : (c : MilvusComponent) (n : String) → IsMap (get_selector_labels c n)
unfolding get_selector_labels
get_selector_labels-IsMap c n =
    let labels = new_component_app_labels-IsMap n (kind_name c.kind) in
    elim (Option-cases c.group) [
      | inl q ↦ rw q labels
      | inr (g, q) ↦ rw q (insert-IsMap deployment_group_label g.name _ labels)
    ]

-- The labels that a group's settings and the selector ask for.
own-IsMap : (o : Option DeploymentGroup) (m : StringMap) → IsMap m → IsMap (group_labels o m)
unfolding merge_labels
own-IsMap none m h = h
own-IsMap (some g) m h = merge_onto-IsMap (g.labels ∷ m ∷ []) [] (unfold IsMap in tt)

own-lookup :
    (o : Option DeploymentGroup) (m : StringMap) (key v : String)
    → ((g : DeploymentGroup) → o ≡ some g → IsMap g.labels)
    → IsMap m
    → lookup key m ≡ some v
    → lookup key (group_labels o m) ≡ some v
unfolding union
own-lookup none m key v h d q = q
own-lookup (some g) m key v h d q =
    merge_labels-union (g.labels ∷ m ∷ []) key (h g refl, (d, tt)) ∙ rw q refl

-- A deployment that is updated keeps every label by which its pods are selected, whatever labels
-- the settings of its group ask for, and the group id by which its rollout finds it.
pub desired_deployment_labels-lookup :
    (instance_name slot key v : String) (c : MilvusComponent) (existing : StringMap)
    → IsMap existing
    → ((g : DeploymentGroup) → c.group ≡ some g → IsMap g.labels)
    → str_eq slot "" ≡ false
    → str_eq (component_group_id_label (kind_name c.kind)) key ≡ false
    → lookup key (get_selector_labels c instance_name) ≡ some v
    → (lookup key (desired_deployment_labels instance_name c slot existing) ≡ some v)
      × (lookup
            (component_group_id_label (kind_name c.kind))
            (desired_deployment_labels instance_name c slot existing)
          ≡ some slot)
unfolding desired_deployment_labels
desired_deployment_labels-lookup instance_name slot key v c existing e g s k q =
    let labels = get_selector_labels c instance_name in
    let own = group_labels c.group labels in
    let id = component_group_id_label (kind_name c.kind) in
    let wanted : lookup key own ≡ some v =
      own-lookup c.group labels key v g (get_selector_labels-IsMap c instance_name) q in
    let kept =
      preserve_existing_metadata_prefixes-kept_or own existing key
        (own-IsMap c.group labels (get_selector_labels-IsMap c instance_name)) e in
    rw s (
      lookup-insert id key slot _ ∙ rw (k, kept, wanted) refl,
      lookup-insert id id slot _ ∙ rw ((eq_iff id id).1 refl) refl,
    )
