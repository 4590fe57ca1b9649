-- ===== src/Status/Updated.antt =====
-- When an instance counts as updated.
use milvus_operator.Base.{
  String, Bool, true, false, not, ◌&&◌, ◌||◌, none, some, any, str_eq, sym, List, [], ◌∷◌, all,
  filter, ◌≡◌, refl, ap, ◌∙◌, if◌then◌else◌,
}
use milvus_operator.Api.Spec.{
  ImageUpdateMode, rolling_upgrade, rolling_downgrade, all_at_once, force,
}
use milvus_operator.Api.Status.{state_complete, state_paused, holds, get_state}
use milvus_operator.Component.{
  get_component_workloads_by_spec, is_idle_cluster_standalone, MilvusComponent, get_state_key,
}
use milvus_operator.Deployment.{Deployment}
use milvus_operator.Rollout.{Milvus, is_component_rolling}
use milvus_operator.Status.Aggregated.{and_true, is_state, settles-is_state}
use milvus_operator.Status.{settles}
use milvus_operator.Status.Workloads.{
  DeployStatuses, workload_status, is_workload_updating, counted_workloads, updating_components,
  is_updating_image, is_rolling_update_enabled, components_condition, condition_of,
  get_milvus_updated_condition,
}

-- An upgrade or downgrade by rolling waits for the images.
abbrev pub waits_for_image : ImageUpdateMode → Bool
waits_for_image rolling_upgrade = true
waits_for_image rolling_downgrade = true
waits_for_image all_at_once = false
waits_for_image force = false

and_false : (a : Bool) → false ≡ (a && false)
and_false true = refl
and_false false = refl

not_rest : (b r : Bool) → (if not b then true else r) ≡ not (b && not r)
not_rest true true = refl
not_rest true false = refl
not_rest false r = refl

condition_of-holds :
    (b : Bool) (mode : ImageUpdateMode) (updating : List MilvusComponent) (names : String)
    → holds (condition_of b mode updating names).status
      ≡ (holds (components_condition updating names).status && not (b && waits_for_image mode))
condition_of-holds false mode updating names = and_true _
condition_of-holds true rolling_upgrade updating names = and_false _
condition_of-holds true rolling_downgrade updating names = and_false _
condition_of-holds true all_at_once updating names = and_true _
condition_of-holds true force updating names = and_true _

-- Rolling updates are enabled, and the mode is a rolling one.
abbrev pub rolls_images : Milvus → Bool
rolls_images m =
    elim m.spec.components.enable_rolling_update [ none ↦ false | some b ↦ b ]
    && waits_for_image m.spec.components.image_update_mode

not_or : (a b : Bool) → not ((not a || b) && true) ≡ (a && not (b && true))
not_or true b = refl
not_or false b = refl

and_four : (a b c d : Bool) → ((a && b) && (c && d)) ≡ ((a && c) && (b && d))
and_four false b c d = refl
and_four true false false d = refl
and_four true false true d = refl
and_four true true false d = refl
and_four true true true d = refl

not-any :
    {A : Type 0} (e w : Bool) (q : A → Bool) (xs : List A)
    → not (any (λ x. e && not (q x)) xs && w) ≡ all (λ x. not (e && w) || q x) xs
not-any e w q [] = refl
not-any false w q (x ∷ xs) = not-any false w q xs
not-any true false q (x ∷ xs) =
    let no : not (any (λ y. true && not (q y)) (x ∷ xs) && false) ≡ true =
      ap not (sym (and_false _)) in
    no ∙ (ap not (and_false _) ∙ not-any true false q xs)
not-any true true q (x ∷ xs) =
    not_or (q x) (any (λ y. true && not (q y)) xs) ∙ ap (λ b. q x && b) (not-any true true q xs)

all_both :
    {A : Type 0} (p q : A → Bool) (xs : List A) → (all p xs && all q xs) ≡ all (λ x. p x && q x) xs
all_both p q [] = refl
all_both p q (x ∷ xs) =
    and_four (p x) (all p xs) (q x) (all q xs) ∙ ap (λ b. (p x && q x) && b) (all_both p q xs)

all-filter :
    {A : Type 0} (i p : A → Bool) (xs : List A)
    → all p (filter (λ x. not (i x)) xs) ≡ all (λ x. i x || p x) xs
all-filter i p [] = refl
all-filter {A} i p (x ∷ xs) = kept (i x) (filter (λ y. not (i y)) xs) _ (all-filter i p xs)
  where
    kept :
        (b : Bool) (rest : List A) (more : Bool)
        → all p rest ≡ more
        → all p (if not b then x ∷ rest else rest) ≡ ((b || p x) && more)
    kept true rest more h = h
    kept false rest more h = ap (λ d. p x && d) h

all_same :
    {A : Type 0} (p q : A → Bool) → ((x : A) → p x ≡ q x) → (xs : List A) → all p xs ≡ all q xs
all_same p q h [] = refl
all_same p q h (x ∷ xs) = λ j. h x j && all_same p q h xs j

module _ (hash : String → String) (newer : String → Bool)
    (controlled : Deployment → Milvus → Bool) where
  -- A workload has its state and no rollout.
  abbrev pub is_at_rest : Milvus → DeployStatuses → MilvusComponent → Bool
  is_at_rest m st c =
      settles (get_state (workload_status st c))
      && not (is_component_rolling m (get_state_key hash c))

  is_workload_updating-at_rest :
      (m : Milvus) (st : DeployStatuses) (c : MilvusComponent)
      → is_workload_updating hash newer controlled m st c ≡ not (is_at_rest m st c)
  unfolding is_workload_updating
  is_workload_updating-at_rest m st c = not_rest (settles (get_state (workload_status st c))) _

  components_condition-holds :
      (m : Milvus) (st : DeployStatuses) (cs : List MilvusComponent) (names : String)
      → holds
          (components_condition
            (filter (is_workload_updating hash newer controlled m st) cs)
            names).status
        ≡ all (is_at_rest m st) cs
  components_condition-holds m st [] names = refl
  components_condition-holds m st (c ∷ cs) names =
      (λ i.
        holds
          (components_condition (if is_workload_updating-at_rest m st c i then c ∷ rest else rest)
            names).status)
      ∙ by_rest (is_at_rest m st c) (components_condition-holds m st cs names)
    where
      rest : List MilvusComponent
      rest = filter (is_workload_updating hash newer controlled m st) cs

      by_rest :
          (b : Bool)
          → holds (components_condition rest names).status ≡ all (is_at_rest m st) cs
          → holds (components_condition (if not b then c ∷ rest else rest) names).status
            ≡ (b && all (is_at_rest m st) cs)
      by_rest true h = h
      by_rest false h = refl

  -- The condition as the code puts it together.
  condition-holds :
      (m : Milvus) (st : DeployStatuses)
      → holds (get_milvus_updated_condition hash newer controlled m st).status ≡ (
          all (is_at_rest m st) (counted_workloads hash newer controlled m)
          && not (
              is_updating_image hash newer controlled m st
              && waits_for_image m.spec.components.image_update_mode))
  unfolding get_milvus_updated_condition updating_components
  condition-holds m st =
      condition_of-holds (is_updating_image hash newer controlled m st)
        m.spec.components.image_update_mode (updating_components hash newer controlled m st) _
      ∙ ap
          (λ b.
            b
            && not (
                is_updating_image hash newer controlled m st
                && waits_for_image m.spec.components.image_update_mode))
          (components_condition-holds m st (counted_workloads hash newer controlled m) _)

  -- A workload is complete or paused, its component does not roll, and it runs the image of the
  -- spec where the images roll.
  abbrev pub is_as_wanted : Milvus → DeployStatuses → MilvusComponent → Bool
  is_as_wanted m st c =
      let s = workload_status st c in
      let state = get_state s in
      ((is_state state_complete state || is_state state_paused state)
        && not (is_component_rolling m (get_state_key hash c)))
      && (not (rolls_images m) || str_eq s.image m.spec.components.image)

  -- The instance counts as updated exactly when each workload of the spec but an idle standalone
  -- is complete or paused, belongs to no component that rolls and, where rolling updates are enabled
  -- and the image update mode is a rolling one, runs the image of the spec.
  pub get_milvus_updated_condition-holds :
      (m : Milvus) (st : DeployStatuses)
      → holds (get_milvus_updated_condition hash newer controlled m st).status
        ≡ all
            (λ c. is_idle_cluster_standalone m.spec c || is_as_wanted m st c)
            (get_component_workloads_by_spec newer m.spec)
  unfolding is_updating_image counted_workloads
  get_milvus_updated_condition-holds m st =
      let runs : MilvusComponent → Bool =
        λ c. str_eq (workload_status st c).image m.spec.components.image in
      let idle = is_idle_cluster_standalone m.spec in
      let workloads = get_component_workloads_by_spec newer m.spec in
      let counted = filter (λ c. not (idle c)) workloads in
      condition-holds m st
      ∙ (ap (λ b. all (is_at_rest m st) counted && b)
            (not-any (is_rolling_update_enabled m)
              (waits_for_image m.spec.components.image_update_mode) runs counted)
          ∙ (all_both (is_at_rest m st) (λ c. not (rolls_images m) || runs c) counted
              ∙ (all-filter idle (λ c. is_at_rest m st c && (not (rolls_images m) || runs c))
                    workloads
                  ∙ all_same _ _
                      (λ c.
                        ap
                          (λ b.
                            idle c
                            || ((b && not (is_component_rolling m (get_state_key hash c)))
                                && (not (rolls_images m) || runs c)))
                          (settles-is_state (get_state (workload_status st c))))
                      workloads)))
