-- ===== src/StatefulSets/Expansion.antt =====
-- reconcileStatefulSetPVCExpansion and storageClassAllowsExpansion of
-- pkg/controllers/statefulset.go. The templates, which the API's JSON decoder reads, come as the
-- sizes they ask for, in the order in which Go's map gives them.
use Prim.Native.String.{◌++◌}
use text.Mathlib.Text.{starts_with}
use milvus_operator.Base.{
  ℕ, String, Bool, true, false, Option, none, some, List, [], ◌∷◌, find?, lookup, insert, str_eq,
  ltb, if◌then◌else◌, Error, Result, ok, err, with_value, wrapped_value, ◌≡◌, refl, sym, ◌∙◌, inl,
  inr, arith, ◌<◌, ltb→lt, Bool-cases,
}
use milvus_operator.Api.Labels.{StringMap, get}
use milvus_operator.StatefulSets.{StatefulSet}
use milvus_operator.StatefulSets.Claims.{Claim}

pub record StorageClass : Type 0 where
  pub annotations : StringMap
  pub allow_volume_expansion : Option Bool

-- What is asked of the API server; `report` records an event with its
-- reason about a claim.
pub record ClassServer (W : Type 0) : Type 0 where
  pub list_claims : StringMap → W → Result (List Claim) × W
  pub get_storage_class : String → W → Result StorageClass × W
  pub list_storage_classes : W → Result (List StorageClass) × W
  pub update_claim : Claim → W → Option Error × W
  pub report : String → Claim → W → W

unfoldable pub storage_class_name_for_pvc : Claim → String
storage_class_name_for_pvc c = elim c.storage_class [ none ↦ "" | some s ↦ s ]

abbrev pub allows : StorageClass → Bool
allows s = elim s.allow_volume_expansion [ none ↦ false | some b ↦ b ]

abbrev pub is_default : StorageClass → Bool
is_default s = str_eq (get "storageclass.kubernetes.io/is-default-class" s.annotations) "true"

-- A class that cannot be resolved does not stop an expansion.
abbrev pub allows_found : {W : Type 0} → Result StorageClass × W → Bool × W
allows_found (err e, w) = (true, w)
allows_found (ok s, w) = (allows s, w)

abbrev pub allows_or_unknown : Option StorageClass → Bool
allows_or_unknown none = true
allows_or_unknown (some s) = allows s

abbrev pub allows_default : {W : Type 0} → Result (List StorageClass) × W → Bool × W
allows_default (err e, w) = (true, w)
allows_default (ok ss, w) = (allows_or_unknown (find? is_default ss), w)

-- The template whose claims are named like this one.
unfoldable pub template_of : StatefulSet → List (String × ℕ) → Claim → Option (String × ℕ)
template_of s desired c = find? (λ t. starts_with c.name (t.0 ++ ("-" ++ (s.name ++ "-")))) desired

-- The claims that do not terminate and ask for less than their template, as they are to be; the
-- others are passed over, also those that ask for more.
abbrev pub grown_to : Option (String × ℕ) → Claim → Option Claim
grown_to none c = none
grown_to (some (name, size)) c =
    if ltb c.requested size then some (record c { requested = size }) else none

unfoldable pub grown : StatefulSet → List (String × ℕ) → Claim → Option Claim
unfolding template_of
grown s desired c = if c.terminating then none else grown_to (template_of s desired c) c

module _ {W : Type 0} (srv : ClassServer W) where
  unfoldable pub storage_class_allows_expansion : String → W → Bool × W
  storage_class_allows_expansion name w =
      if str_eq name ""
      then allows_default (srv.list_storage_classes w)
      else allows_found (srv.get_storage_class name w)

  -- What the loop keeps: the classes that it has resolved.
  abbrev pub Resolved : Type 0
  Resolved = List (String × Bool)

  unfoldable pub resolve : String → Resolved → W → Bool × (Resolved × W)
  unfolding storage_class_allows_expansion
  resolve name known w = elim (lookup name known) [
    | some b ↦ (b, (known, w))
    | none ↦ let (b, u) = storage_class_allows_expansion name w in (b, (insert name b known, u))
  ]

  -- An update that fails is only reported.
  abbrev pub note_update : Claim → Option Error × W → W
  note_update c (none, w) = w
  note_update c (some e, w) = srv.report "PVCExpansionFailed" c w

  abbrev pub write_grown : Bool → Claim → W → W
  write_grown true c w = note_update c (srv.update_claim c w)
  write_grown false c w = srv.report "PVCExpansionUnsupported" c w

  unfoldable pub expand_claims :
      StatefulSet → List (String × ℕ) → List Claim → Resolved → W → Option Error × W
  unfolding grown resolve storage_class_name_for_pvc
  expand_claims s desired [] known w = (none, w)
  expand_claims s desired (c ∷ cs) known w = elim (grown s desired c) [
    | none ↦ expand_claims s desired cs known w
    | some g ↦
        let (allowed, (more, u)) = resolve (storage_class_name_for_pvc c) known w in
        expand_claims s desired cs more (write_grown allowed g u)
  ]

  abbrev pub expand_listed : StatefulSet → List (String × ℕ) → W → Option Error × W
  expand_listed s [] w = (none, w)
  expand_listed s (t ∷ ts) w =
      with_value (wrapped_value "list querynode pvcs" (srv.list_claims s.selector w))
        (λ cs. expand_claims s (t ∷ ts) cs [])

  -- `rendered` is what renderVolumeClaimTemplates answers.
  unfoldable pub reconcile_stateful_set_pvc_expansion :
      Result (List (String × ℕ)) → StatefulSet → W → Option Error × W
  unfolding expand_claims
  reconcile_stateful_set_pvc_expansion rendered s w = elim s.claim_templates [
    | [] ↦ (none, w)
    | t ∷ ts ↦ with_value (rendered, w) (expand_listed s)
  ]

grown_to_more :
    (t : Option (String × ℕ)) (c g : Claim)
    → grown_to t c ≡ some g
    → (c.requested < g.requested) × (g.name ≡ c.name)
grown_to_more none c g h = absurd cc
grown_to_more (some (name, size)) c g h = elim (Bool-cases (ltb c.requested size)) [
  | inl t ↦ ground (arith, t, h, ltb→lt c.requested size)
  | inr t ↦ ground (arith, t, h)
]

-- A claim is only ever written to ask for more.
pub grown_more :
    (s : StatefulSet) (desired : List (String × ℕ)) (c g : Claim)
    → grown s desired c ≡ some g
    → (c.requested < g.requested) × (g.name ≡ c.name)
unfolding grown
grown_more s desired c g h = elim (Bool-cases c.terminating) [
  | inl t ↦ absurd cc (t, h)
  | inr t ↦ grown_to_more (template_of s desired c) c g (sym (rw (t, grown) refl) ∙ h)
]
