-- ===== src/Api/Labels.antt =====
-- The labels and annotations in which the operator keeps its rollout state: label_annotations.go.
use milvus_operator.Base.{
  String, Bool, true, false, Option, none, some, List, lookup, insert, lookup-insert, ◌≡◌, refl, ap,
  ◌∙◌, str_eq, eq_iff, if◌then◌else◌,
}
use Prim.Native.String.{◌++◌}

abbrev pub StringMap : Type 0
StringMap = List (String × String)

-- `m[key]`, which is "" for a missing key.
abbrev pub value_or_empty : Option String → String
value_or_empty none = ""
value_or_empty (some v) = v

if_value :
    (b : Bool) (v : String) (o : Option String)
    → value_or_empty (if b then some v else o) ≡ (if b then v else value_or_empty o)
if_value true v o = refl
if_value false v o = refl

abbrev pub get : String → StringMap → String
get key m = value_or_empty (lookup key m)

pub get-insert :
    (key other v : String) (m : StringMap)
    → get other (insert key v m) ≡ (if str_eq key other then v else get other m)
get-insert key other v m =
    ap value_or_empty (lookup-insert key other v m) ∙ if_value (str_eq key other) v (lookup other m)

-- `m[key] = v` reads back.
pub get-insert_same : (key v : String) (m : StringMap) → get key (insert key v m) ≡ v
get-insert_same key v m = get-insert key key v m ∙ rw ((eq_iff key key).1 refl) refl

pub changing_mode_label : String → String
changing_mode_label component = "milvus.io/changing-" ++ (component ++ "-mode")

unfoldable pub component_group_id_label : String → String
component_group_id_label component = "milvus.io/" ++ (component ++ "-group-id")

unfoldable pub component_current_group_id_label : String → String
component_current_group_id_label component = "milvus.io/" ++ (component ++ "-current-group-id")

unfoldable pub rolling_id_label : String → String
rolling_id_label component = "milvus.io/" ++ (component ++ "-rolling-id")
