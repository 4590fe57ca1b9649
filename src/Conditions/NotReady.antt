-- ===== src/Conditions/NotReady.antt =====
-- Which dependencies GetNotReadyDependencyConditions of pkg/controllers/utils.go reports.
use milvus_operator.Base.{
  String, Bool, true, false, true≢false, not, Option, none, some, List, [], ◌∷◌, lookup, insert,
  delete, lookup-insert, lookup-delete, str_eq, if◌then◌else◌, ◌≡◌, refl, sym, subst, ap, ◌∙◌,
  eq_iff, arith,
}
use milvus_operator.Api.Status.{holds}
use milvus_operator.Conditions.{
  MilvusCondition, is_type, is_dependency_type, note_dependency, note_dependencies,
  get_not_ready_dependency_conditions,
}

abbrev pub last_or : Option MilvusCondition → Option MilvusCondition → Option MilvusCondition
last_or none o = o
last_or (some c) o = some c

-- The last condition of a type.
abbrev pub last_of : String → List MilvusCondition → Option MilvusCondition
last_of t [] = none
last_of t (c ∷ cs) = last_or (last_of t cs) (if is_type t c then some c else none)

-- What a condition makes of a type's entry in the map.
abbrev pub judged :
    Option MilvusCondition → Option (Option MilvusCondition) → Option (Option MilvusCondition)
judged none before = before
judged (some c) before = if holds c.status then none else some (some c)

judged-last_or :
    (o p : Option MilvusCondition) (before : Option (Option MilvusCondition))
    → judged o (judged p before) ≡ judged (last_or o p) before
judged-last_or none p before = refl
judged-last_or (some c) p before = refl

-- The branches of the loop, with the reads of what they store.
noted :
    (t : String) (c : MilvusCondition)
    (ret deleted inserted : List (String × Option MilvusCondition)) (dependency hold same : Bool)
    → holds c.status ≡ hold
    → lookup t deleted ≡ (if same then none else lookup t ret)
    → lookup t inserted ≡ (if same then some (some c) else lookup t ret)
    → (same ≡ true → dependency ≡ true)
    → lookup t (if not dependency then ret else if hold then deleted else inserted)
      ≡ judged (if same then some c else none) (lookup t ret)
noted t c ret del ins true true true q p r h = rw q p
noted t c ret del ins true true false q p r h = p
noted t c ret del ins true false true q p r h = rw q r
noted t c ret del ins true false false q p r h = r
noted t c ret del ins false hold true q p r h = absurd (true≢false (sym (h refl)))
noted t c ret del ins false hold false q p r h = refl

note_dependency-lookup :
    (t : String) (c : MilvusCondition) (ret : List (String × Option MilvusCondition))
    → is_dependency_type t ≡ true
    → lookup t (note_dependency c ret)
      ≡ judged (if is_type t c then some c else none) (lookup t ret)
unfolding note_dependency
note_dependency-lookup t c ret d =
    noted t c ret (delete c.type ret) (insert c.type (some c) ret) (is_dependency_type c.type)
      (holds c.status) (str_eq c.type t) refl (lookup-delete c.type t ret)
      (lookup-insert c.type t (some c) ret)
      (λ e. subst (λ u. is_dependency_type u ≡ true) (sym ((eq_iff c.type t).0 e)) d)

note_dependencies-lookup :
    (t : String) (cs : List MilvusCondition) (ret : List (String × Option MilvusCondition))
    → is_dependency_type t ≡ true
    → lookup t (note_dependencies cs ret) ≡ judged (last_of t cs) (lookup t ret)
unfolding note_dependencies
note_dependencies-lookup t [] ret d = refl
note_dependencies-lookup t (c ∷ cs) ret d =
    note_dependencies-lookup t cs (note_dependency c ret) d
    ∙ (ap (judged (last_of t cs)) (note_dependency-lookup t c ret d)
        ∙ judged-last_or (last_of t cs) (if is_type t c then some c else none) (lookup t ret))

absent :
    (t : String)
    → is_dependency_type t ≡ true
    → lookup {V = Option MilvusCondition} t
        (("EtcdReady", none) ∷ ("StorageReady", none) ∷ ("MsgStreamReady", none) ∷ [])
      ≡ some none
unfolding lookup
absent t d = ground (
  arith,
  eq_iff t "EtcdReady",
  eq_iff "EtcdReady" t,
  eq_iff t "StorageReady",
  eq_iff "StorageReady" t,
  eq_iff t "MsgStreamReady",
  eq_iff "MsgStreamReady" t,
)

-- A dependency is reported as not ready unless its last condition is true, and is reported with
-- that condition if there is one.
get_not_ready_dependency_conditions-lookup :
    (t : String) (cs : List MilvusCondition)
    → is_dependency_type t ≡ true
    → lookup t (get_not_ready_dependency_conditions cs) ≡ judged (last_of t cs) (some none)
unfolding get_not_ready_dependency_conditions
get_not_ready_dependency_conditions-lookup t cs d =
    note_dependencies-lookup t cs _ d ∙ ap (judged (last_of t cs)) (absent t d)
