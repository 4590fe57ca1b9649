-- ===== src/Conditions.antt =====
-- The conditions of a Milvus resource's status: UpdateCondition, RemoveConditions and
-- IsDependencyReady and
-- GetNotReadyDependencyConditions in pkg/controllers/utils.go.
pub mod Update
pub mod NotReady
use milvus_operator.Base.{
  ℕ, suc, String, Bool, true, false, not, ◌&&◌, ◌==◌, Option, none, some, List, [], ◌∷◌, any,
  filter, insert, delete, str_eq, if◌then◌else◌,
}
use milvus_operator.Api.Status.{ConditionStatus, is_true, is_false, unknown, holds}

pub record MilvusCondition : Type 0 where
  pub type : String
  pub status : ConditionStatus
  pub last_transition_time : Option ℕ
  pub reason : String
  pub message : String

abbrev pub status_text : ConditionStatus → String
status_text is_true = "True"
status_text is_false = "False"
status_text unknown = "Unknown"

abbrev pub is_type : String → MilvusCondition → Bool
is_type t c = str_eq c.type t

-- Nothing but the time differs.
abbrev pub agrees : MilvusCondition → MilvusCondition → Bool
agrees old new =
    str_eq (status_text old.status) (status_text new.status)
    && (str_eq old.reason new.reason && str_eq old.message new.message)

abbrev pub stamped : ℕ → MilvusCondition → MilvusCondition
stamped now c = record c { last_transition_time = some now }

-- The first condition of the type takes the new one's fields and the time, if they differ; a
-- condition of a new type goes to the end.
unfoldable pub put_condition : ℕ → MilvusCondition → List MilvusCondition → List MilvusCondition
put_condition now c [] = stamped now c ∷ []
put_condition now c (old ∷ rest) =
    let more = put_condition now c rest in
    if is_type c.type old then (if agrees old c then old else stamped now c) ∷ rest else old ∷ more

-- `now` is the answer of `metav1.Now()`.
unfoldable pub update_condition : ℕ → MilvusCondition → List MilvusCondition → List MilvusCondition
unfolding put_condition
update_condition now c cs =
    let valid = filter (λ x. not (is_type "" x)) cs in
    if is_type "" c then valid else put_condition now c valid

unfoldable pub remove_conditions : List String → List MilvusCondition → List MilvusCondition
remove_conditions types cs = filter (λ c. not (any (λ t. is_type t c) types)) cs

-- GetMilvusConditionByType of apis/milvus.io/v1beta1/milvus_types.go.
unfoldable pub get_condition : String → List MilvusCondition → Option MilvusCondition
get_condition t [] = none
get_condition t (c ∷ cs) = let rest = get_condition t cs in if is_type t c then some c else rest

abbrev pub is_dependency_type : String → Bool
is_dependency_type t =
    if str_eq t "EtcdReady"
    then true
    else if str_eq t "StorageReady"
    then true
    else str_eq t "MsgStreamReady"

abbrev pub is_dependency : MilvusCondition → Bool
is_dependency c = is_dependency_type c.type

unfoldable pub ready_dependencies : List MilvusCondition → ℕ
ready_dependencies [] = 0
ready_dependencies (c ∷ cs) =
    let rest = ready_dependencies cs in
    if not (holds c.status) then rest else if is_dependency c then suc rest else rest

unfoldable pub is_dependency_ready : List MilvusCondition → Bool
unfolding ready_dependencies
is_dependency_ready cs = ready_dependencies cs == 3

-- The body of the loop of GetNotReadyDependencyConditions.
unfoldable pub note_dependency :
    MilvusCondition
    → List (String × Option MilvusCondition)
    → List (String × Option MilvusCondition)
note_dependency c ret =
    if not (is_dependency c)
    then ret
    else if holds c.status
    then delete c.type ret
    else insert c.type (some c) ret

unfoldable pub note_dependencies :
    List MilvusCondition
    → List (String × Option MilvusCondition)
    → List (String × Option MilvusCondition)
unfolding note_dependency
note_dependencies [] ret = ret
note_dependencies (c ∷ cs) ret = note_dependencies cs (note_dependency c ret)

-- A dependency with no condition at all keeps `nil`.
unfoldable pub get_not_ready_dependency_conditions :
    List MilvusCondition → List (String × Option MilvusCondition)
unfolding note_dependencies
get_not_ready_dependency_conditions cs =
    note_dependencies cs
      (("EtcdReady", none) ∷ ("StorageReady", none) ∷ ("MsgStreamReady", none) ∷ [])
