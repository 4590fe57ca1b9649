-- ===== src/Examples/Conditions.antt =====
-- Concrete conditions at which the theorems on UpdateCondition and RemoveConditions apply.
use milvus_operator.Base.{
  lookup, insert, delete, none, String, false, some, List, [], ◌∷◌, str_eq, ◌≡◌, refl,
}
use milvus_operator.Api.Status.{ConditionStatus, is_true, is_false}
use milvus_operator.Conditions.{
  MilvusCondition, update_condition, get_condition, get_not_ready_dependency_conditions,
}
use milvus_operator.Conditions.Update.{
  Says, update_condition-get, update_condition-update_condition,
}

abbrev etcd : ConditionStatus → MilvusCondition
etcd status = record {
  type = "EtcdReady";
  status = status;
  last_transition_time = some 1;
  reason = "Probe";
  message = "";
}

abbrev storage : MilvusCondition
storage = record {
  type = "StorageReady";
  status = is_true;
  last_transition_time = some 2;
  reason = "Probe";
  message = "";
}

abbrev conditions : List MilvusCondition
conditions = storage ∷ etcd is_false ∷ []

update_condition-get_example :
    ((d : MilvusCondition) × (get_condition "EtcdReady"
          (update_condition 5 (etcd is_true) conditions)
        ≡ some d)
      × Says (etcd is_true) d)
    × ((t : String)
        → str_eq "EtcdReady" t ≡ false
        → str_eq "" t ≡ false
        → get_condition t (update_condition 5 (etcd is_true) conditions)
          ≡ get_condition t conditions)
update_condition-get_example = update_condition-get 5 (etcd is_true) conditions refl

update_condition-update_condition_example :
    update_condition 9 (etcd is_true) (update_condition 5 (etcd is_true) conditions)
    ≡ update_condition 5 (etcd is_true) conditions
update_condition-update_condition_example =
    update_condition-update_condition 5 9 (etcd is_true) conditions refl

-- A dependency whose condition is true is not reported.
storage_ready : lookup "StorageReady" (get_not_ready_dependency_conditions conditions) ≡ none
unfolding get_not_ready_dependency_conditions lookup insert delete
storage_ready = refl
