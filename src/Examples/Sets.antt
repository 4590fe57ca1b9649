-- ===== src/Examples/Sets.antt =====
-- A stateful set with claims of replicas that are not wanted.
use mathlib.Core.List.{Memᴰ, Sublistᴰ}
use milvus_operator.Base.{
  String, Bool, true, false, Option, none, some, List, [], ◌∷◌, All, filter, ◌≡◌, refl, Error,
  errorf, if◌then◌else◌, Result, ok, err, str_eq,
}
use milvus_operator.Base.Int.{ℤ, pos}
use milvus_operator.StatefulSets.{StatefulSet}
use milvus_operator.StatefulSets.Claims.{
  Server, cleanup_scaled_down_stateful_set_pvcs, Claim, claim_prefixes,
  match_stateful_set_pvc_ordinal, is_scaled_down,
}
use milvus_operator.StatefulSets.Cleanup
use milvus_operator.StatefulSets.Cleanup.{
  IsRemovable, IsUnwanted, cleanup_scaled_down_stateful_set_pvcs-IsRemovable,
}

-- Two of the four claims are of replicas that are not wanted; one of them goes already.
abbrev set : StatefulSet
set = record {
  name = "m-querynode";
  generation = 1;
  labels = [];
  annotations = [];
  selector = [];
  replicas = some (pos 1);
  claim_templates = "cache" ∷ [];
  containers = [];
  observed_generation = 1;
  status_replicas = pos 1;
  updated_replicas = pos 1;
  ready_replicas = pos 1;
  available_replicas = pos 1;
  current_revision = "a";
  update_revision = "a";
}

abbrev claim : String → Bool → Claim
claim name terminating = record {
  name = name;
  terminating = terminating;
  requested = 1;
  storage_class = none;
}

abbrev claims : List Claim
claims =
    claim "cache-m-querynode-0" false
    ∷ claim "cache-m-querynode-2" false
    ∷ claim "cache-m-querynode-1" true
    ∷ claim "cache-m-querynode-hot-3" false
    ∷ []

abbrev digit : String → Result ℤ
digit t =
    if str_eq t "0"
    then ok (pos 0)
    else if str_eq t "1"
    then ok (pos 1)
    else if str_eq t "2"
    then ok (pos 2)
    else err (errorf "strconv.Atoi")

abbrev allowed : Claim → Option Error
allowed c = none

claims-chosen : filter (is_scaled_down digit set) claims ≡ claim "cache-m-querynode-2" false ∷ []
unfolding is_scaled_down match_stateful_set_pvc_ordinal claim_prefixes
claims-chosen = refl

abbrev server : Server (List Claim)
server = record {
  list_claims = λ labels log. (ok claims, log);
  delete_claim = Cleanup.recorded allowed;
  list_deployments = λ labels log. (ok [], log);
  delete_deployment = λ d log. (none, log);
  list_stateful_sets = λ labels log. (ok [], log);
  delete_stateful_set = λ s log. (none, log);
  get_service = λ name log. (none, log);
  delete_service = λ name log. (none, log);
}

cleanup_scaled_down_stateful_set_pvcs-IsRemovable_example :
    let (e, sent) = cleanup_scaled_down_stateful_set_pvcs digit server set [] in
    Sublistᴰ sent claims
    × All (IsRemovable digit set) sent
    × (e ≡ none
        → (c : Claim) → Memᴰ c claims
        → IsRemovable digit set c
        → IsUnwanted digit set c
        → Memᴰ c sent)
cleanup_scaled_down_stateful_set_pvcs-IsRemovable_example =
    cleanup_scaled_down_stateful_set_pvcs-IsRemovable digit allowed server set "cache" [] claims
      refl refl refl
