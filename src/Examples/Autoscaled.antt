-- ===== src/Examples/Autoscaled.antt =====
-- Query nodes under an autoscaler, in the middle of a rollout.
use milvus_operator.Base.{ℕ, max, true, none, some, [], refl, arith}
use milvus_operator.Base.Int.{pos}
use milvus_operator.Api.Spec.{query_node, HpaSpec, MilvusSpec}
use milvus_operator.Component.{plain, set_field, get_hpa_spec}
use milvus_operator.Deployment.{get_deploy_replicas}
use milvus_operator.Scale.Rounds.{Counts}
use milvus_operator.Scale.Autoscaling.{IsGradual, planned, plan_next_scale_action-IsGradual}
use milvus_operator.Scale.Autoscaling.Ends.{hpa_rounds, hpa_rounds-Counts}
use milvus_operator.Examples.{
  scaling, never, three, rolling_three, query_nodes, quarter_surge, deployment_of,
}

abbrev at_least_two : HpaSpec
at_least_two = record {
  min_replicas = some (pos 2);
  max_replicas = pos 9;
  metrics = [];
  behavior = none;
}

abbrev autoscaled : MilvusSpec
autoscaled =
    set_field query_node (record (query_nodes three) { hpa = some at_least_two }) rolling_three

-- Four current pods, all ready, and three of the last deployment.
plan_next_scale_action-IsGradual_example :
    let current = deployment_of quarter_surge (pos 4) in
    (p : ℕ) × (q : ℕ) × Counts
      (planned scaling never true
        (plain query_node)
        autoscaled
        current
        (deployment_of quarter_surge (pos 3)))
      p
      q
    × IsGradual 2 current.status.ready_replicas 4 3 p q
unfolding get_hpa_spec get_deploy_replicas
plan_next_scale_action-IsGradual_example =
    plan_next_scale_action-IsGradual scaling never true (plain query_node) autoscaled at_least_two 2
      4 3 (deployment_of quarter_surge (pos 4)) (deployment_of quarter_surge (pos 3)) refl refl refl
      (refl, refl) (omega arith)

hpa_rounds-Counts_example :
    Counts
      (hpa_rounds scaling never true
        (plain query_node)
        autoscaled
        4
        (deployment_of quarter_surge (pos 0), deployment_of quarter_surge (pos 3)))
      (max 0 (max 2 3))
      0
unfolding get_hpa_spec get_deploy_replicas
hpa_rounds-Counts_example =
    hpa_rounds-Counts scaling never true (plain query_node) autoscaled at_least_two 2 0 2 3
      (deployment_of quarter_surge (pos 0), deployment_of quarter_surge (pos 3)) refl refl refl
      (refl, refl) (omega arith) (omega arith)
