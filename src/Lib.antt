-- ===== src/Lib.antt =====
-- The Milvus operator for Kubernetes: a model of the decisions of its controllers in
-- pkg/controllers, over the resources of apis/milvus.io/v1beta1.
--
-- The parts and their files:
--   Base: natural numbers, texts, lists, maps, Go's errors and integers, shared by all.
--   Api: the resources as records and data types. Api/Spec and Api/Status follow
--     apis/milvus.io/v1beta1/milvus_types.go and components_types.go, Api/Strategy rolling_update.go
--     and Api/Labels label_annotations.go. The twelve components of a spec are one function of the
--     component's kind, as the code reads them by reflection on the field's name.
--   Component: pkg/controllers/components.go. A MilvusComponent is a kind with a deployment group;
--     GetComponentWorkloadsBySpec, GetReplicas, SetReplicas and the rest keep their names.
--     Component/Replicas has its lemmas. Component/Dependencies is dependency_graph.go with
--     GetDependencies.
--   Strategy: the rolling-update strategy from the webhook to the rollout:
--     apis/milvus.io/v1beta1/rolling_update_validation.go (validate_rolling_updates),
--     pkg/controllers/components.go and deployment_updater.go (get_deployment_strategy), and
--     rolloutSteps of deploy_ctrl_util.go (rollout_steps). Strategy/Progress, StepSizes and
--     Admission have the proofs.
--   Deployment: Kubernetes deployments and pods, with the reads of pkg/controllers/utils.go and
--     rollout_util.go.
--   Scale: pkg/controllers/deploy_ctrl_util.go. Each planScaleFor... method is a function of the
--     replica counts (force_action, hpa_action, external_hpa_action, normal_action and the three
--     branches of plan_scale_for_rollout); check_scale_kind and plan_next_scale_action choose among
--     them, and apply_action is the write of doScaleAction. Scale/Rounds puts the rounds one after
--     another; Scale/Steps, Bounds, Convergence, Force and Autoscaling (with Ends) have the
--     proofs.
--   Conditions: the conditions of a status, of pkg/controllers/utils.go, with proofs in
--     Conditions/Update and Conditions/NotReady.
--   Upgrade: pkg/controllers/milvusupgrade_fsm.go, milvusupgrade_controller.go and
--     apis/milvus.io/v1beta1/milvusupgrade_types.go. Upgrade/Server has the calls of the API server,
--     Upgrade/Replicas the stopping and starting of the instance, Upgrade/Handlers the state functions
--     and the pods of their tasks, and Upgrade/Machine RunStateMachine and Reconcile.
--     Upgrade/Transitions is the step relation; Frame, Conformance, Termination, Invariant, Pods and
--     RoundTrip have the proofs.
--   Rollout: the two-deployment mode, in which a component has a current and a last deployment.
--     Rollout has apis/milvus.io/v1beta1/label_annotations.go, where a rollout keeps its state;
--     Rollout/Metadata the labels and annotations of pkg/controllers/deployment_updater.go and
--     utils.go; Rollout/Store, Updates and Scaling the operations of deploy_ctrl_util.go and
--     rollout_util.go; Rollout/Controller deploy_ctrl.go, Reconcile with its handlers;
--     Rollout/ModeChange deploy_mode_changer.go, and Rollout/StatusUpdater
--     rolling_mode_status_updater.go. Rollout/View says what is relied on of the server, and Ends,
--     Invariant, Reachable, Slots, Maps and ModeChange/Recovered have the proofs.
--   Autoscaler: pkg/controllers/hpa.go, with proofs in Autoscaler/Kept.
--   Probes: pkg/controllers/endpoint_check_cache.go and GetCondition of conditions.go. Sequential is
--     about one caller after another, Interleaved about callers whose accesses mix.
--   Merge: the merges of lists in pkg/controllers/utils.go, with proofs in Merge/Last and
--     Merge/Places.
--   Groups: pkg/controllers/groups.go and group_runner.go, with proofs in Groups/Order.
--   StatefulSets: pkg/controllers/statefulset.go. StatefulSets/Claims deletes volume claims, sets and
--     legacy deployments, StatefulSets/Expansion enlarges claims; Ordinals and Cleanup have the
--     proofs.
--   Status: pkg/controllers/status_cluster.go, component_condition.go and makeWorkloadDeploymentMap of
--     conditions.go. Status aggregates the statuses of deployments, Status/Workloads and Deploys find
--     and collect them, Status/Ready is GetMilvusInstanceCondition, Status/Pods the killing of
--     terminating pods, Status/Syncer UpdateStatusForNewGeneration and Status/Batches the loops over
--     all instances. Aggregated, Updated, Readiness, Healthy and Once have the proofs.
--   Webhook: DefaultComponents of apis/milvus.io/v1beta1/milvus_webhook.go in Webhook/Defaults, with
--     proofs in Filled, Given, Settled, Stages, Total and Stops.
--   Examples: concrete inputs.
--
-- How they interact: the webhook (Strategy) bounds what the planner (Scale) meets, Component gives
-- both the desired replicas, and Upgrade sets those replicas through Component. Rollout decides when
-- the planner's next step is taken, and Autoscaler reads from its labels whether a rollout goes on,
-- as Status does for its condition MilvusUpdated. Webhook gives the components the replicas without
-- which IsStopping (Api/Stopping) dereferences nil.
--
-- Conventions. Go's int is an integer without bounds, since replica counts come from int32 fields;
-- the conversion to int32 keeps its wrap-around (to_int32). A pointer is an option, a map with text
-- keys a list of pairs, a struct that a function mutates is passed and returned. A formatted error
-- keeps its format without the arguments.
--
-- Fuel: the loop of RunStateMachine has fuel 8, the length of the longest chain of states; run_loop
-- returns none when it runs out.
--
-- Parameters that stand for code outside the repository: GetScaledValueFromIntOrPercent and
-- IsValidPercent (Scaling, with ScalingLaws for what their documentation says), the comparison of
-- versions (newer), SHA-256 (hash), and the API server, the clock, the condition helpers and the
-- template of the migration (Server). A world of any type is passed through every call of the server,
-- so that whatever happens between two calls is an answer of the server.
--
-- Rollout takes its server of deployments, pods, replica sets and saved revisions, the rendering of a
-- pod template, the comparison of templates and maps, Itoa and Atoi, and the one-deployment
-- controller as parameters (Rollout/Server, with Archive in Rollout/ModeChange). Its invariant relies
-- on Rollout/View: a failed update stores nothing, a list answers what is stored, and nobody else
-- writes the three objects while a reconciliation runs. Between reconciliations others may change
-- whatever leaves the labels, the annotations of the resource and a deployment without replicas
-- (Changed in Rollout/Reachable). Autoscaler/Kept relies on the same of the autoscaler's object.
--
-- Status takes the API server, kubectl's exec, the texts of error details (Status/Server), the probes
-- of the dependencies, the endpoint, the clock, the comparison of statuses and the rest of the
-- webhook's defaults (Environment in Status/Syncer) as parameters, and StatefulSets its server, Atoi
-- and the sizes that the claim templates ask for. Theorems about the requests that a loop makes take
-- a server that records them (Status/Once, StatefulSets/Cleanup).
--
-- Simplifications: a scaling round takes each round to begin with all pods of the deployments up
-- (Scale/Rounds, ready in Scale/Autoscaling/Ends); checkCanScaleNow is not part of a round, it is
-- in Rollout/Scaling. The migration's pod keeps its name, task, image and volume claim. The state
-- of a task group is the list of what its tasks end with, in the order in which they end.
-- GetReplicas and SetReplicas reach a component by its kind, where the code reads a field by name.
-- Probes keeps conditions and locks in two maps, where the code has one cache with two forms of
-- key.
--
-- Not modelled: the rendering of pod templates (deployment_updater.go beyond metadata and strategy),
-- with ReconcileComponentStatefulSet, which needs it; the one-deployment controller (deployments.go);
-- the probes of etcd, storage and message queues and the error details of conditions.go and
-- error_detail.go; RunWithResult; the other defaults and the checks of the webhook; metrics; the
-- builders of Kubernetes objects, Helm and the checks of external services, which are I/O; the
-- conversion of the old API, and generated code.
pub mod Base
pub mod Api
pub mod Component
pub mod Strategy
pub mod Deployment
pub mod Scale
pub mod Conditions
pub mod Upgrade
pub mod Rollout
pub mod Probes
pub mod Autoscaler
pub mod Groups
pub mod Merge
pub mod StatefulSets
pub mod Status
pub mod Webhook
pub mod Examples
