-- ===== src/Rollout/ModeChange.antt =====
-- The change of a component from one deployment to two: pkg/controllers/deploy_mode_changer.go,
-- with SaveObject, GetSavedObject, CreateObject, OrphanDelete, ListOldReplicaSets and ListOldPods of
-- rollout_util.go. The old deployment and its replica sets are saved in controller revisions,
-- deleted without their pods, and made again as group 0.
pub mod Recovered
use Prim.Native.String.{◌++◌}
use milvus_operator.Base.{
  String, Bool, true, false, Option, none, some, List, [], ◌∷◌, filter, str_eq, if◌then◌else◌,
  Error, requeue, wrap, is_api_not_found, errorf, Result, ok, err, then_do, with_value, wrapped,
  wrapped_value,
}
use milvus_operator.Base.Int.{pos}
use milvus_operator.Api.Labels.{StringMap}
use milvus_operator.Api.Spec.{DeploymentGroup}
use milvus_operator.Deployment.{PodTemplate, Deployment, Pod}
use milvus_operator.Component.{MilvusComponent, kind_name, get_deployment_group_name}
use milvus_operator.Rollout.{
  Milvus, is_changing_mode, set_changing_mode, get_label_group_id, set_group_id_str,
  get_current_group_id, set_current_group_id_str,
}
use milvus_operator.Rollout.Metadata.{get_selector_labels, matches_deployment_group}
use milvus_operator.Rollout.Server.{Server, Library, Job, Effect}
use milvus_operator.Rollout.Store.{state_key, get_old_deploy}
use milvus_operator.Rollout.Updates.{set_milvus, requeued, update_milvus}

-- `rest` is what the operator copies without reading it.
pub record ReplicaSet : Type 0 where
  pub name : String
  pub labels : StringMap
  pub selector : StringMap
  pub template_labels : StringMap
  pub rest : String

-- The calls for the objects of this change, the JSON of the saved objects, and the parts of a
-- replica set's name around its last dash, if it has one.
pub record Archive (W : Type 0) : Type 0 where
  pub list_replica_sets : StringMap → W → Result (List ReplicaSet) × W
  pub list_pods : StringMap → W → Result (List Pod) × W
  pub get_revision : String → W → Result String × W
  pub create_revision : String → String → W → Option Error × W
  pub get_deployment : String → W → Result Deployment × W
  pub create_deployment : Deployment → W → Option Error × W
  pub delete_deployment : Deployment → W → Option Error × W
  pub get_replica_set : String → W → Result ReplicaSet × W
  pub create_replica_set : ReplicaSet → W → Option Error × W
  pub delete_replica_set : ReplicaSet → W → Option Error × W
  pub update_pod : Pod → W → Option Error × W
  pub own_revision : String → Option Error
  pub marshal_deployment : Deployment → Result String
  pub unmarshal_deployment : String → Result Deployment
  pub marshal_replica_sets : List ReplicaSet → Result String
  pub unmarshal_replica_sets : String → Result (List ReplicaSet)
  pub split_at_last_dash : String → Option (String × String)

module _ (lib : Library) (c : MilvusComponent) where
  abbrev save_name : String → String → String
  save_name instance_name suffix = elim c.group [
    | none ↦ kind_name c.kind ++ ("-" ++ (instance_name ++ suffix))
    | some g ↦ kind_name c.kind ++ ("-" ++ (instance_name ++ ("-" ++ (g.name ++ suffix))))
  ]

  unfoldable pub format_save_old_deploy_name : Milvus → String
  format_save_old_deploy_name m = save_name m.name "-old-deploy"

  unfoldable pub format_save_old_replica_set_list_name : Milvus → String
  format_save_old_replica_set_list_name m = save_name m.name "-old-replicas"

  -- `SetGroupID(component, labels, 0)`.
  unfoldable pub in_group_zero : StringMap → StringMap
  unfolding set_group_id_str kind_name
  in_group_zero labels = set_group_id_str (kind_name c.kind) labels (lib.itoa (pos 0))

  -- Metadata of an object of the component that no rollout owns.
  unfoldable pub is_old_labels : StringMap → Bool
  unfolding matches_deployment_group get_label_group_id kind_name
  is_old_labels labels =
      if matches_deployment_group c labels
      then str_eq (get_label_group_id (kind_name c.kind) labels) ""
      else false

  -- The deployment that RecoverDeploy makes of the saved one.
  unfoldable pub recovered_deploy : Deployment → Deployment
  unfolding in_group_zero
  recovered_deploy d = record d {
    name = d.name ++ "-0";
    labels = in_group_zero d.labels;
    selector = in_group_zero d.selector;
    template = record (d.template) { labels = in_group_zero d.template.labels };
  }

  unfoldable pub recovered_replica_set : ReplicaSet → String × String → ReplicaSet
  unfolding in_group_zero
  recovered_replica_set r (deploy_name, hash) = record r {
    name = deploy_name ++ ("-0-" ++ hash);
    labels = in_group_zero r.labels;
    selector = in_group_zero r.selector;
    template_labels = in_group_zero r.template_labels;
  }

  module _ {W : Type 0} (srv : Server W) (arc : Archive W) where
    abbrev call : {A : Type 0} → (W → A × W) → Job W → A × Job W
    call f j = let (a, w) = f j.world in (a, record j { world = w })

    -- CreateObject, of an object that `found` answers for.
    abbrev pub create_if_missing : {A : Type 0} → Result A × Job W → Effect W → Option Error × Job W
    create_if_missing (ok a, j) create = (none, j)
    create_if_missing (err e, j) create =
        if is_api_not_found e then create j else (some (wrap "check object exist" e), j)

    -- OrphanDelete: a requeue once the deletion is under way.
    abbrev pub orphan_delete : Option Error × Job W → Option Error × Job W
    orphan_delete (none, j) = (some requeue, j)
    orphan_delete (some e, j) =
        if is_api_not_found e then (none, j) else (some (wrap "delete old object" e), j)

    -- SaveObject with the object's text.
    unfoldable pub save_object : String → Result String → Effect W
    save_object name (err e) j = (some (wrap "marshal to-save object" e), j)
    save_object name (ok text) j = elim (arc.own_revision name) [
      | some e ↦ (some (wrap "set controller reference" e), j)
      | none ↦
          create_if_missing (call (arc.get_revision name) j) (call (arc.create_revision name text))
    ]

    unfoldable pub mark_changing_deploy_mode : Bool → Effect W
    unfolding is_changing_mode set_changing_mode state_key update_milvus
    mark_changing_deploy_mode changing j =
        let key = state_key lib c in
        let marked =
          wrapped "marking changing deploy mode" (
            requeued
              (update_milvus srv (set_milvus j (set_changing_mode j.milvus key changing)))) in
        if is_changing_mode j.milvus key
        then if changing then (none, j) else marked
        else if changing
        then marked
        else (none, j)

    abbrev pub save_and_delete : Result Deployment × Job W → Option Error × Job W
    save_and_delete (ok d, j) =
        then_do
          (wrapped "save old deploy"
            (save_object (format_save_old_deploy_name j.milvus) (arc.marshal_deployment d) j))
          (λ k.
            wrapped "orphan delete old deploy" (orphan_delete (call (arc.delete_deployment d) k)))
    save_and_delete (err e, j) =
        if is_api_not_found e then (none, j) else (some (wrap "get old deployments" e), j)

    unfoldable pub save_delete_old_deploy : Effect W
    unfolding save_object format_save_old_deploy_name get_old_deploy
    save_delete_old_deploy j = save_and_delete (get_old_deploy lib c srv j)

    -- Every replica set is deleted; the last error is answered.
    unfoldable pub delete_replica_sets : List ReplicaSet → Option Error → Effect W
    delete_replica_sets [] last j = (last, j)
    delete_replica_sets (r ∷ rs) last j =
        let (e, k) = orphan_delete (call (arc.delete_replica_set r) j) in
        let kept = delete_replica_sets rs last k in
        elim e [
          | none ↦ kept
          | some x ↦ delete_replica_sets rs (some (wrap "deleting old replica set[%s]" x)) k
        ]

    -- ListOldReplicaSets and ListOldPods, on what the server lists.
    abbrev pub only_old :
        {A : Type 0} → String → (A → StringMap) → Result (List A) × Job W → Result (List A) × Job W
    only_old text labels_of (err e, j) = (err (wrap text e), j)
    only_old text labels_of (ok xs, j) = (ok (filter (λ x. is_old_labels (labels_of x)) xs), j)

    abbrev pub old_replica_sets : Job W → Result (List ReplicaSet) × Job W
    old_replica_sets j =
        only_old "list component replica sets" (λ (r : ReplicaSet). r.labels)
          (call (arc.list_replica_sets (get_selector_labels c j.milvus.name)) j)

    abbrev pub old_pods : Job W → Result (List Pod) × Job W
    old_pods j =
        only_old "list component pods" (λ (p : Pod). p.labels)
          (call (arc.list_pods (get_selector_labels c j.milvus.name)) j)

    unfoldable pub save_delete_old_replica_set : Effect W
    unfolding save_object delete_replica_sets format_save_old_replica_set_list_name is_old_labels
        get_selector_labels
    save_delete_old_replica_set j =
        with_value (wrapped_value "list old replica sets" (old_replica_sets j)) (λ rs k.
          then_do
            (wrapped "save old replicaset list" (
              save_object (format_save_old_replica_set_list_name k.milvus)
                (arc.marshal_replica_sets rs) k))
            (delete_replica_sets rs none))

    unfoldable pub relabel_pods : List Pod → Effect W
    unfolding in_group_zero
    relabel_pods [] j = (none, j)
    relabel_pods (p ∷ ps) j =
        then_do
          (wrapped "update old pod labels"
            (call (arc.update_pod (record p { labels = in_group_zero p.labels })) j))
          (relabel_pods ps)

    unfoldable pub update_old_pod_labels : Effect W
    unfolding relabel_pods get_selector_labels is_old_labels
    update_old_pod_labels j = with_value (wrapped_value "list old pods" (old_pods j)) relabel_pods

    -- GetSavedObject with the reading of its text.
    abbrev pub saved : {A : Type 0} → (String → Result A) → Result String × Job W → Result A × Job W
    saved read (err e, j) = (err (wrap "get saved object" e), j)
    saved read (ok text, j) = wrapped_value "unmarshal saved object" (read text, j)

    unfoldable pub recreate_replica_sets : List ReplicaSet → Effect W
    unfolding recovered_replica_set
    recreate_replica_sets [] j = (none, j)
    recreate_replica_sets (r ∷ rs) j = elim (arc.split_at_last_dash r.name) [
      | none ↦ (some (errorf "invalid old replica set name: %s"), j)
      | some parts ↦
          let s = recovered_replica_set r parts in
          then_do
            (wrapped "recover old replica set" (
              create_if_missing (call (arc.get_replica_set s.name) j)
                (call (arc.create_replica_set s))))
            (recreate_replica_sets rs)
    ]

    unfoldable pub recover_replica_sets : Effect W
    unfolding recreate_replica_sets format_save_old_replica_set_list_name
    recover_replica_sets j =
        with_value
          (wrapped_value "list old replica sets" (
            saved arc.unmarshal_replica_sets
              (call (arc.get_revision (format_save_old_replica_set_list_name j.milvus)) j)))
          recreate_replica_sets

    unfoldable pub recover_deploy : Effect W
    unfolding recovered_deploy format_save_old_deploy_name
    recover_deploy j =
        with_value
          (wrapped_value "get old deploy" (
            saved arc.unmarshal_deployment
              (call (arc.get_revision (format_save_old_deploy_name j.milvus)) j)))
          (λ d k.
            let e = recovered_deploy d in
            wrapped "recover old deploy" (
              create_if_missing (call (arc.get_deployment e.name) k)
                (call (arc.create_deployment e))))

    unfoldable pub mark_current_deploy : Effect W
    unfolding get_current_group_id set_current_group_id_str state_key update_milvus
    mark_current_deploy j =
        let key = state_key lib c in
        if str_eq (get_current_group_id j.milvus key) "0"
        then (none, j)
        else wrapped "mark current deploy" (
            requeued (
              update_milvus srv
                (set_milvus j (set_current_group_id_str j.milvus key (lib.itoa (pos 0))))))

    -- The steps of ChangeToTwoDeployMode, the first that fails ending it.
    unfoldable pub run_steps : List (Effect W) → Effect W
    run_steps [] j = (none, j)
    run_steps (s ∷ ss) j = then_do (wrapped "step[no.%d][%s]" (s j)) (run_steps ss)

    unfoldable pub change_to_two_deploy_mode : Effect W
    unfolding run_steps save_delete_old_deploy save_delete_old_replica_set update_old_pod_labels
        recover_replica_sets recover_deploy mark_current_deploy
    change_to_two_deploy_mode = run_steps (
        save_delete_old_deploy ∷ save_delete_old_replica_set ∷ update_old_pod_labels
        ∷ recover_replica_sets ∷ recover_deploy ∷ mark_current_deploy ∷ [])
