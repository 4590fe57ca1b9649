-- ===== src/Upgrade/Replicas.antt =====
-- Stopping and starting an instance for its upgrade: recordOldInfo, stopMilvus, startMilvus,
-- isMilvusStopping and isMilvusStopped in pkg/controllers/milvusupgrade_fsm.go.
use milvus_operator.Base.{
  ◌-◌, ◌*◌, String, Bool, true, false, not, ◌&&◌, ◌||◌, Option, none, some, List, [], ◌∷◌, lookup,
  insert, delete, str_eq, ltb, if◌then◌else◌, Error, errorf, wrap_error, Result, ok, err, wrap,
}
use milvus_operator.Base.Int.{ℤ, pos, negsuc, ◌==ℤ◌, ltb_ℤ}
use milvus_operator.Api.Spec.{ComponentKind, MilvusSpec}
use milvus_operator.Api.Labels.{get}
use milvus_operator.Component.{
  MilvusComponent, kind_name, kind_eq, get_replicas, is_hpa_enabled, set_replicas, replicas_value,
  get_component_workloads_by_spec, get_deployment_group_name,
}
use milvus_operator.Deployment.{Deployment, to_int32}
use milvus_operator.Upgrade.{UpgradeStatus, Milvus, MilvusReplicas}
use milvus_operator.Upgrade.Server.{Server, Job, Effect, then_do}

abbrev pub upgrade_stopping_annotation : String
upgrade_stopping_annotation = "milvus.io/upgrade-stopping"

abbrev pub stopped_at_annotation : String
stopped_at_annotation = "milvus.io/stopped-at"

abbrev pub upgrade_annotation : String
upgrade_annotation = "milvus.io/upgrade"

unfoldable pub is_upgrade_stopping : Milvus → Bool
is_upgrade_stopping m = str_eq (get upgrade_stopping_annotation m.annotations) "true"

-- `SetStatusReplicas`.
abbrev pub set_status_replicas : ComponentKind → ℤ → MilvusReplicas → MilvusReplicas
set_status_replicas k r m j = if kind_eq k j then r else m j

abbrev pub GroupReplicas : Type 0
GroupReplicas = List (String × List (String × ℤ))

abbrev pub no_replicas : MilvusReplicas
no_replicas j = pos 0

abbrev pub replicas_or_none : Option MilvusReplicas → MilvusReplicas
replicas_or_none none = no_replicas
replicas_or_none (some m) = m

-- Reading a nil map finds nothing.
abbrev pub groups_or_empty {ℓ} : {A : Type ℓ} → Option (List A) → List A
groups_or_empty none = []
groups_or_empty (some m) = m

abbrev pub set_group : String → String → ℤ → GroupReplicas → GroupReplicas
set_group component group r m =
    insert component (insert group r (groups_or_empty (lookup component m))) m

-- One pass of recordOldInfo's loop: the maps that were nil are filled.
unfoldable pub record_component :
    MilvusSpec
    → MilvusComponent
    → Option MilvusReplicas
    → Option GroupReplicas
    → Bool
    → Bool
    → Option MilvusReplicas × Option GroupReplicas
unfolding get_replicas get_deployment_group_name kind_name
record_component spec c plain groups record_plain record_groups =
    let r = replicas_value (get_replicas c spec) in
    elim c.group [
      | none ↦
          if record_plain
          then (some (set_status_replicas c.kind r (replicas_or_none plain)), groups)
          else (plain, groups)
      | some g ↦
          if record_groups
          then (
            plain,
            some (
                set_group (kind_name c.kind) (get_deployment_group_name c) r
                  (groups_or_empty groups)),
          )
          else (plain, groups)
    ]

unfoldable pub record_components :
    MilvusSpec
    → Bool
    → Bool
    → List MilvusComponent
    → Option MilvusReplicas
    → Option GroupReplicas
    → Option MilvusReplicas × Option GroupReplicas
unfolding record_component
record_components spec record_plain record_groups [] plain groups = (plain, groups)
record_components spec record_plain record_groups (c ∷ cs) plain groups =
    let (plain', groups') = record_component spec c plain groups record_plain record_groups in
    record_components spec record_plain record_groups cs plain' groups'

abbrev pub is_nil {ℓ} : {A : Type ℓ} → Option A → Bool
is_nil none = true
is_nil (some a) = false

abbrev start_record {ℓ} : {A : Type ℓ} → A → Option A → Option A
start_record a none = some a
start_record a (some b) = some b

-- `_ = component.SetReplicas(…)`: an error leaves the spec alone.
abbrev pub set_or_keep : MilvusComponent → ℤ → MilvusSpec → MilvusSpec
set_or_keep c r spec = elim (set_replicas c spec (some r)) [ ok spec' ↦ spec' | err e ↦ spec ]

unfoldable pub stop_components : List MilvusComponent → MilvusSpec → MilvusSpec
stop_components [] spec = spec
stop_components (c ∷ cs) spec = stop_components cs (set_or_keep c (pos 0) spec)

-- The replicas that startMilvus restores for a workload.
unfoldable pub recorded_replicas :
    MilvusReplicas → Option GroupReplicas → MilvusComponent → Result ℤ
unfolding get_deployment_group_name kind_name
recorded_replicas plain groups c = elim c.group [
  | none ↦ ok (to_int32 (plain c.kind))
  | some g ↦ elim (lookup (kind_name c.kind) (groups_or_empty groups)) [
    | none ↦ err (errorf "replicas before upgrade not recorded for deployment group %s")
    | some snapshots ↦ elim (lookup (get_deployment_group_name c) snapshots) [
      | none ↦ err (errorf "replicas before upgrade not recorded for deployment group %s")
      | some r ↦ ok r
    ]
  ]
]

-- The loop of startMilvus, which keeps what it set before an error.
unfoldable pub restore_components :
    MilvusReplicas
    → Option GroupReplicas
    → List MilvusComponent
    → MilvusSpec
    → Option Error × MilvusSpec
unfolding recorded_replicas
restore_components plain groups [] spec = (none, spec)
restore_components plain groups (c ∷ cs) spec = elim (recorded_replicas plain groups c) [
  | err e ↦ (some e, spec)
  | ok r ↦ restore_components plain groups cs (set_or_keep c r spec)
]

-- stopMilvus's guard: a replica count of -1 belongs to an external HPA.
unfoldable pub has_external_hpa : MilvusSpec → List MilvusComponent → Bool
unfolding get_replicas
has_external_hpa spec [] = false
has_external_hpa spec (c ∷ cs) =
    let rest = has_external_hpa spec cs in
    elim (get_replicas c spec) [ none ↦ rest | some r ↦ (r ==ℤ negsuc 0) || rest ]

-- A workload that keeps isMilvusStopping from holding.
unfoldable pub all_stopping : Bool → MilvusSpec → List MilvusComponent → Bool
unfolding get_replicas is_hpa_enabled
all_stopping marked spec [] = true
all_stopping marked spec (c ∷ cs) =
    let rest = all_stopping marked spec cs in
    if is_hpa_enabled c spec && not marked
    then false
    else elim (get_replicas c spec) [ none ↦ false | some r ↦ (r ==ℤ pos 0) && rest ]

unfoldable pub deployments_stopped : List Deployment → Bool
deployments_stopped [] = true
deployments_stopped (d ∷ ds) =
    let rest = deployments_stopped ds in
    if ltb d.status.observed_generation d.generation then false else elim d.replicas [
      | none ↦ false
      | some r ↦ not (ltb_ℤ (pos 0) r || ltb_ℤ (pos 0) d.status.replicas) && rest
    ]

module _ {W : Type 0} (srv : Server W) where
  abbrev pub workloads : Milvus → List MilvusComponent
  workloads m = get_component_workloads_by_spec srv.newer_than_2_6 m.spec

  abbrev pub with_status : Job W → UpgradeStatus → Job W
  with_status j st = record j { upgrade = record (j.upgrade) { status = st } }

  unfoldable pub record_old_info : Job W → Job W
  unfolding record_components get_component_workloads_by_spec
  record_old_info j =
      let st = j.upgrade.status in
      let record_plain = is_nil st.replicas_before_upgrade in
      let record_groups = is_nil st.group_replicas_before_upgrade in
      let image =
        if str_eq st.source_image "" then j.milvus.spec.components.image else st.source_image in
      let (plain, groups) =
        record_components j.milvus.spec record_plain record_groups (workloads j.milvus)
          (start_record no_replicas st.replicas_before_upgrade)
          (start_record [] st.group_replicas_before_upgrade) in
      if not record_plain && not record_groups
      then j
      else with_status j (record st {
        replicas_before_upgrade = plain;
        group_replicas_before_upgrade = groups;
        source_image = image;
      })

  -- The first owner of the kind MilvusCluster.
  unfoldable pub find_alpha_owner : List (String × String) → Option String
  find_alpha_owner [] = none
  find_alpha_owner ((kind, name) ∷ os) =
      let rest = find_alpha_owner os in if str_eq kind "MilvusCluster" then some name else rest

  abbrev with_world : Job W → W → Job W
  with_world j w = record j { world = w }

  unfoldable pub annotate_alpha_cr : String → Effect W
  unfolding find_alpha_owner
  annotate_alpha_cr value j = elim (find_alpha_owner j.milvus.owners) [
    | none ↦ (none, j)
    | some name ↦
        let (answer, w) = srv.get_alpha name j.world in
        elim answer [
          | err e ↦ (some e, with_world j w)
          | ok annotations ↦
              let (e, w') = srv.update_alpha name (insert upgrade_annotation value annotations) w in
              (e, with_world j w')
        ]
  ]

  abbrev pub wrap_effect : String → Option Error × Job W → Option Error × Job W
  wrap_effect text (e, j) = (wrap_error text e, j)

  -- `cli.Update(ctx, milvus)`.
  unfoldable pub update : Effect W
  update j = let (e, w) = srv.update_milvus j.milvus j.world in (e, with_world j w)

  abbrev pub with_milvus : Job W → Milvus → Job W
  with_milvus j m = record j { milvus = m }

  unfoldable pub stop_milvus : Effect W
  unfolding has_external_hpa stop_components annotate_alpha_cr update
      get_component_workloads_by_spec
  stop_milvus j =
      if has_external_hpa j.milvus.spec (workloads j.milvus)
      then (
        some (
            errorf
              "cannot stop externally managed workload %s: suspend its HPA and set replicas to a static value before MilvusUpgrade"),
        j,
      )
      else then_do (wrap_effect "annotate alpha cr" (annotate_alpha_cr "upgrading" j)) (λ k.
        update (
          with_milvus k (record (k.milvus) {
            spec = stop_components (workloads j.milvus) k.milvus.spec;
            annotations = insert upgrade_stopping_annotation "true" k.milvus.annotations;
          })))

  unfoldable pub start_milvus : Effect W
  unfolding restore_components annotate_alpha_cr update get_component_workloads_by_spec
  start_milvus j =
      let st = j.upgrade.status in
      let plain = replicas_or_none st.replicas_before_upgrade in
      let i = with_status j (record st { replicas_before_upgrade = some plain }) in
      let (e, spec) =
        restore_components plain st.group_replicas_before_upgrade (workloads j.milvus)
          j.milvus.spec in
      then_do (e, with_milvus i (record (i.milvus) { spec = spec }))
        (λ k.
          let annotations = delete upgrade_stopping_annotation k.milvus.annotations in
          let started = record (k.milvus) {
            annotations = delete stopped_at_annotation annotations;
          } in
          then_do (wrap_effect "restore replicas" (update (with_milvus k started)))
            (λ l. wrap_effect "annotate alpha cr" (annotate_alpha_cr "upgraded" l)))

  unfoldable pub is_milvus_stopping : Job W → Bool
  unfolding all_stopping is_upgrade_stopping get_component_workloads_by_spec
  is_milvus_stopping j =
      all_stopping (is_upgrade_stopping j.milvus) j.milvus.spec (workloads j.milvus)

  -- The time.Minute of the default session, in nanoseconds. A text that is no time counts as long
  -- ago.
  unfoldable pub is_components_deregistered : String → W → Bool
  is_components_deregistered stopped_at w = elim (srv.parse_time stopped_at) [
    | none ↦ true
    | some t ↦ ltb (60 * 1000000000) (srv.now w - t)
  ]

  unfoldable pub mark_stopped_at_annotation : Effect W
  unfolding update
  mark_stopped_at_annotation j = update (
      with_milvus j (record (j.milvus) {
        annotations =
            insert stopped_at_annotation (srv.format_time (srv.now j.world)) j.milvus.annotations;
      }))

  -- The deployments of the instance that are not its own are left out by the label selector of the
  -- server's answer.
  unfoldable pub is_milvus_stopped : Job W → Result Bool × Job W
  unfolding is_components_deregistered deployments_stopped mark_stopped_at_annotation
  is_milvus_stopped j = elim (lookup stopped_at_annotation j.milvus.annotations) [
    | some stopped_at ↦ (ok (is_components_deregistered stopped_at j.world), j)
    | none ↦
        let (answer, w) = srv.list_deployments j.milvus.name j.world in
        elim answer [
          | err e ↦ (err (wrap "list milvus deployments" e), with_world j w)
          | ok ds ↦
              let (e, k) = mark_stopped_at_annotation (with_world j w) in
              if not (deployments_stopped ds)
              then (ok false, with_world j w)
              else elim e [ none ↦ (ok false, k) | some x ↦ (err x, k) ]
        ]
  ]
