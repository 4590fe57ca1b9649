-- ===== src/Status/Batches.antt =====
-- The loops over all instances: syncUnealthyOrUpdating and syncHealthyUpdated of
-- pkg/controllers/status_cluster.go.
use milvus_operator.Base.{
  ℕ, Bool, true, false, not, ◌&&◌, ◌||◌, Option, none, some, List, [], ◌∷◌, ◌++◌, length, leb,
  Error, wrap_error, Result, ok, err, wrap,
}
use milvus_operator.Status.{healthy, not_reported}
use milvus_operator.Status.Pods.{latest}
use milvus_operator.Status.Syncer.{Instance, conditions_of, is_milvus_condition_true_by_type}

abbrev pub is_healthy : Instance → Bool
is_healthy i = elim i.health [ healthy ↦ true | _ ↦ false ]

abbrev pub is_new : Instance → Bool
is_new i = elim i.health [ not_reported ↦ true | _ ↦ false ]

abbrev pub is_updated : Instance → Bool
is_updated i = is_milvus_condition_true_by_type (conditions_of i) "MilvusUpdated"

-- The negations of the conditions under which the loops pass an instance over.
unfoldable pub is_unhealthy_or_updating : Instance → Bool
unfolding is_milvus_condition_true_by_type
is_unhealthy_or_updating i = not (is_new i || ((is_healthy i && is_updated i) || i.deleting))

unfoldable pub is_healthy_updated : Instance → Bool
unfolding is_milvus_condition_true_by_type
is_healthy_updated i = not (i.deleting || (not (is_healthy i) || not (is_updated i)))

-- `len(argsArray) >= config.MaxConcurrentHealthCheck`.
unfoldable pub is_full : ℕ → List Instance → Bool
is_full bound args = leb bound (length args)

-- `run_group` stands for RunDiffArgs on UpdateStatusRoutine, and `bound` for
-- MaxConcurrentHealthCheck.
module _ {W : Type 0} (run_group : List Instance → W → Option Error × W) (bound : ℕ)
    (chosen : Instance → Bool) where
  unfoldable pub sync_batches : List Instance → List Instance → Option Error → W → Option Error × W
  unfolding is_full
  sync_batches [] args ret w =
      let (e, u) = run_group args w in (wrap_error "UpdateStatus failed" (latest ret e), u)
  sync_batches (i ∷ is) args ret w = elim (chosen i) [
    | false ↦ sync_batches is args ret w
    | true ↦
        let batch = args ++ (i ∷ []) in
        elim (is_full bound batch) [
          | false ↦ sync_batches is batch ret w
          | true ↦ let (e, u) = run_group batch w in sync_batches is [] (latest ret e) u
        ]
  ]

  unfoldable pub sync_instances : Result (List Instance) × W → Option Error × W
  unfolding sync_batches
  sync_instances (err e, w) = (some (wrap "list milvus failed" e), w)
  sync_instances (ok is, w) = sync_batches is [] none w
