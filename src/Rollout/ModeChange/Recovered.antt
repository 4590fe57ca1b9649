-- ===== src/Rollout/ModeChange/Recovered.antt =====
-- What RecoverDeploy of pkg/controllers/deploy_mode_changer.go makes of the old deployment.
use milvus_operator.Base.{Bool, true, false, not, ◌&&◌, ◌≡◌, refl, sym, ap, ◌∙◌, str_eq, eq_iff}
use milvus_operator.Base.Int.{pos}
use milvus_operator.Api.Labels.{
  get, get-insert, get-insert_same, component_group_id_label, component_current_group_id_label,
}
use milvus_operator.Api.Spec.{
  ComponentKind, mix_coord, root_coord, data_coord, query_coord, index_coord, data_node, query_node,
  index_node, streaming_node, proxy, standalone, cdc,
}
use milvus_operator.Deployment.{Deployment}
use milvus_operator.Component.{MilvusComponent, kind_name, get_deployment_group_name}
use milvus_operator.Rollout.{
  Milvus, get_label_group_id, set_group_id_str, get_current_group_id, set_current_group_id_str,
}
use milvus_operator.Rollout.Metadata.{matches_deployment_group, deployment_group_label}
use milvus_operator.Rollout.Server.{Library}
use milvus_operator.Rollout.Store.{is_slot, is_old, state_key, component_deploy_is_current_group}
use milvus_operator.Rollout.ModeChange.{recovered_deploy, in_group_zero}

-- The label of a group and that of a rollout's slot are different keys.
keys_differ :
    (k : ComponentKind)
    → str_eq (component_group_id_label (kind_name k)) deployment_group_label ≡ false
unfolding component_group_id_label kind_name
keys_differ mix_coord = refl
keys_differ root_coord = refl
keys_differ data_coord = refl
keys_differ query_coord = refl
keys_differ index_coord = refl
keys_differ data_node = refl
keys_differ query_node = refl
keys_differ index_node = refl
keys_differ streaming_node = refl
keys_differ proxy = refl
keys_differ standalone = refl
keys_differ cdc = refl

both : (a b : Bool) → (a && b) ≡ true → a ≡ true
both true b h = refl
both false b h = h

and_not : (a b : Bool) → a ≡ true → b ≡ false → (a && not b) ≡ true
and_not a b p q = rw (p, q) refl

module _ (lib : Library) (c : MilvusComponent) (d : Deployment) (m : Milvus) where
  recovered_id :
      get (component_group_id_label (kind_name c.kind)) (recovered_deploy lib c d).labels
      ≡ lib.itoa (pos 0)
  unfolding recovered_deploy in_group_zero set_group_id_str
  recovered_id = get-insert_same _ (lib.itoa (pos 0)) d.labels

  recovered_group :
      get deployment_group_label (recovered_deploy lib c d).labels
      ≡ get deployment_group_label d.labels
  unfolding recovered_deploy in_group_zero set_group_id_str
  recovered_group =
      get-insert _ deployment_group_label (lib.itoa (pos 0)) d.labels ∙ rw (keys_differ c.kind) refl

  recovered_matches :
      matches_deployment_group c d.labels ≡ true
      → matches_deployment_group c (recovered_deploy lib c d).labels ≡ true
  unfolding matches_deployment_group
  recovered_matches h = ap (λ t. str_eq t (get_deployment_group_name c)) recovered_group ∙ h

  -- The old deployment that has been saved and made again is a deployment that rollouts own, and
  -- the current one once group 0 has been marked as current.
  pub recovered_deploy-slot :
      is_old c d ≡ true
      → str_eq (lib.itoa (pos 0)) "" ≡ false
      → (is_slot c (recovered_deploy lib c d) ≡ true)
        × (component_deploy_is_current_group lib c
              (set_current_group_id_str m (state_key lib c) (lib.itoa (pos 0)))
              (recovered_deploy lib c d)
            ≡ true)
  unfolding is_old is_slot component_deploy_is_current_group get_label_group_id get_current_group_id
      set_current_group_id_str
  recovered_deploy-slot old digits = (
    and_not _ _ (recovered_matches (both _ _ old)) (ap (λ t. str_eq t "") recovered_id ∙ digits),
    (eq_iff _ _).1 (
        recovered_id
        ∙ sym
            (get-insert_same (component_current_group_id_label (state_key lib c)) _ m.annotations)),
  )
