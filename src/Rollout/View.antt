-- ===== src/Rollout/View.antt =====
-- What the operator relies on of the API server and the libraries while the two deployments of a
-- component exist, seen as one Milvus resource and two deployments.
use milvus_operator.Base.{
  false, none, some, [], ◌∷◌, ◌≡◌, ◌⊎◌, Error, ok, err, str_eq, if◌then◌else◌,
}
use milvus_operator.Base.Int.{ℤ}
use milvus_operator.Api.Labels.{StringMap}
use milvus_operator.Deployment.{Deployment}
use milvus_operator.Rollout.{Milvus}
use milvus_operator.Rollout.Server.{Server, Library}

pub record View : Type 0 where
  pub milvus : Milvus
  pub first : Deployment
  pub second : Deployment

-- An update finds its object by name.
unfoldable pub store : Deployment → View → View
store d v =
    if str_eq d.name v.first.name
    then record v { first = d }
    else if str_eq d.name v.second.name
    then record v { second = d }
    else v

-- `view` is what the server has stored. Reads answer it or an error, a failed update stores
-- nothing, and nobody else writes the three objects.
pub record ServerLaws {W : Type 0} (srv : Server W) (view : W → View) : Type 0 where
  pub deployments_kept :
      (labels : StringMap) (w : W) → view (srv.list_deployments labels w).1 ≡ view w
  pub deployments_listed :
      (labels : StringMap) (w : W)
      → ((srv.list_deployments labels w).0 ≡ ok ((view w).first ∷ (view w).second ∷ []))
        ⊎ ((e : Error) × ((srv.list_deployments labels w).0 ≡ err e))
  pub pods_kept : (labels : StringMap) (w : W) → view (srv.list_pods labels w).1 ≡ view w
  pub deployment_updated :
      (d : Deployment) (w : W)
      → (srv.update_deployment d w).0 ≡ none
      → view (srv.update_deployment d w).1 ≡ store d (view w)
  pub deployment_refused :
      (d : Deployment) (w : W) (e : Error)
      → (srv.update_deployment d w).0 ≡ some e
      → view (srv.update_deployment d w).1 ≡ view w
  pub milvus_updated :
      (m : Milvus) (w : W)
      → (srv.update_milvus m w).0 ≡ none
      → view (srv.update_milvus m w).1 ≡ record (view w) { milvus = m }
  pub milvus_refused :
      (m : Milvus) (w : W) (e : Error)
      → (srv.update_milvus m w).0 ≡ some e
      → view (srv.update_milvus m w).1 ≡ view w

-- `strconv.Itoa` writes at least one digit.
abbrev pub WritesDigits : Library → Type 0
WritesDigits lib = (n : ℤ) → str_eq (lib.itoa n) "" ≡ false
