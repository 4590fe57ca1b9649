-- ===== src/Rollout/Ends.antt =====
-- How a property of what the server has stored passes through the controller's control flow.
use milvus_operator.Base.{
  String, Option, none, some, Error, Result, ok, err, ◌≡◌, refl, then_do, with_value, wrapped,
  wrapped_value, Action,
}
use milvus_operator.Rollout.Server.{Job}
use milvus_operator.Rollout.Updates.{requeued}

-- `P` holds of the world that is left, and `K` of the job if there is no error.
abbrev pub Ends : {W : Type 0} → (W → Type 0) → (Job W → Type 0) → Option Error × Job W → Type 0
Ends P K r = P r.1.world × (r.0 ≡ none → K r.1)

module _ {W : Type 0} (P : W → Type 0) where
  pub then_do-Ends :
      (K L : Job W → Type 0) (r : Option Error × Job W) (f : Action (Job W))
      → Ends P K r
      → ((j : Job W) → P j.world → K j → Ends P L (f j))
      → Ends P L (then_do r f)
  then_do-Ends K L (some e, j) f h g = (h.0, λ q. cc)
  then_do-Ends K L (none, j) f h g = g j h.0 (h.1 refl)

  pub wrapped-Ends :
      (K : Job W → Type 0) (t : String) (r : Option Error × Job W)
      → Ends P K r
      → Ends P K (wrapped t r)
  wrapped-Ends K t (some e, j) h = (h.0, λ q. cc)
  wrapped-Ends K t (none, j) h = h

  pub requeued-Ends :
      (K L : Job W → Type 0) (r : Option Error × Job W) → Ends P K r → Ends P L (requeued r)
  requeued-Ends K L (some e, j) h = (h.0, λ q. cc)
  requeued-Ends K L (none, j) h = (h.0, λ q. cc)

  pub with_value-Ends :
      {A : Type 0} (L : Job W → Type 0) (r : Result A × Job W) (f : A → Action (Job W))
      → P r.1.world
      → ((a : A) → r.0 ≡ ok a → Ends P L (f a r.1))
      → Ends P L (with_value r f)
  with_value-Ends L (err e, j) f h g = (h, λ q. cc)
  with_value-Ends L (ok a, j) f h g = g a refl

  pub wrapped_value-Ends :
      {A : Type 0} (L : Job W → Type 0) (t : String) (r : Result A × Job W) (f : A → Action (Job W))
      → P r.1.world
      → ((a : A) → r.0 ≡ ok a → Ends P L (f a r.1))
      → Ends P L (with_value (wrapped_value t r) f)
  wrapped_value-Ends L t (err e, j) f h g = (h, λ q. cc)
  wrapped_value-Ends L t (ok a, j) f h g = g a refl
