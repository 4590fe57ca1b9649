-- ===== src/Base/Errors.antt =====
-- Go errors: sentinels, formatted texts and the API server's answers, and `pkg/errors`.Wrap.
use Prim.Native.String.{String}
use mathlib.Core.Path.{◌≡◌, refl}
use mathlib.Core.Logic.{◌⊎◌, inl, inr}
use mathlib.Core.Bool.{Bool, true, false}
use mathlib.Core.Option.{Option, none, some}

-- `api_not_found` is an error for which `IsNotFound` holds, `api` any other answer of the server;
-- an `errorf` keeps its format and leaves the arguments out.
pub data Error : Type 0 where
  requeue not_found no_last_deployment api_not_found : Error
  api errorf : String → Error
  wrap : String → Error → Error

-- `errors.Is(err, ErrRequeue)`, which looks through wrapping.
abbrev pub is_requeue : Error → Bool
is_requeue requeue = true
is_requeue (wrap s e) = is_requeue e
is_requeue _ = false

-- `kerrors.IsNotFound(err)`, through wrapping too.
abbrev pub is_api_not_found : Error → Bool
is_api_not_found api_not_found = true
is_api_not_found (wrap s e) = is_api_not_found e
is_api_not_found _ = false

-- `errors.Wrap`, which is nil at nil.
abbrev pub wrap_error : String → Option Error → Option Error
wrap_error s none = none
wrap_error s (some e) = some (wrap s e)

-- A function that may return an error, for its effects on a state.
abbrev pub Action {ℓ} : Type ℓ → Type ℓ
Action S = S → Option Error × S

-- `if err != nil { return err }`.
abbrev pub then_do {ℓ} : {S : Type ℓ} → Option Error × S → Action S → Option Error × S
then_do (some e, s) f = (some e, s)
then_do (none, s) f = f s

-- `errors.Wrap` on what an action returns.
abbrev pub wrapped {ℓ} : {S : Type ℓ} → String → Option Error × S → Option Error × S
wrapped text (e, s) = (wrap_error text e, s)

pub data Result {ℓ} (A : Type ℓ) : Type ℓ where
  ok : A → Result A
  err : Error → Result A

-- A call that answers a value or an error, and its caller's `if err != nil { return err }`.
abbrev pub with_value {ℓ} :
    {A : Type ℓ} {S : Type ℓ} → Result A × S → (A → Action S) → Option Error × S
with_value (ok a, s) f = f a s
with_value (err e, s) f = (some e, s)

abbrev pub wrapped_value {ℓ} : {A : Type ℓ} {S : Type ℓ} → String → Result A × S → Result A × S
wrapped_value text (ok a, s) = (ok a, s)
wrapped_value text (err e, s) = (err (wrap text e), s)

pub Result-cases {ℓ} :
    {A : Type ℓ} (r : Result A) → ((e : Error) × (r ≡ err e)) ⊎ ((a : A) × (r ≡ ok a))
Result-cases (ok a) = inr (a, refl)
Result-cases (err e) = inl (e, refl)
