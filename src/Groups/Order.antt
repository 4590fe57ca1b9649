-- ===== src/Groups/Order.antt =====
-- What a group's answer depends on: not on the order in which its tasks end.
use milvus_operator.Base.{
  String, Bool, true, false, ◌||◌, Option, none, some, List, [], ◌∷◌, any, find?, ◌≡◌, refl, ◌∙◌,
  Error, is_requeue, wrap_error, All, if◌then◌else◌,
}
use milvus_operator.Groups.{Outcome, done, failed, panicked, collect, first_or, wait, run}

abbrev pub asks_requeue : Option Error → Bool
asks_requeue none = false
asks_requeue (some e) = is_requeue e

abbrev pub task_asks : Outcome → Bool
task_asks (failed e) = is_requeue e
task_asks _ = false

first_or-pick :
    (b : Bool) (e t : Error) (o : Option Error) (rest : Bool)
    → is_requeue e ≡ b
    → is_requeue (first_or o t) ≡ rest
    → is_requeue (first_or (if b then some e else o) t) ≡ (b || rest)
first_or-pick true e t o rest p q = p
first_or-pick false e t o rest p q = q

find-any :
    (es : List Error) (t : Error)
    → is_requeue t ≡ false
    → is_requeue (first_or (find? is_requeue es) t) ≡ any is_requeue es
find-any [] t h = h
find-any (e ∷ es) t h = first_or-pick (is_requeue e) e t _ _ refl (find-any es t h)

collect-any : (os : List Outcome) → any is_requeue (collect os) ≡ any task_asks os
unfolding collect
collect-any [] = refl
collect-any (done ∷ os) = collect-any os
collect-any (failed e ∷ os) = rw (collect-any os) refl
collect-any (panicked t ∷ os) = collect-any os

wait-any :
    (join : List Error → String) (text : String) (es : List Error)
    → asks_requeue (wrap_error text (wait join es)) ≡ any is_requeue es
unfolding wait
wait-any join text [] = refl
wait-any join text (e ∷ es) = find-any (e ∷ es) _ refl

-- A group asks to be called again exactly when one of its tasks does, whichever tasks fail beside
-- it and in whichever order they end.
pub run-requeue :
    (join : List Error → String) (text : String) (os : List Outcome)
    → asks_requeue (run join text os) ≡ any task_asks os
unfolding run
run-requeue join text [] = refl
run-requeue join text (o ∷ os) = wait-any join text (collect (o ∷ os)) ∙ collect-any (o ∷ os)

collect-done : (os : List Outcome) → collect os ≡ [] → All (λ o. o ≡ done) os
unfolding collect
collect-done [] h = tt
collect-done (done ∷ os) h = (refl, collect-done os h)
collect-done (failed e ∷ os) h = absurd cc
collect-done (panicked t ∷ os) h = absurd cc

wait-none :
    (join : List Error → String) (text : String) (es : List Error)
    → wrap_error text (wait join es) ≡ none
    → es ≡ []
unfolding wait
wait-none join text [] h = refl
wait-none join text (e ∷ es) h = absurd cc

-- A group that reports no error has had no task that failed or panicked.
run-none :
    (join : List Error → String) (text : String) (os : List Outcome)
    → run join text os ≡ none
    → All (λ o. o ≡ done) os
unfolding run
run-none join text [] h = tt
run-none join text (o ∷ os) h = collect-done (o ∷ os) (wait-none join text (collect (o ∷ os)) h)
