-- ===== src/Groups.antt =====
-- Tasks that run in parallel: Group of pkg/controllers/groups.go and ParallelGroupRunner of
-- group_runner.go. What the goroutines add to the errors comes in any order.
pub mod Order
use milvus_operator.Base.{
  String, Bool, true, false, Option, none, some, List, [], ◌∷◌, map, find?, if◌then◌else◌, Error,
  errorf, wrap, wrap_error, is_requeue,
}

-- What a task ends with; outside the debug mode a panic is recovered.
pub data Outcome : Type 0 where
  done : Outcome
  failed : Error → Outcome
  panicked : String → Outcome

-- The errors that `Go` adds.
unfoldable pub collect : List Outcome → List Error
collect [] = []
collect (done ∷ os) = collect os
collect (failed e ∷ os) = e ∷ collect os
collect (panicked text ∷ os) = errorf text ∷ collect os

abbrev pub first_or : Option Error → Error → Error
first_or none e = e
first_or (some r) e = r

-- Wait, with `join` for the text of all errors: the first that asks to be called again wins.
unfoldable pub wait : (List Error → String) → List Error → Option Error
wait join [] = none
wait join (e ∷ es) = some (first_or (find? is_requeue (e ∷ es)) (errorf (join (e ∷ es))))

-- Run and RunDiffArgs, on what their tasks end with, in the order in which they end.
unfoldable pub run : (List Error → String) → String → List Outcome → Option Error
unfolding wait collect
run join text [] = none
run join text (o ∷ os) = wrap_error text (wait join (collect (o ∷ os)))
