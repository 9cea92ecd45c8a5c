-- ===== src/Parmake.antt =====
-- parallel_make/parmake.c: the order in which the rules are taken, and the state of a target. The graph of
-- the parser is a function that gives the neighbours of a goal, the targets that it depends on.
pub mod Order
mod Examples
use machine_project.Prelude.{
  ℕ, zero, suc, ◌==◌, ◌&&◌, not, if◌then◌else◌, Bool, true, false, List, [], ◌∷◌, ◌++◌, Outcome, ok,
  hang, ◌>>=◌,
}

pub data TargetState : Type 0 where
  target_error target_cycle target_ready target_skipped target_done : TargetState

unfoldable pub is_member : ℕ → List ℕ → Bool
is_member g [] = false
is_member g (x ∷ xs) = let later = is_member g xs in if x == g then true else later

-- The counter of a goal is 1 as soon as the goal is in the vector of the rules.
unfoldable pub add_rule : ℕ → List ℕ → List ℕ
add_rule goal rules = if is_member goal rules then rules else rules ++ goal ∷ []

-- `depth` bounds the calls inside each other: on a cycle the code calls itself without end.
unfoldable pub help_get_rules : (ℕ → List ℕ) → ℕ → List ℕ → List ℕ → Outcome (List ℕ)
help_get_rules neighbors depth [] rules = ok rules
help_get_rules neighbors zero (goal ∷ goals) rules = hang
help_get_rules neighbors (suc depth) (goal ∷ goals) rules =
    help_get_rules neighbors depth (neighbors goal) rules >>= λ inner.
    help_get_rules neighbors (suc depth) goals (add_rule goal inner)

-- The state of the first neighbour that is not done.
unfoldable pub first_open : List TargetState → TargetState
first_open [] = target_ready
first_open (target_done ∷ states) = first_open states
first_open (state ∷ states) = state

unfoldable pub is_empty : List TargetState → Bool
is_empty [] = true
is_empty (state ∷ states) = false

-- `found` and `has_stat` are whether access and stat find a file with the name of the goal.
unfoldable pub get_status : Bool → Bool → List TargetState → TargetState
get_status found has_stat states =
    if found
    then (if not (is_empty states) && not has_stat then target_error else target_skipped)
    else first_open states
