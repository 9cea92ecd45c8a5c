-- ===== src/ParReduce/Examples.antt =====
-- Runs of par_reduce.c on a list of five numbers.
use native.Mathlib.Nat.{add_assoc}
use native.Mathlib.Nat.{zero-add}
use machine_project.Prelude.{ℕ, ◌+◌, ◌≡◌, refl, List, [], ◌∷◌, ok, arith}
use machine_project.ParReduce.{par_reduce_helper, slice, slices, par_reduce}
use machine_project.ParReduce.Refine.{par_reduce-eq-reduce}

abbrev five : List ℕ
five = 3 ∷ 1 ∷ 4 ∷ 1 ∷ 5 ∷ []

-- `reduce` as a loop from the left
sequential : List ℕ → (ℕ → ℕ → ℕ) → ℕ → ℕ
sequential xs f b = par_reduce_helper f b xs

slices_of_five : slices 2 five 3 0 ≡ (3 ∷ 1 ∷ []) ∷ (4 ∷ 1 ∷ []) ∷ (5 ∷ []) ∷ []
unfolding slices slice
slices_of_five = refl

par_reduce-eq-reduce_example : par_reduce sequential five ◌+◌ 0 4 ≡ ok (sequential five ◌+◌ 0)
par_reduce-eq-reduce_example =
    par_reduce-eq-reduce ◌+◌ 0 add_assoc zero-add sequential (λ xs. unfold sequential in refl) five
      4 (omega arith) (omega arith)

sum_of_five : par_reduce sequential five ◌+◌ 0 4 ≡ ok 14
unfolding par_reduce sequential
sum_of_five = refl
