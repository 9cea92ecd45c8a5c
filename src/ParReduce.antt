-- ===== src/ParReduce.antt =====
-- teaching_threads/par_reduce.c: the reduction of an array by several threads.
-- Each thread writes only its own `data[i].returnit`, and the main thread reads it after the join, so
-- the schedule does not show: the threads' results are computed one after another. `reduce` (of
-- reduce.h, which is not in the repository) is a parameter. Allocation and `pthread_create` succeed.
pub mod Slices
pub mod Refine
mod Examples
use machine_project.Prelude.{
  ℕ, zero, suc, ◌+◌, ◌-◌, ◌*◌, ◌/◌, ◌%◌, ◌^◌, ltb, ◌==◌, ◌||◌, List, [], ◌∷◌, length, take, drop,
  if◌then◌else◌, Outcome, ok, fault, ◌>>=◌,
}

-- a + b - 1 on `size_t`
abbrev pub add_pred : ℕ → ℕ → ℕ
add_pred a b = ((a + b) % 2 ^ 64 + 2 ^ 64 - 1) % 2 ^ 64

-- A division by zero is undefined.
abbrev pub div_size : ℕ → ℕ → Outcome ℕ
div_size a b = if b == 0 then fault else ok (a / b)

-- `one`, the length of a slice, and `two`, the number of threads.
unfoldable pub slice_sizes : ℕ → ℕ → Outcome (ℕ × ℕ)
slice_sizes length num_threads = do
  one ← div_size (add_pred length num_threads) num_threads
  two ← div_size (add_pred length one) one
  ok (one, two)

module _ {A : Type 0} where
  -- The loop of `par_reduce_helper`, over the slice that the thread was given.
  unfoldable pub par_reduce_helper : (A → A → A) → A → List A → A
  par_reduce_helper reducer_func returnit [] = returnit
  par_reduce_helper reducer_func returnit (x ∷ xs) =
      par_reduce_helper reducer_func (reducer_func returnit x) xs

  -- `data[i].list` and `data[i].length`: the elements from `i * one` to the smaller of
  -- `(i + 1) * one` and the length.
  unfoldable pub slice : ℕ → List A → ℕ → List A
  slice one list i =
      let start = i * one % 2 ^ 64 in
      let end = (i + 1) * one % 2 ^ 64 in
      let end' = if ltb (length list) end then length list else end in
      take ((2 ^ 64 + end' - start) % 2 ^ 64) (drop start list)

  -- The slices of the threads `i`, `i + 1`, … `i + n - 1`, in the order of the first loop.
  unfoldable pub slices : ℕ → List A → ℕ → ℕ → List (List A)
  slices one list zero i = []
  slices one list (suc n) i = slice one list i ∷ slices one list n (i + 1)

  -- The second loop: joins the threads in order and reduces their results.
  unfoldable pub join_threads : (A → A → A) → A → A → List (List A) → A
  unfolding par_reduce_helper
  join_threads reducer_func base_case returnit [] = returnit
  join_threads reducer_func base_case returnit (s ∷ ss) =
      join_threads reducer_func base_case
        (reducer_func returnit (par_reduce_helper reducer_func base_case s)) ss

module _ {A : Type 0} (reduce : List A → (A → A → A) → A → A) where
  unfoldable pub par_reduce : List A → (A → A → A) → A → ℕ → Outcome A
  unfolding slice_sizes slices slice join_threads
  par_reduce list reducer_func base_case num_threads =
      if ltb num_threads 2 || (length list == 0)
      then ok (reduce list reducer_func base_case)
      else slice_sizes (length list) num_threads >>= λ sizes.
          ok (join_threads reducer_func base_case base_case (slices sizes.0 list sizes.1 0))
