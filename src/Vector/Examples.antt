-- ===== src/Vector/Examples.antt =====
-- Runs of vector.c on vectors of numbers: 0 is NULL, a copy is 100 more, and a destructor leaves the
-- number that it destroyed.
use machine_project.Prelude.{
  ℕ, ◌+◌, ◌≡◌, refl, ◌==◌, Bool, true, List, [], ◌∷◌, Option, none, some, Outcome, ok, ◌>>=◌, arith,
}
use machine_project.Vector
use machine_project.Vector.{
  Vector, vector_create, vector_push_back, vector_pop_back, vector_insert, vector_erase,
  vector_resize, vector_clear, vector_get, vector_set, vector_reserve, vector_destroy, enlarge,
  read, write, reallocate, shift_up, shift_down, clear, destroy_range, fill,
}
use machine_project.Vector.Capacity.{grow, get_new_capacity}
use machine_project.Vector.Refine.{Holds}
use machine_project.Vector.Push.{Leaves, vector_push_back_refines}
use machine_project.Vector.Edit.{vector_insert_refines, vector_erase_refines}
use machine_project.Vector.Access.{vector_get_refines}

is_zero : ℕ → Bool
is_zero n = n == 0

abbrev any : ℕ → Bool
any n = true

abbrev copy : ℕ → ℕ
copy n = n + 100

abbrev gone : ℕ → ℕ
gone n = n

abbrev of_cells : List (Option ℕ) → ℕ → Vector ℕ ℕ
of_cells cells size = record {
  copy_constructor = copy;
  destructor = gone;
  default_constructor = 42;
  array = cells;
  size = size;
  capacity = 4;
  events = [];
}

-- 5, 6 and a cell that was written before
abbrev two : Vector ℕ ℕ
two = of_cells (some 5 ∷ some 6 ∷ some 9 ∷ none ∷ []) 2

-- 5, 6, 7 and a cell that was never written
abbrev three : Vector ℕ ℕ
three = of_cells (some 5 ∷ some 6 ∷ some 7 ∷ none ∷ []) 3

abbrev full : Vector ℕ ℕ
full = of_cells (some 5 ∷ some 6 ∷ some 7 ∷ some 8 ∷ []) 4

two-Holds : Holds two (5 ∷ 6 ∷ []) (some 9 ∷ none ∷ [])
two-Holds = record {
  cells = refl;
  count = refl;
  room = refl;
  positive = omega arith;
  small = omega arith;
}

three-Holds : Holds three (5 ∷ 6 ∷ 7 ∷ []) (none ∷ [])
three-Holds = record {
  cells = refl;
  count = refl;
  room = refl;
  positive = omega arith;
  small = omega arith;
}

full-Holds : Holds full (5 ∷ 6 ∷ 7 ∷ 8 ∷ []) []
full-Holds = record {
  cells = refl;
  count = refl;
  room = refl;
  positive = omega arith;
  small = omega arith;
}

vector_push_back_refines_example :
    (w : Vector ℕ ℕ) × (vector_push_back is_zero any full 1 ≡ ok w)
    × Leaves full (5 ∷ 6 ∷ 7 ∷ 8 ∷ 101 ∷ []) [] w
unfolding is_zero
vector_push_back_refines_example =
    vector_push_back_refines is_zero any (λ n. refl) full (5 ∷ 6 ∷ 7 ∷ 8 ∷ []) [] 1 full-Holds
      (omega arith) refl

vector_insert_refines_example :
    (w : Vector ℕ ℕ) × (vector_insert is_zero any full 1 3 ≡ ok w)
    × Leaves full (5 ∷ 103 ∷ 106 ∷ 107 ∷ 108 ∷ []) [] w
unfolding is_zero
vector_insert_refines_example =
    vector_insert_refines is_zero any (λ n. refl) full (5 ∷ []) (6 ∷ 7 ∷ 8 ∷ []) [] 3 full-Holds
      (omega arith) refl

vector_erase_refines_example :
    (w : Vector ℕ ℕ) × (vector_erase two 0 ≡ ok w) × Leaves two (106 ∷ []) (5 ∷ []) w
vector_erase_refines_example = vector_erase_refines two [] 5 (6 ∷ []) 9 (none ∷ []) two-Holds

vector_get_refines_example : vector_get three 1 ≡ ok 6
vector_get_refines_example = vector_get_refines three (5 ∷ []) 6 (7 ∷ []) (none ∷ []) three-Holds

-- A script of calls from an empty vector: what is left, and the destructors run.
script : Outcome (Vector ℕ ℕ)
script = do
  v ← vector_create any 56 copy gone 42 none none none
  v ← vector_push_back is_zero any v 1
  v ← vector_push_back is_zero any v 2
  v ← vector_insert is_zero any v 1 3
  v ← vector_pop_back v
  v ← vector_erase v 0
  vector_resize is_zero any v 3

script_runs :
    (script >>= λ v. vector_destroy is_zero (some v)) ≡ ok (202 ∷ 101 ∷ 203 ∷ 42 ∷ 42 ∷ [])
unfolding script is_zero vector_create vector_push_back vector_insert vector_pop_back vector_erase
    vector_resize vector_destroy clear destroy_range enlarge read write reallocate shift_up
    shift_down fill get_new_capacity grow Vector.Defs.fit
script_runs = refl
