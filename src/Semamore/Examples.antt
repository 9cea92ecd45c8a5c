-- ===== src/Semamore/Examples.antt =====
-- A run of two threads on a semaphore, and the theorems about it.
use machine_project.Prelude.{ℕ, ◌≤◌, ◌≡◌, refl, List, [], ◌∷◌, some, arith}
use machine_project.Semamore.{
  semm_init, semm_wait, semm_post, wait, post, attempt, Thread, awake, asleep, wake, blocks, passes,
  Reaches, stays, goes,
}
use machine_project.Semamore.Sleepers.{IsKept, AllKept, semamore_keeps, no_deadlock}

abbrev poster : Thread
poster = awake (post ∷ [])

abbrev two_threads : List Thread
two_threads = awake (wait ∷ wait ∷ []) ∷ poster ∷ []

-- The first thread waits twice, and sleeps in its second call.
two_waits :
    Reaches
      (record { value = 1; max_val = 2 })
      two_threads
      (record { value = 0; max_val = 2 })
      (asleep wait [] ∷ poster ∷ [])
unfolding attempt semm_wait wake
two_waits =
    goes (passes wait (wait ∷ []) [] (poster ∷ []) refl)
      (goes (blocks wait [] [] (poster ∷ []) refl) stays)

two_threads-AllKept : AllKept (record { value = 1; max_val = 2 }) two_threads
unfolding AllKept IsKept
two_threads-AllKept = (tt, (tt, tt))

post_wakes : attempt post (semm_init 0 2) ≡ some (semm_init 1 2)
unfolding attempt semm_post semm_init
post_wakes = refl

semamore_keeps_example :
    (0 ≤ 2)
    × (◌≡◌ {A = ℕ} 2 2)
    × AllKept (record { value = 0; max_val = 2 }) (asleep wait [] ∷ poster ∷ [])
semamore_keeps_example = semamore_keeps two_waits (omega arith) two_threads-AllKept

no_deadlock_example : ¬ (asleep wait [] ∷ poster ∷ [] ≡ asleep wait [] ∷ asleep post [] ∷ [])
no_deadlock_example =
    no_deadlock [] (poster ∷ []) (asleep wait [] ∷ []) [] [] [] two_waits (omega arith)
      two_threads-AllKept (omega arith)
