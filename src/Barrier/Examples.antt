-- ===== src/Barrier/Examples.antt =====
-- Two threads at a barrier, and the theorem about it.
use machine_project.Prelude.{◌+◌, ◌*◌, ◌≡◌, refl, true, false, List, [], ◌∷◌, none, some, arith}
use machine_project.Barrier.{
  Barrier, barrier_init, is_last, enter, leave, serial_thread, other_thread, Comer, outside,
  blocked, rouse, Arrivals, arrives, completes, leaves, wakes_early, ends, continues,
}
use machine_project.Barrier.Rounds.{entries, rounds, IsOpen, barrier_rounds}

abbrev fresh : Barrier
fresh = record { n_threads = 2; count = 0; times_used = 0 }

abbrev two_comers : List Comer
two_comers = outside none ∷ outside none ∷ []

initialised : barrier_init true true 2 ≡ some fresh
unfolding barrier_init
initialised = refl

-- Both threads come, and both get PTHREAD_BARRIER_SERIAL_THREAD.
a_round :
    Arrivals false fresh two_comers
      (record { n_threads = 2; count = 0; times_used = 1 })
      (outside (some serial_thread) ∷ outside (some serial_thread) ∷ [])
unfolding enter is_last rouse leave
a_round = continues (arrives none [] (outside none ∷ []) refl) (
    continues (completes none (blocked 0 ∷ []) [] refl)
      (continues (leaves 0 [] (outside (some serial_thread) ∷ [])) ends))

-- A wait that ends early lets a thread through before the other one comes.
early :
    Arrivals true fresh two_comers
      (record { n_threads = 2; count = 1; times_used = 0 })
      (outside (some other_thread) ∷ outside none ∷ [])
unfolding enter is_last leave
early = continues (arrives none [] (outside none ∷ []) refl) (
    continues (wakes_early 0 [] (outside none ∷ []) refl)
      (continues (leaves 0 [] (outside none ∷ [])) ends))

fresh-IsOpen : IsOpen 2 fresh
unfolding IsOpen
fresh-IsOpen = (refl, omega arith)

barrier_rounds_example :
    IsOpen 2 (record { n_threads = 2; count = 1; times_used = 0 })
    × (1 + rounds early * 2 ≡ 0 + entries early)
barrier_rounds_example = barrier_rounds 2 (omega arith) early fresh-IsOpen
