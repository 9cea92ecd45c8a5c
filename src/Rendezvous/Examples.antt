-- ===== src/Rendezvous/Examples.antt =====
-- Two short quotes, and the theorem about them.
use machine_project.Prelude.{◌+◌, ◌≤◌, refl, [], ◌∷◌, arith}
use machine_project.Rendezvous.{
  Shared, modifies, waits, ended, modify, modify_A_print_B, modify_B_print_A, Meets, stands,
  first_moves, second_moves, start,
}
use machine_project.Rendezvous.Meeting.{IsText, HasPrinted}
use machine_project.Rendezvous.Progress.{IsGoing, steps, rendezvous_prints}

abbrev at_end : Shared
at_end = record { quote_A = 5 ∷ []; quote_B = 7 ∷ []; sem_a = 1; sem_b = 0 }

-- The first thread prints the quote of the second one, which has still to wait.
first_prints :
    Meets (modifies 0) (modifies 0) (start (6 ∷ []) (8 ∷ [])) (ended (7 ∷ [])) waits at_end
unfolding modify_A_print_B modify_B_print_A modify start
first_prints = first_moves refl (
    first_moves refl (
      first_moves refl (
        second_moves refl
          (second_moves refl (second_moves refl (first_moves refl (first_moves refl stands)))))))

six-IsText : IsText (6 ∷ [])
unfolding IsText
six-IsText = (omega arith, tt)

eight-IsText : IsText (8 ∷ [])
unfolding IsText
eight-IsText = (omega arith, tt)

rendezvous_prints_example :
    (steps first_prints ≤ 1 + 1 + 8)
    × IsGoing (ended (7 ∷ [])) waits at_end
    × HasPrinted (8 ∷ []) (ended (7 ∷ []))
    × HasPrinted (6 ∷ []) waits
rendezvous_prints_example = rendezvous_prints (6 ∷ []) (8 ∷ []) six-IsText eight-IsText first_prints
