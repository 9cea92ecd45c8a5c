-- ===== src/MiniMemcheck/Examples.antt =====
-- Runs of mini_memcheck.c with an allocator that answers from a table; a header has 32 bytes.
use machine_project.Prelude.{
  ℕ, ◌≡◌, refl, List, [], ◌∷◌, Option, some, ◌-◌, ◌^◌, Outcome, ok, arith,
}
use machine_project.MiniMemcheck.{
  MetaData, Memcheck, initial, mini_malloc, mini_free, mini_realloc, mini_calloc,
}
use machine_project.MiniMemcheck.Ledger.{
  IsBalanced, AllRoom, HasRoom, Call, malloc, calloc, realloc, free, perform, run, ledger_balances,
}

abbrev at : ℕ → ℕ → Option ℕ
at a bytes = some a

abbrev moves_to : ℕ → ℕ → ℕ → Option ℕ
moves_to a old bytes = some a

abbrev block : ℕ → ℕ → MetaData
block a n = record { address = a; request_size = n; filename = 1; instruction = 2 }

abbrev two_blocks : Memcheck
two_blocks = record {
  total_memory_requested = 30;
  total_memory_freed = 0;
  invalid_addresses = 0;
  head = block 2000 20 ∷ block 1000 10 ∷ [];
}

-- two blocks, one moved and shrunk, one freed twice, one freed through a wrong pointer
abbrev script : List Call
script =
    malloc (at 1000) 10 1 2
    ∷ calloc (at 2000) 4 5 1 2
    ∷ realloc (at 0) (moves_to 3000) (some 1032) 4 1 2
    ∷ free (some 2032)
    ∷ free (some 2032)
    ∷ free (some 77)
    ∷ []

script_runs :
    run 32 script initial
    ≡ ok (record {
      total_memory_requested = 30;
      total_memory_freed = 26;
      invalid_addresses = 2;
      head = block 3000 4 ∷ [];
    })
unfolding run perform mini_malloc mini_calloc mini_realloc mini_free
script_runs = refl

-- A size so large that the header no longer fits.
wrapped : mini_malloc 32 (at 1000) (2 ^ 64 - 1) 1 2 initial ≡ Outcome.fault
unfolding mini_malloc
wrapped = refl

script-AllRoom : AllRoom 32 script
unfolding AllRoom HasRoom
script-AllRoom = (omega arith, (omega arith, (omega arith, (tt, (tt, (tt, tt))))))

ledger_balances_example : (after : Memcheck) × (run 32 script initial ≡ ok after) × IsBalanced after
ledger_balances_example = ledger_balances 32 script script-AllRoom
