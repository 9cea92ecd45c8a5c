-- ===== src/Rendezvous.antt =====
-- critical_concurrency/rendezvous_sol.c: two threads that each decode one quote and print the other
-- one, with two semaphores. A quote is its characters before the NUL; a decoded character is lower by
-- one. Each thread is a function from its place in the code and what the threads share to the next,
-- and `none` is a thread that is blocked or has ended.
pub mod Meeting
pub mod Progress
mod Examples
use machine_project.Prelude.{
  ℕ, zero, suc, ◌+◌, ◌-◌, ◌≡◌, ◌==◌, if◌then◌else◌, List, get_elem?, set, Option, none, some,
}

pub record Shared : Type 0 where
  pub quote_A : List ℕ
  pub quote_B : List ℕ
  pub sem_a : ℕ
  pub sem_b : ℕ

-- The loop with its index, sem_post, sem_wait, printf, and the end with what was printed.
pub data Place : Type 0 where
  modifies : ℕ → Place
  posts waits prints : Place
  ended : List ℕ → Place

-- A round of the loop over a quote: the character at the index and the place of its index.
unfoldable pub modify : Option ℕ → ℕ → List ℕ → Place × List ℕ
modify none i quote = (posts, quote)
modify (some zero) i quote = (posts, quote)
modify (some (suc c)) i quote = (modifies (suc i), set quote i c)

unfoldable pub modify_A_print_B : Place → Shared → Option (Place × Shared)
modify_A_print_B (modifies i) s =
    let r = modify (get_elem? s.quote_A i) i s.quote_A in some (r.0, record s { quote_A = r.1 })
modify_A_print_B posts s = some (waits, record s { sem_a = s.sem_a + 1 })
modify_A_print_B waits s =
    if s.sem_b == 0 then none else some (prints, record s { sem_b = s.sem_b - 1 })
modify_A_print_B prints s = some (ended s.quote_B, s)
modify_A_print_B (ended printed) s = none

unfoldable pub modify_B_print_A : Place → Shared → Option (Place × Shared)
modify_B_print_A (modifies i) s =
    let r = modify (get_elem? s.quote_B i) i s.quote_B in some (r.0, record s { quote_B = r.1 })
modify_B_print_A posts s = some (waits, record s { sem_b = s.sem_b + 1 })
modify_B_print_A waits s =
    if s.sem_a == 0 then none else some (prints, record s { sem_a = s.sem_a - 1 })
modify_B_print_A prints s = some (ended s.quote_A, s)
modify_B_print_A (ended printed) s = none

-- The state of both threads; main starts each at the beginning of its loop.
pub data Meets : Place → Place → Shared → Place → Place → Shared → Type 0 where
  stands : {a b : Place} {s : Shared} → Meets a b s a b s
  first_moves :
      {a b a' a'' b'' : Place} {s s' s'' : Shared}
      → modify_A_print_B a s ≡ some (a', s')
      → Meets a' b s' a'' b'' s''
      → Meets a b s a'' b'' s''
  second_moves :
      {a b b' a'' b'' : Place} {s s' s'' : Shared}
      → modify_B_print_A b s ≡ some (b', s')
      → Meets a b' s' a'' b'' s''
      → Meets a b s a'' b'' s''

unfoldable pub start : List ℕ → List ℕ → Shared
start quote_A quote_B = record { quote_A = quote_A; quote_B = quote_B; sem_a = 0; sem_b = 0 }
