-- ===== src/Barrier/Rounds.antt =====
-- barrier.c: how many entries a round takes, also where waits end early.
use machine_project.Prelude.{ℕ, ◌+◌, ◌*◌, ◌^◌, ◌<◌, ◌≡◌, Bool, true, false, List, arith}
use machine_project.Barrier.{
  Barrier, is_last, enter, Comer, Arrival, arrives, completes, leaves, wakes_early, Arrivals, ends,
  continues,
}

-- The entries into barrier_wait and the rounds that were completed.
unfoldable pub entered :
    {spurious : Bool} {b b' : Barrier} {ts ts' : List Comer} → Arrival spurious b ts b' ts' → ℕ
entered (arrives result us vs h) = 1
entered (completes result us vs h) = 1
entered (leaves current us vs) = 0
entered (wakes_early current us vs h) = 0

unfoldable pub completed :
    {spurious : Bool} {b b' : Barrier} {ts ts' : List Comer} → Arrival spurious b ts b' ts' → ℕ
completed (arrives result us vs h) = 0
completed (completes result us vs h) = 1
completed (leaves current us vs) = 0
completed (wakes_early current us vs h) = 0

unfoldable pub entries :
    {spurious : Bool} {b b' : Barrier} {ts ts' : List Comer} → Arrivals spurious b ts b' ts' → ℕ
entries ends = 0
entries (continues step more) = entered step + entries more

unfoldable pub rounds :
    {spurious : Bool} {b b' : Barrier} {ts ts' : List Comer} → Arrivals spurious b ts b' ts' → ℕ
rounds ends = 0
rounds (continues step more) = completed step + rounds more

-- The number of threads, and a count below it.
unfoldable pub IsOpen : ℕ → Barrier → Type 0
IsOpen n b = (b.n_threads ≡ n) × (b.count < n)

not_last :
    (b : Barrier)
    → b.count < b.n_threads
    → b.n_threads < 2 ^ 32
    → is_last b ≡ false
    → b.count + 1 < b.n_threads
unfolding is_last
not_last b below small h = ground arith

last_count :
    (b : Barrier)
    → b.count < b.n_threads
    → b.n_threads < 2 ^ 32
    → is_last b ≡ true
    → b.count + 1 ≡ b.n_threads
unfolding is_last
last_count b below small h = ground arith

Arrival-IsOpen :
    {spurious : Bool} {b b' : Barrier} {ts ts' : List Comer} (n : ℕ)
    → n < 2 ^ 32
    → (step : Arrival spurious b ts b' ts') → IsOpen n b
    → IsOpen n b' × (b'.count + completed step * n ≡ b.count + entered step)
unfolding IsOpen enter entered completed
Arrival-IsOpen n small (arrives {b = b} result us vs h) (e, below) =
    let fits = not_last b (omega arith) (omega arith) h in rw h ((e, omega arith), omega arith)
Arrival-IsOpen n small (completes {b = b} result us vs h) (e, below) =
    let full = last_count b (omega arith) (omega arith) h in rw h ((e, omega arith), omega arith)
Arrival-IsOpen n small (leaves {b = b} current us vs) (e, below) = ((e, below), omega arith)
Arrival-IsOpen n small (wakes_early {b = b} current us vs h) (e, below) = ((e, below), omega arith)

-- For a barrier of fewer than 2 ^ 32 threads whose count is below their number, whatever the threads do, in
-- whatever order and as often, and also where waits end without a broadcast: the count stays below
-- the number, and with a number of threads for each completed round it comes to the first count and the
-- entries, so that a round is completed by each entry with which the number is reached, and by no other.
pub barrier_rounds :
    {spurious : Bool} {b b' : Barrier} {ts ts' : List Comer} (n : ℕ)
    → n < 2 ^ 32
    → (run : Arrivals spurious b ts b' ts') → IsOpen n b
    → IsOpen n b' × (b'.count + rounds run * n ≡ b.count + entries run)
unfolding entries rounds
barrier_rounds n small ends opened = (opened, omega arith)
barrier_rounds n small (continues step more) opened =
    let (opened', now) = Arrival-IsOpen n small step opened in
    let (opened'', later) = barrier_rounds n small more opened' in
    (opened'', grind (arith, now, later))
