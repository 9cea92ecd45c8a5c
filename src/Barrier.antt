-- ===== src/Barrier.antt =====
-- critical_concurrency/barrier.c: a barrier for a number of threads. A thread holds the mutex from its
-- entry to the broadcast or to the wait on the condition, so each such stretch is one step. There is no
-- loop round the wait; whether it may end without a broadcast is a parameter of a step.
pub mod Rounds
mod Examples
use machine_project.Prelude.{
  ℕ, suc, ◌+◌, ◌%◌, ◌^◌, ◌≡◌, ◌==◌, Bool, true, false, not, if◌then◌else◌, List, [], ◌∷◌, ◌++◌, map,
  Option, none, some,
}

pub record Barrier : Type 0 where
  pub n_threads : ℕ
  pub count : ℕ
  pub times_used : ℕ

-- Whether pthread_mutex_init and pthread_cond_init succeed; `none` is -1.
unfoldable pub barrier_init : Bool → Bool → ℕ → Option Barrier
barrier_init mutex_init cond_init num_threads =
    if not mutex_init
    then none
    else if not cond_init
    then none
    else some (record { n_threads = num_threads; count = 0; times_used = 0 })

-- barrier->count == barrier->n_threads, behind the increment
unfoldable pub is_last : Barrier → Bool
is_last b = (b.count + 1) % 2 ^ 32 == b.n_threads

-- barrier_wait up to the broadcast or the wait.
unfoldable pub enter : Barrier → Barrier
enter b =
    if is_last b
    then record b { times_used = (b.times_used + 1) % 2 ^ 32; count = 0 }
    else record b { count = (b.count + 1) % 2 ^ 32 }

pub data BarrierResult : Type 0 where
  other_thread serial_thread : BarrierResult

-- barrier_wait behind the wait, with current_times_used.
unfoldable pub leave : ℕ → Barrier → BarrierResult
leave current_times_used b =
    if current_times_used == b.times_used then other_thread else serial_thread

-- A thread outside barrier_wait with the result of its last call, one that waits on the condition, and
-- one that woke, both with their current_times_used.
pub data Comer : Type 0 where
  outside : Option BarrierResult → Comer
  blocked : ℕ → Comer
  woken : ℕ → Comer

-- pthread_cond_broadcast
unfoldable pub rouse : Comer → Comer
rouse (outside result) = outside result
rouse (blocked current) = woken current
rouse (woken current) = woken current

pub data Arrival (spurious : Bool) : Barrier → List Comer → Barrier → List Comer → Type 0 where
  arrives :
      {b : Barrier} (result : Option BarrierResult) (us vs : List Comer)
      → is_last b ≡ false
      → Arrival spurious b (us ++ outside result ∷ vs) (enter b) (us ++ blocked b.times_used ∷ vs)
  completes :
      {b : Barrier} (result : Option BarrierResult) (us vs : List Comer)
      → is_last b ≡ true
      → Arrival spurious b
          (us ++ outside result ∷ vs)
          (enter b)
          (map rouse (us ++ outside (some serial_thread) ∷ vs))
  leaves :
      {b : Barrier} (current : ℕ) (us vs : List Comer)
      → Arrival spurious b
          (us ++ woken current ∷ vs)
          b
          (us ++ outside (some (leave current b)) ∷ vs)
  wakes_early :
      {b : Barrier} (current : ℕ) (us vs : List Comer)
      → spurious ≡ true
      → Arrival spurious b (us ++ blocked current ∷ vs) b (us ++ woken current ∷ vs)

pub data Arrivals (spurious : Bool) : Barrier → List Comer → Barrier → List Comer → Type 0 where
  ends : {b : Barrier} {ts : List Comer} → Arrivals spurious b ts b ts
  continues :
      {b b' b'' : Barrier} {ts ts' ts'' : List Comer}
      → Arrival spurious b ts b' ts'
      → Arrivals spurious b' ts' b'' ts''
      → Arrivals spurious b ts b'' ts''
