-- ===== src/Semamore.antt =====
-- critical_concurrency/semamore.c: a semaphore that is bounded above, as a monitor. The value and its
-- bound are not negative. A thread holds the mutex from its test to the broadcast or to the wait on
-- the condition, so each such stretch is one step; a broadcast wakes every sleeper, and a sleeper may
-- also wake without one. A thread that woke takes the mutex and tests again.
pub mod Sleepers
mod Examples
use machine_project.Prelude.{
  ℕ, ◌+◌, ◌-◌, ◌≡◌, ◌==◌, if◌then◌else◌, List, [], ◌∷◌, ◌++◌, map, Option, none, some,
}

pub record Semamore : Type 0 where
  pub value : ℕ
  pub max_val : ℕ

unfoldable pub semm_init : ℕ → ℕ → Semamore
semm_init value max_val = record { value = value; max_val = max_val }

-- A round of the loop and what follows it: `none` is the wait on the condition.
unfoldable pub semm_wait : Semamore → Option Semamore
semm_wait s = if s.value == 0 then none else some (record s { value = s.value - 1 })

unfoldable pub semm_post : Semamore → Option Semamore
semm_post s = if s.value == s.max_val then none else some (record s { value = s.value + 1 })

pub data Operation : Type 0 where
  wait post : Operation

unfoldable pub attempt : Operation → Semamore → Option Semamore
unfolding semm_wait semm_post
attempt wait s = semm_wait s
attempt post s = semm_post s

-- A thread that may run, with the calls before it, and one that waits on the condition in a call.
pub data Thread : Type 0 where
  awake : List Operation → Thread
  asleep : Operation → List Operation → Thread

-- pthread_cond_broadcast
unfoldable pub wake : Thread → Thread
wake (awake calls) = awake calls
wake (asleep call calls) = awake (call ∷ calls)

pub data Step : Semamore → List Thread → Semamore → List Thread → Type 0 where
  blocks :
      {s : Semamore} (call : Operation) (calls : List Operation) (us vs : List Thread)
      → attempt call s ≡ none
      → Step s (us ++ awake (call ∷ calls) ∷ vs) s (us ++ asleep call calls ∷ vs)
  passes :
      {s s' : Semamore} (call : Operation) (calls : List Operation) (us vs : List Thread)
      → attempt call s ≡ some s'
      → Step s (us ++ awake (call ∷ calls) ∷ vs) s' (map wake (us ++ awake calls ∷ vs))
  wakes :
      {s : Semamore} (call : Operation) (calls : List Operation) (us vs : List Thread)
      → Step s (us ++ asleep call calls ∷ vs) s (us ++ awake (call ∷ calls) ∷ vs)

pub data Reaches : Semamore → List Thread → Semamore → List Thread → Type 0 where
  stays : {s : Semamore} {ts : List Thread} → Reaches s ts s ts
  goes :
      {s s' s'' : Semamore} {ts ts' ts'' : List Thread}
      → Step s ts s' ts'
      → Reaches s' ts' s'' ts''
      → Reaches s ts s'' ts''
