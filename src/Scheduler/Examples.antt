-- ===== src/Scheduler/Examples.antt =====
-- The scheduler with integers for its doubles and a list for its queue, and the theorems there.
use machine_project.Prelude.{ℕ, ◌≡◌, refl, true, List, [], ◌∷◌, Option, none, some}
use machine_project.Prelude.Int.{ℤ, pos, negsuc, ◌+ℤ◌, ◌-ℤ◌, ltb_ℤ, eq_ℤ, sub_sign}
use machine_project.Scheduler.{
  Arithmetic, IsOrdered, sjf, Sign, minus, plus, JobInfo, PriorityQueue, Scheduler,
  scheduler_start_up, scheduler_new_job, comparision_func, comparer_sjf, compare_helper,
  compare_jobs,
}
use machine_project.Scheduler.Order.{comparision_func-is_later, key}

abbrev whole : Arithmetic
whole = record {
  Double = ℤ;
  of_nat = pos;
  minus_one = negsuc 0;
  add = ◌+ℤ◌;
  sub = ◌-ℤ◌;
  div = λ a b. a;
  lt = ltb_ℤ;
  eq = eq_ℤ;
}

abbrev whole-IsOrdered : IsOrdered whole
whole-IsOrdered = record {
  finite = λ a. true;
  rank = λ a. a;
  lt_rank = λ a b h k. refl;
  eq_rank = λ a b h k. refl;
  sub_sign = λ a b h k. sub_sign a b;
}

-- A job goes before the first that it is not later than.
insert_job : (ℕ → ℕ → Sign) → List ℕ → ℕ → List ℕ
insert_job compare [] j = j ∷ []
insert_job compare (k ∷ ks) j = elim (compare j k) [
  | minus ↦ j ∷ k ∷ ks
  | plus ↦ k ∷ insert_job compare ks j
]

poll : List ℕ → Option ℕ × List ℕ
poll [] = (none, [])
poll (k ∷ ks) = (some k, ks)

peek : List ℕ → Option ℕ
peek [] = none
peek (k ∷ ks) = some k

abbrev listed : PriorityQueue
listed = record {
  Queue = List ℕ;
  priqueue_init = [];
  priqueue_offer = insert_job;
  priqueue_poll = poll;
  priqueue_peek = peek;
}

abbrev job_at : ℤ → ℤ → ℤ → JobInfo whole
job_at arrive require start = record {
  id = 0;
  the_time_arrive = arrive;
  time_remain = require;
  run_time = negsuc 0;
  require_time = require;
  time_start = start;
  priority = pos 0;
}

abbrev idle : Scheduler whole listed
unfolding scheduler_start_up
idle = scheduler_start_up whole listed sjf

-- The shortest of two jobs comes first.
shortest_first :
    (scheduler_new_job 2 2
      (pos 1)
      (pos 3)
      (pos 0)
      (scheduler_new_job 1 1 (pos 0) (pos 5) (pos 0) idle)).pqueue
    ≡ 2 ∷ 1 ∷ []
unfolding idle scheduler_start_up scheduler_new_job comparision_func comparer_sjf compare_helper
    compare_jobs insert_job ◌-ℤ◌
shortest_first = refl

comparision_func-is_later_example :
    comparision_func sjf (job_at (pos 2) (pos 4) (negsuc 0)) (job_at (pos 1) (pos 4) (negsuc 0))
    ≡ plus
unfolding key
comparision_func-is_later_example =
    comparision_func-is_later whole-IsOrdered sjf (job_at (pos 2) (pos 4) (negsuc 0))
      (job_at (pos 1) (pos 4) (negsuc 0)) (record { finite_key = refl; finite_arrival = refl })
      (record { finite_key = refl; finite_arrival = refl })
