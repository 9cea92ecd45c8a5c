-- ===== src/Scheduler.antt =====
-- savvy_scheduler/libscheduler.c: the scheduler of jobs. A `double` is of a type of numbers that is a
-- parameter, and so is the priority queue of libpriqueue, which holds jobs by their number; the
-- `job_info` that a job points to is found by that number.
pub mod Order
mod Examples
use machine_project.Prelude.{
  ℕ, ◌+◌, ◌==◌, if◌then◌else◌, ◌&&◌, not, Bool, true, false, Option, none, some, Outcome, ok, fault,
  ◌>>=◌, ◌≡◌,
}
use machine_project.Prelude.Int.{ℤ, ltb_ℤ, eq_ℤ}

pub record Arithmetic : Type 1 where
  pub Double : Type 0
  pub of_nat : ℕ → Double
  pub minus_one : Double
  pub add : Double → Double → Double
  pub sub : Double → Double → Double
  pub div : Double → Double → Double
  pub lt : Double → Double → Bool
  pub eq : Double → Double → Bool

pub data Scheme : Type 0 where
  fcfs pri ppri psrtf rr sjf : Scheme

-- What a comparison function returns.
pub data Sign : Type 0 where
  minus plus : Sign

pub record JobInfo (a : Arithmetic) : Type 0 where
  pub id : ℕ
  pub the_time_arrive : a.Double
  pub time_remain : a.Double
  pub run_time : a.Double
  pub require_time : a.Double
  pub time_start : a.Double
  pub priority : a.Double

-- priqueue_t: a comparison of jobs goes with each call that may use it.
pub record PriorityQueue : Type 1 where
  pub Queue : Type 0
  pub priqueue_init : Queue
  pub priqueue_offer : (ℕ → ℕ → Sign) → Queue → ℕ → Queue
  pub priqueue_poll : Queue → Option ℕ × Queue
  pub priqueue_peek : Queue → Option ℕ

-- What the finite doubles of IEEE 754 satisfy: each is a whole multiple of the least positive one, and `rank`
-- is the factor; a difference has the sign of the comparison, since it comes to 0 only for equal
-- numbers, and to an infinity of the right sign where it is too large.
pub record IsOrdered (a : Arithmetic) : Type 0 where
  pub finite : a.Double → Bool
  pub rank : a.Double → ℤ
  pub lt_rank :
      (x y : a.Double) → finite x ≡ true → finite y ≡ true → a.lt x y ≡ ltb_ℤ (rank x) (rank y)
  pub eq_rank :
      (x y : a.Double) → finite x ≡ true → finite y ≡ true → a.eq x y ≡ eq_ℤ (rank x) (rank y)
  pub sub_sign :
      (x y : a.Double)
      → finite x ≡ true
      → finite y ≡ true
      → a.lt (a.sub x y) (a.of_nat 0) ≡ a.lt x y

unfoldable pub preempts : Scheme → Bool
preempts ppri = true
preempts psrtf = true
preempts rr = true
preempts _ = false

-- MIN(x, 0) != 0, where MIN(x, y) is x < y ? x : y: a number below 0 is not 0, and 0 is.
abbrev pub below_zero : (a : Arithmetic) → a.Double → Bool
below_zero a x = a.lt x (a.of_nat 0)

-- MAX(x, 0) == 0, where MAX(x, y) is x > y ? x : y: a number above 0 is not 0.
abbrev pub not_above_zero : (a : Arithmetic) → a.Double → Bool
not_above_zero a x = not (a.lt (a.of_nat 0) x)

module _ {a : Arithmetic} where
  open a use {Double, of_nat, minus_one, add, sub, eq}

  unfoldable pub compare_helper : JobInfo a → JobInfo a → Double → Double → Bool → Sign
  compare_helper x y c d if_break_tie =
      if if_break_tie && eq c d
      then (if below_zero a (sub y.the_time_arrive x.the_time_arrive) then plus else minus)
      else if below_zero a (sub d c)
      then plus
      else minus

  unfoldable pub comparer_fcfs : JobInfo a → JobInfo a → Sign
  comparer_fcfs x y = compare_helper x y x.the_time_arrive y.the_time_arrive false

  unfoldable pub comparer_pri : JobInfo a → JobInfo a → Sign
  comparer_pri x y = compare_helper x y x.priority y.priority true

  unfoldable pub comparer_ppri : JobInfo a → JobInfo a → Sign
  unfolding comparer_pri
  comparer_ppri x y = comparer_pri x y

  unfoldable pub comparer_psrtf : JobInfo a → JobInfo a → Sign
  comparer_psrtf x y = compare_helper x y x.time_remain y.time_remain true

  unfoldable pub comparer_rr : JobInfo a → JobInfo a → Sign
  comparer_rr x y = compare_helper x y x.run_time y.run_time true

  unfoldable pub comparer_sjf : JobInfo a → JobInfo a → Sign
  comparer_sjf x y = compare_helper x y x.require_time y.require_time true

  -- comparision_func, as scheduler_start_up chooses it.
  unfoldable pub comparision_func : Scheme → JobInfo a → JobInfo a → Sign
  unfolding comparer_fcfs comparer_pri comparer_ppri comparer_psrtf comparer_rr comparer_sjf
  comparision_func fcfs = comparer_fcfs
  comparision_func pri = comparer_pri
  comparision_func ppri = comparer_ppri
  comparision_func psrtf = comparer_psrtf
  comparision_func rr = comparer_rr
  comparision_func sjf = comparer_sjf

  -- What happens to the job that has run for a quantum.
  unfoldable pub run_quantum : Double → JobInfo a → JobInfo a
  run_quantum time info = record info {
    run_time = time;
    time_remain = sub info.time_remain (of_nat 1);
    time_start = if not_above_zero a info.time_start then sub time (of_nat 1) else info.time_start;
  }

pub record Scheduler (a : Arithmetic) (q : PriorityQueue) : Type 0 where
  pub pqueue : q.Queue
  pub pqueue_scheme : Scheme
  pub metadata : ℕ → Option (JobInfo a)
  pub total_number_of_process : ℕ
  pub the_time_wait : a.Double
  pub the_time_response : a.Double
  pub the_time_turn : a.Double

module _ (a : Arithmetic) (q : PriorityQueue) where
  unfoldable pub scheduler_start_up : Scheme → Scheduler a q
  scheduler_start_up s = record {
    pqueue = q.priqueue_init;
    pqueue_scheme = s;
    metadata = λ _. none;
    total_number_of_process = 0;
    the_time_wait = a.of_nat 0;
    the_time_response = a.of_nat 0;
    the_time_turn = a.of_nat 0;
  }

module _ {a : Arithmetic} {q : PriorityQueue} where
  open a use {Double, of_nat, minus_one, add, sub, div}

  -- The comparison of two jobs, which every job has the metadata for.
  unfoldable pub compare_jobs : Scheduler a q → ℕ → ℕ → Sign
  unfolding comparision_func
  compare_jobs s x y = elim (s.metadata x) [
    | none ↦ minus
    | some i ↦ elim (s.metadata y) [ none ↦ minus | some j ↦ comparision_func s.pqueue_scheme i j ]
  ]

  abbrev pub set_info : ℕ → Option (JobInfo a) → Scheduler a q → Scheduler a q
  set_info job info s = record s { metadata = λ i. if i == job then info else s.metadata i }

  abbrev pub offer : ℕ → Scheduler a q → Scheduler a q
  offer job s = record s { pqueue = q.priqueue_offer (compare_jobs s) s.pqueue job }

  unfoldable pub scheduler_new_job :
      ℕ → ℕ → Double → Double → Double → Scheduler a q → Scheduler a q
  scheduler_new_job newjob job_number time running_time priority s = offer newjob (
      set_info newjob
        (some (record {
          id = job_number;
          time_start = minus_one;
          time_remain = sub (add running_time (of_nat 0)) (of_nat 0);
          run_time = minus_one;
          require_time = running_time;
          priority = priority;
          the_time_arrive = time;
        }))
        s)

  -- The first job of the queue is taken out and offered again. The job that has just run is still in
  -- the queue, so that it is not empty.
  unfoldable pub offer_again : Scheduler a q → Option ℕ × q.Queue → Outcome (Scheduler a q)
  offer_again s (none, rest) = fault
  offer_again s (some curr, rest) = ok (offer curr (record s { pqueue = rest }))

  -- `scheduler_quantum_expired` for a job, by what it points to.
  unfoldable pub expire :
      ℕ → Double → Scheduler a q → Option (JobInfo a) → Outcome (Option ℕ × Scheduler a q)
  unfolding offer_again run_quantum preempts
  expire job time s none = fault
  expire job time s (some info) =
      let ran = set_info job (some (run_quantum time info)) s in
      if preempts s.pqueue_scheme
      then (offer_again ran (q.priqueue_poll ran.pqueue) >>= λ t. ok (q.priqueue_peek t.pqueue, t))
      else ok (some job, ran)

  unfoldable pub scheduler_quantum_expired :
      Option ℕ → Double → Scheduler a q → Outcome (Option ℕ × Scheduler a q)
  unfolding expire
  scheduler_quantum_expired none time s = ok (q.priqueue_peek s.pqueue, s)
  scheduler_quantum_expired (some job) time s = expire job time s (s.metadata job)

  -- The three sums, with the terms that the source adds and takes off again.
  unfoldable pub count_job : Double → JobInfo a → Scheduler a q → Scheduler a q
  count_job time info s = record s {
    total_number_of_process = s.total_number_of_process + 1;
    the_time_wait =
        sub
          (add (sub (sub (add s.the_time_wait time) info.the_time_arrive) info.require_time)
            info.require_time)
          info.require_time;
    the_time_response =
        sub
          (add (sub (add s.the_time_response info.time_start) info.the_time_arrive)
            info.the_time_arrive)
          info.the_time_arrive;
    the_time_turn = add (sub (sub (add s.the_time_turn time) info.the_time_arrive) time) time;
  }

  -- `scheduler_job_finished`, for what the job points to.
  unfoldable pub finish_job :
      ℕ → Double → Scheduler a q → Option (JobInfo a) → Outcome (Scheduler a q)
  unfolding count_job
  finish_job job_done time s none = fault
  finish_job job_done time s (some info) =
      let counted = set_info job_done none (count_job time info s) in
      ok (record counted { pqueue = (q.priqueue_poll counted.pqueue).1 })

  unfoldable pub scheduler_job_finished : ℕ → Double → Scheduler a q → Outcome (Scheduler a q)
  scheduler_job_finished job_done time s = finish_job job_done time s (s.metadata job_done)

  unfoldable pub scheduler_average_waiting_time : Scheduler a q → Double
  scheduler_average_waiting_time s = div s.the_time_wait (of_nat s.total_number_of_process)

  unfoldable pub scheduler_average_turnaround_time : Scheduler a q → Double
  scheduler_average_turnaround_time s = div s.the_time_turn (of_nat s.total_number_of_process)

  unfoldable pub scheduler_average_response_time : Scheduler a q → Double
  scheduler_average_response_time s = div s.the_time_response (of_nat s.total_number_of_process)
