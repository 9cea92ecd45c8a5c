-- ===== src/Scheduler/Order.antt =====
-- libscheduler.c: the comparison functions as orders.
use machine_project.Prelude.{◌≡◌, if◌then◌else◌, ◌&&◌, ◌||◌, Bool, true, arith}
use machine_project.Prelude.Int.{ltb_ℤ, eq_ℤ}
use machine_project.Scheduler.{
  Arithmetic, IsOrdered, Scheme, fcfs, pri, ppri, psrtf, rr, sjf, minus, plus, JobInfo,
  compare_helper, comparer_fcfs, comparer_pri, comparer_ppri, comparer_psrtf, comparer_rr,
  comparer_sjf, comparision_func,
}

plus-ne-minus : ¬ (plus ≡ minus)
plus-ne-minus e = cc

module _ {a : Arithmetic} (doubles : IsOrdered a) where
  -- The number that a scheme looks at first.
  unfoldable pub key : Scheme → JobInfo a → a.Double
  key fcfs x = x.the_time_arrive
  key pri x = x.priority
  key ppri x = x.priority
  key psrtf x = x.time_remain
  key rr x = x.run_time
  key sjf x = x.require_time

  -- Later by the key, and between equal keys later by the arrival.
  abbrev pub is_later : Scheme → JobInfo a → JobInfo a → Bool
  is_later s x y =
      let kx = doubles.rank (key s x) in
      let ky = doubles.rank (key s y) in
      ltb_ℤ ky kx
      || (eq_ℤ kx ky && ltb_ℤ (doubles.rank y.the_time_arrive) (doubles.rank x.the_time_arrive))

  -- The two numbers that a comparison looks at are finite.
  pub record HasFinite (s : Scheme) (x : JobInfo a) : Type 0 where
    pub finite_key : doubles.finite (key s x) ≡ true
    pub finite_arrival : doubles.finite x.the_time_arrive ≡ true

  compare_helper-ranks :
      (x y : JobInfo a) (c d : a.Double)
      → doubles.finite c ≡ true
      → doubles.finite d ≡ true
      → doubles.finite x.the_time_arrive ≡ true
      → doubles.finite y.the_time_arrive ≡ true
      → compare_helper x y c d true ≡ (
          if (ltb_ℤ (doubles.rank d) (doubles.rank c)
            || (eq_ℤ (doubles.rank c) (doubles.rank d)
                && ltb_ℤ (doubles.rank y.the_time_arrive) (doubles.rank x.the_time_arrive)))
          then plus
          else minus)
  unfolding compare_helper
  compare_helper-ranks x y c d fc fd fx fy =
      rw
        (
          doubles.eq_rank c d fc fd,
          doubles.sub_sign d c fd fc,
          doubles.lt_rank d c fd fc,
          doubles.sub_sign y.the_time_arrive x.the_time_arrive fy fx,
          doubles.lt_rank y.the_time_arrive x.the_time_arrive fy fx,
        )
        (ground arith)

  -- For jobs whose time of arrival and whose number that the scheme is about (the time of arrival, the
  -- priority, the time left, the time of the last run, the time needed) are finite doubles, each of the six
  -- comparison functions returns 1 exactly if the first job is later by that number, or if these
  -- are equal and it arrived later; otherwise it returns -1.
  pub comparision_func-is_later :
      (s : Scheme) (x y : JobInfo a)
      → HasFinite s x
      → HasFinite s y
      → comparision_func s x y ≡ (if is_later s x y then plus else minus)
  unfolding comparision_func comparer_fcfs compare_helper key
  comparision_func-is_later fcfs x y fx fy =
      rw
        (
          doubles.sub_sign y.the_time_arrive x.the_time_arrive fy.finite_arrival fx.finite_arrival,
          doubles.lt_rank y.the_time_arrive x.the_time_arrive fy.finite_arrival fx.finite_arrival,
        )
        (ground arith)
  comparision_func-is_later pri x y fx fy =
      unfold comparer_pri in
      compare_helper-ranks x y x.priority y.priority fx.finite_key fy.finite_key fx.finite_arrival
        fy.finite_arrival
  comparision_func-is_later ppri x y fx fy =
      unfold comparer_ppri comparer_pri in
      compare_helper-ranks x y x.priority y.priority fx.finite_key fy.finite_key fx.finite_arrival
        fy.finite_arrival
  comparision_func-is_later psrtf x y fx fy =
      unfold comparer_psrtf in
      compare_helper-ranks x y x.time_remain y.time_remain fx.finite_key fy.finite_key
        fx.finite_arrival fy.finite_arrival
  comparision_func-is_later rr x y fx fy =
      unfold comparer_rr in
      compare_helper-ranks x y x.run_time y.run_time fx.finite_key fy.finite_key fx.finite_arrival
        fy.finite_arrival
  comparision_func-is_later sjf x y fx fy =
      unfold comparer_sjf in
      compare_helper-ranks x y x.require_time y.require_time fx.finite_key fy.finite_key
        fx.finite_arrival fy.finite_arrival
