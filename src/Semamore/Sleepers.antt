-- ===== src/Semamore/Sleepers.antt =====
-- semamore.c: the value stays within its bounds, and only threads that have to wait are asleep.
use machine_project.Prelude.{
  ◌≤◌, ◌<◌, ◌≡◌, refl, sym, ◌∙◌, ◌==◌, List, [], ◌∷◌, ◌++◌, map, Option, none, some, Bool-cases,
  inl, inr, arith,
}
use mathlib.Core.Path.{subst}
use mathlib.Core.Option.{none-ne-some}
use machine_project.Semamore.{
  Semamore, semm_wait, semm_post, Operation, wait, post, attempt, Thread, awake, asleep, wake, Step,
  blocks, passes, wakes, Reaches, stays, goes,
}

-- A thread that is asleep could not pass if it tested now.
unfoldable pub IsKept : Semamore → Thread → Type 0
IsKept s (awake calls) = Unit
IsKept s (asleep call calls) = attempt call s ≡ none

unfoldable pub AllKept : Semamore → List Thread → Type 0
AllKept s [] = Unit
AllKept s (t ∷ ts) = IsKept s t × AllKept s ts

AllKept-replace :
    (s : Semamore) (us vs : List Thread) (t u : Thread)
    → AllKept s (us ++ t ∷ vs)
    → IsKept s u
    → AllKept s (us ++ u ∷ vs)
unfolding AllKept
AllKept-replace s [] vs t u (k, ks) k' = (k', ks)
AllKept-replace s (w ∷ us) vs t u (k, ks) k' = (k, AllKept-replace s us vs t u ks k')

AllKept-wake : (s : Semamore) (ts : List Thread) → AllKept s (map wake ts)
unfolding AllKept IsKept wake
AllKept-wake s [] = tt
AllKept-wake s (awake calls ∷ ts) = (tt, AllKept-wake s ts)
AllKept-wake s (asleep call calls ∷ ts) = (tt, AllKept-wake s ts)

Step-AllKept :
    {s s' : Semamore} {ts ts' : List Thread} → Step s ts s' ts' → AllKept s ts → AllKept s' ts'
unfolding IsKept
Step-AllKept (blocks {s = s} call calls us vs h) k =
    AllKept-replace s us vs (awake (call ∷ calls)) (asleep call calls) k h
Step-AllKept (passes {s' = s'} call calls us vs h) k = AllKept-wake s' (us ++ awake calls ∷ vs)
Step-AllKept (wakes {s = s} call calls us vs) k =
    AllKept-replace s us vs (asleep call calls) (awake (call ∷ calls)) k tt

IsWithin : Semamore → Option Semamore → Type 0
IsWithin s none = Unit
IsWithin s (some s') = (s'.value ≤ s'.max_val) × (s'.max_val ≡ s.max_val)

attempt-IsWithin :
    (call : Operation) (s : Semamore) → s.value ≤ s.max_val → IsWithin s (attempt call s)
unfolding IsWithin attempt semm_wait semm_post
attempt-IsWithin wait s h = elim (Bool-cases (s.value == 0)) [
  | inl e ↦ rw e tt
  | inr e ↦ rw e (omega arith, refl)
]
attempt-IsWithin post s h = elim (Bool-cases (s.value == s.max_val)) [
  | inl e ↦ rw e tt
  | inr e ↦ let apart : s.value < s.max_val = ground arith in rw e (omega arith, refl)
]

passes-IsWithin :
    (call : Operation) (s s' : Semamore)
    → s.value ≤ s.max_val
    → attempt call s ≡ some s'
    → IsWithin s (some s')
passes-IsWithin call s s' h e = rw e at (attempt-IsWithin call s h)

Step-bounds :
    {s s' : Semamore} {ts ts' : List Thread}
    → Step s ts s' ts'
    → s.value ≤ s.max_val
    → (s'.value ≤ s'.max_val) × (s'.max_val ≡ s.max_val)
unfolding IsWithin
Step-bounds (blocks call calls us vs e) h = (h, refl)
Step-bounds (passes {s = s} {s' = s'} call calls us vs e) h = passes-IsWithin call s s' h e
Step-bounds (wakes call calls us vs) h = (h, refl)

-- From a value within its bound and threads of which each that is asleep has to wait, whatever the
-- threads do and in whatever order, the value stays within the bound, the bound stays as it is, and
-- each thread that is asleep has to wait.
pub semamore_keeps :
    {s s' : Semamore} {ts ts' : List Thread}
    → Reaches s ts s' ts'
    → s.value ≤ s.max_val
    → AllKept s ts
    → (s'.value ≤ s'.max_val) × (s'.max_val ≡ s.max_val) × AllKept s' ts'
semamore_keeps stays h k = (h, refl, k)
semamore_keeps (goes step more) h k =
    let (h', same) = Step-bounds step h in
    let (fits, same', kept) = semamore_keeps more h' (Step-AllKept step k) in
    (fits, same' ∙ same, kept)

AllKept-part :
    (s : Semamore) (us vs : List Thread) (t : Thread) → AllKept s (us ++ t ∷ vs) → IsKept s t
unfolding AllKept
AllKept-part s [] vs t (k, ks) = k
AllKept-part s (u ∷ us) vs t (k, ks) = AllKept-part s us vs t ks

wait-asleep : (s : Semamore) (calls : List Operation) → IsKept s (asleep wait calls) → s.value ≡ 0
unfolding IsKept attempt semm_wait
wait-asleep s calls k = elim (Bool-cases (s.value == 0)) [
  | inl e ↦ ground arith
  | inr e ↦ absurd (none-ne-some _ (rw e at (sym k)))
]

post-asleep :
    (s : Semamore) (calls : List Operation) → IsKept s (asleep post calls) → s.value ≡ s.max_val
unfolding IsKept attempt semm_post
post-asleep s calls k = elim (Bool-cases (s.value == s.max_val)) [
  | inl e ↦ ground arith
  | inr e ↦ absurd (none-ne-some _ (rw e at (sym k)))
]

-- From a value within a bound that is not 0 and threads of which each that is asleep has to wait, no
-- state is reached in which one thread is asleep in semm_wait and another in semm_post.
pub no_deadlock :
    {s s' : Semamore} {ts : List Thread} (us vs us' vs' : List Thread)
    (calls calls' : List Operation)
    → Reaches s ts s' (us ++ asleep wait calls ∷ vs)
    → s.value ≤ s.max_val
    → AllKept s ts
    → 0 < s.max_val
    → ¬ (us ++ asleep wait calls ∷ vs ≡ us' ++ asleep post calls' ∷ vs')
no_deadlock {s' = s'} us vs us' vs' calls calls' run h k room same =
    let (fits, bound, kept) = semamore_keeps run h k in
    let empty = wait-asleep s' calls (AllKept-part s' us vs (asleep wait calls) kept) in
    let full =
      post-asleep s' calls'
        (AllKept-part s' us' vs' (asleep post calls') (subst (AllKept s') same kept)) in
    absurd (omega arith)
