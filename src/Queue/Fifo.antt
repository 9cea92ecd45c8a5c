-- ===== src/Queue/Fifo.antt =====
-- queue.c: what threads that use one queue see, in whatever order they run.
use machine_project.Prelude.{
  ℕ, suc, ◌+◌, ◌≡◌, refl, sym, ap, ◌∙◌, Bool, true, false, not, ◌&&◌, List, [], ◌∷◌, ◌++◌, length,
  length-append, append-nil, append_assoc, Option, none, some, ok, ok-injective, arith,
}
use machine_project.Prelude.Int.{ℤ, pos, negsuc, ltb_ℤ}
use mathlib.Core.Path.{subst}
use mathlib.Core.Option.{none-ne-some}
use machine_project.Queue.{
  Queue, is_full, queue_push, queue_pull, Worker, Turn, pushes, pulls, push_waits, pull_waits,
  spurious, Turns, rests, takes,
}
use machine_project.Queue.Chain.{IsQueue}
use machine_project.Queue.Refine.{IsPushed, IsPulled, queue_push_refines, queue_pull_refines}

-- A list of `n` elements fits in a queue of the bound: the bound is not above zero, or not below `n`.
abbrev pub fits : ℤ → ℕ → Bool
fits max_size n = not (ltb_ℤ (pos 0) max_size && ltb_ℤ max_size (pos n))

-- The queue holds the list, which is no longer than the bound allows.
unfoldable pub IsBounded : Queue → ℤ → List ℕ → Type 0
IsBounded q max_size xs =
    IsQueue q xs × (q.max_size ≡ max_size) × (fits max_size (length xs) ≡ true)

fits_more :
    (max_size : ℤ) (n : ℕ)
    → (ltb_ℤ (pos 0) max_size && not (ltb_ℤ (pos n) max_size)) ≡ false
    → fits max_size (n + 1) ≡ true
fits_more (pos m) n h = ground arith
fits_more (negsuc m) n h = ground arith

fits_less : (max_size : ℤ) (n : ℕ) → fits max_size (suc n) ≡ true → fits max_size n ≡ true
fits_less (pos m) n h = ground arith
fits_less (negsuc m) n h = ground arith

unfoldable some_part : Queue → Option Queue → Queue
some_part q none = q
some_part q (some q') = q'

some-injective : (q : Queue) {a b : Queue} → some a ≡ some b → a ≡ b
unfolding some_part
some-injective q e = ap (some_part q) e

IsPushed-next :
    (x : ℕ) (max_size : ℤ) (q q' : Queue) (xs : List ℕ) (full : Bool)
    → is_full q ≡ full
    → IsBounded q max_size xs
    → IsPushed q xs x full (queue_push x q)
    → queue_push x q ≡ ok (some q')
    → IsBounded q' max_size (xs ++ x ∷ [])
unfolding IsPushed IsBounded is_full IsQueue
IsPushed-next x max_size q q' xs true full holds waits passes =
    absurd (none-ne-some _ (ok-injective (sym waits ∙ passes)))
IsPushed-next x max_size q q' xs false full ((chain, sized), bound, room) (q'', run, holds', same)
      passes =
    let now = some-injective q (ok-injective (sym run ∙ passes)) in
    let room = rw (bound, sized) at full in
    subst (λ r. IsBounded r max_size (xs ++ x ∷ [])) now
      (holds', same ∙ bound, rw (length-append xs (x ∷ [])) (fits_more max_size (length xs) room))

-- What is left when `x` was taken from the front of `xs`.
unfoldable IsRest : ℤ → Queue → ℕ → List ℕ → Type 0
IsRest max_size q' x xs = (rest : List ℕ) × (xs ≡ x ∷ rest) × IsBounded q' max_size rest

unfoldable pulled_part : ℕ × Queue → Option (ℕ × Queue) → ℕ × Queue
pulled_part other none = other
pulled_part other (some pulled) = pulled

IsPulled-next :
    (max_size : ℤ) (q q' : Queue) (x : ℕ) (xs : List ℕ)
    → IsBounded q max_size xs
    → IsPulled q xs (queue_pull q)
    → queue_pull q ≡ ok (some (x, q'))
    → IsRest max_size q' x xs
unfolding IsPulled IsBounded IsRest pulled_part
IsPulled-next max_size q q' x [] holds waits passes =
    absurd (none-ne-some _ (ok-injective (sym waits ∙ passes)))
IsPulled-next max_size q q' x (y ∷ ys) (holds, bound, room) (q'', run, holds', same) passes =
    let now = ap (pulled_part (x, q)) (ok-injective (sym run ∙ passes)) in
    (
      ys,
      ap (λ r. r.0 ∷ ys) now,
      subst (λ r. IsBounded r max_size ys) (ap (λ r. r.1) now)
          (holds', same ∙ bound, fits_less max_size (length ys) room),
    )

Turn-fifo :
    {q q' : Queue} {ws ws' : List Worker} {ins outs : List ℕ} (max_size : ℤ) (xs : List ℕ)
    → Turn q ws q' ws' ins outs
    → IsBounded q max_size xs
    → (ys : List ℕ) × IsBounded q' max_size ys × (xs ++ ins ≡ outs ++ ys)
unfolding IsBounded IsRest
Turn-fifo max_size xs (pushes {q = q} {q' = q'} x calls us vs passes signal) holds =
    let pushed = queue_push_refines x q xs holds.0 in
    (xs ++ x ∷ [], IsPushed-next x max_size q q' xs (is_full q) refl holds pushed passes, refl)
Turn-fifo max_size xs (pulls {q = q} {q' = q'} x calls us vs passes signal) holds =
    let pulled = queue_pull_refines q xs holds.0 in
    let (rest, e, holds') = IsPulled-next max_size q q' x xs holds pulled passes in
    (rest, holds', append-nil xs ∙ e)
Turn-fifo max_size xs (push_waits x calls us vs waits) holds = (xs, holds, append-nil xs)
Turn-fifo max_size xs (pull_waits calls us vs waits) holds = (xs, holds, append-nil xs)
Turn-fifo max_size xs (spurious call calls us vs) holds = (xs, holds, append-nil xs)

append-swap :
    (xs ins ins' outs outs' ys zs : List ℕ)
    → xs ++ ins ≡ outs ++ ys
    → ys ++ ins' ≡ outs' ++ zs
    → xs ++ (ins ++ ins') ≡ outs ++ outs' ++ zs
append-swap xs ins ins' outs outs' ys zs first second =
    sym (append_assoc xs ins ins')
    ∙ ap (λ l. l ++ ins') first
    ∙ append_assoc outs ys ins'
    ∙ ap (◌++◌ outs) second
    ∙ sym (append_assoc outs outs' zs)

-- From a queue that holds `xs` within its bound, whatever the threads do and in whatever order, the
-- queue holds a list within the same bound, and what was pulled, with that list behind it, is `xs`
-- with what was pushed behind it, in order.
pub queue_fifo :
    {q q' : Queue} {ws ws' : List Worker} {ins outs : List ℕ} (max_size : ℤ) (xs : List ℕ)
    → Turns q ws q' ws' ins outs
    → IsBounded q max_size xs
    → (ys : List ℕ) × IsBounded q' max_size ys × (xs ++ ins ≡ outs ++ ys)
queue_fifo max_size xs rests holds = (xs, holds, append-nil xs)
queue_fifo max_size xs (takes {ins = ins} {ins' = ins'} {outs = outs} {outs' = outs'} turn more)
      holds =
    let (ys, holds', first) = Turn-fifo max_size xs turn holds in
    let (zs, holds'', second) = queue_fifo max_size ys more holds' in
    (zs, holds'', append-swap xs ins ins' outs outs' ys zs first second)
