-- ===== src/Rendezvous/Progress.antt =====
-- rendezvous_sol.c: what the threads print, and that they come to their ends.
use machine_project.Prelude.{
  ℕ, zero, suc, ◌+◌, ◌-◌, ◌≤◌, ◌<◌, ◌≡◌, refl, ap, ◌==◌, false, Bool-cases, List, [], ◌∷◌, length,
  length-set, get_elem?, Option, none, some, ◌⊎◌, inl, inr, arith,
}
use mathlib.Core.Path.{subst}
use mathlib.Core.Option.{none-ne-some}
use machine_project.Rendezvous.{
  Shared, Place, modifies, posts, waits, prints, ended, modify, modify_A_print_B, modify_B_print_A,
  Meets, stands, first_moves, second_moves, start,
}
use machine_project.Rendezvous.Meeting.{
  IsText, decoded, IsAt, posted, passed, HasPrinted, IsMeeting, Meets-IsMeeting,
}

unfoldable pub IsEnded : Place → Type 0
IsEnded (ended printed) = Unit
IsEnded _ = ⊥

-- A thread can go on, or both have ended.
unfoldable pub IsGoing : Place → Place → Shared → Type 0
IsGoing a b s =
    ((r : Place × Shared) × (modify_A_print_B a s ≡ some r))
    ⊎ ((r : Place × Shared) × (modify_B_print_A b s ≡ some r))
    ⊎ (IsEnded a × IsEnded b)

waits-IsGoing : (b : Place) (s : Shared) → posted b ≡ 0 → IsGoing waits b s
unfolding IsGoing modify_B_print_A posted
waits-IsGoing (modifies i) s h = inr (inl (_, refl))
waits-IsGoing posts s h = inr (inl (_, refl))
waits-IsGoing waits s h = absurd (omega arith)
waits-IsGoing prints s h = absurd (omega arith)
waits-IsGoing (ended printed) s h = absurd (omega arith)

ended-IsGoing :
    (printed : List ℕ) (b : Place) (s : Shared)
    → s.sem_a + passed b ≡ 1
    → IsGoing (ended printed) b s
unfolding IsGoing modify_B_print_A passed IsEnded
ended-IsGoing printed (modifies i) s h = inr (inl (_, refl))
ended-IsGoing printed posts s h = inr (inl (_, refl))
ended-IsGoing printed waits s h =
    let up : (s.sem_a == 0) ≡ false = ground arith in
    inr (inl ((prints, record s { sem_a = s.sem_a - 1 }), rw up refl))
ended-IsGoing printed prints s h = inr (inl (_, refl))
ended-IsGoing printed (ended printed') s h = inr (inr (tt, tt))

IsMeeting-IsGoing : (A B : List ℕ) (a b : Place) (s : Shared) → IsMeeting A B a b s → IsGoing a b s
unfolding IsMeeting IsGoing modify_A_print_B posted passed
IsMeeting-IsGoing A B (modifies i) b s meeting = inl (_, refl)
IsMeeting-IsGoing A B posts b s meeting = inl (_, refl)
IsMeeting-IsGoing A B waits b s (at_a, at_b, sa, sb, pa, pb) = elim (Bool-cases (s.sem_b == 0)) [
  | inl e ↦ let down : s.sem_b ≡ 0 = ground arith in waits-IsGoing b s (omega arith)
  | inr e ↦ inl ((prints, record s { sem_b = s.sem_b - 1 }), rw e refl)
]
IsMeeting-IsGoing A B prints b s meeting = inl (_, refl)
IsMeeting-IsGoing A B (ended printed) b s (at_a, at_b, sa, sb, pa, pb) =
    ended-IsGoing printed b s sa

-- The steps that a thread has still to make at most, with its quote.
unfoldable pub work : Place → List ℕ → ℕ
work (modifies i) quote = length quote - i + 4
work posts quote = 3
work waits quote = 2
work prints quote = 1
work (ended printed) quote = 0

unfoldable pub steps : {a b a' b' : Place} {s s' : Shared} → Meets a b s a' b' s' → ℕ
steps stands = 0
steps (first_moves e more) = suc (steps more)
steps (second_moves e more) = suc (steps more)

get-below : (quote : List ℕ) (i c : ℕ) → get_elem? quote i ≡ some c → i < length quote
get-below [] i c h = absurd (none-ne-some _ h)
get-below (d ∷ quote) zero c h = omega arith
get-below (d ∷ quote) (suc i) c h = omega (arith, get-below quote i c h)

modify-work :
    (o : Option ℕ) (i : ℕ) (quote : List ℕ)
    → get_elem? quote i ≡ o
    → work (modify o i quote).0 (modify o i quote).1 < work (modifies i) quote
unfolding modify work
modify-work none i quote h = omega arith
modify-work (some zero) i quote h = omega arith
modify-work (some (suc c)) i quote h =
    omega (arith, get-below quote i (suc c) h, length-set quote i c)

-- A step of one thread lowers its work and leaves the quote of the other.
unfoldable LowersA : Place → Shared → Option (Place × Shared) → Type 0
LowersA a s none = Unit
LowersA a s (some r) = (work r.0 r.1.quote_A < work a s.quote_A) × (r.1.quote_B ≡ s.quote_B)

unfoldable LowersB : Place → Shared → Option (Place × Shared) → Type 0
LowersB b s none = Unit
LowersB b s (some r) = (work r.0 r.1.quote_B < work b s.quote_B) × (r.1.quote_A ≡ s.quote_A)

lowers-A : (a : Place) (s : Shared) → LowersA a s (modify_A_print_B a s)
unfolding LowersA modify_A_print_B work
lowers-A (modifies i) s = (modify-work (get_elem? s.quote_A i) i s.quote_A refl, refl)
lowers-A posts s = (omega arith, refl)
lowers-A waits s = elim (Bool-cases (s.sem_b == 0)) [
  | inl e ↦ rw e tt
  | inr e ↦ rw e (omega arith, refl)
]
lowers-A prints s = (omega arith, refl)
lowers-A (ended printed) s = tt

lowers-B : (b : Place) (s : Shared) → LowersB b s (modify_B_print_A b s)
unfolding LowersB modify_B_print_A work
lowers-B (modifies i) s = (modify-work (get_elem? s.quote_B i) i s.quote_B refl, refl)
lowers-B posts s = (omega arith, refl)
lowers-B waits s = elim (Bool-cases (s.sem_a == 0)) [
  | inl e ↦ rw e tt
  | inr e ↦ rw e (omega arith, refl)
]
lowers-B prints s = (omega arith, refl)
lowers-B (ended printed) s = tt

steps-work :
    {a b a' b' : Place} {s s' : Shared} (run : Meets a b s a' b' s')
    → steps run + work a' s'.quote_A + work b' s'.quote_B ≤ work a s.quote_A + work b s.quote_B
unfolding steps LowersA LowersB
steps-work stands = omega arith
steps-work (first_moves {a = a} {b = b} {s = s} e more) =
    let (less, same) = subst (LowersA a s) e (lowers-A a s) in
    let kept = ap (work b) same in omega (arith, steps-work more, less, kept)
steps-work (second_moves {a = a} {b = b} {s = s} e more) =
    let (less, same) = subst (LowersB b s) e (lowers-B b s) in
    let kept = ap (work a) same in omega (arith, steps-work more, less, kept)

-- From the start with two quotes without NUL, whatever the order in which the threads run: they make at
-- most as many steps as the quotes have characters and eight more, a thread can go on unless both
-- have ended, and a thread that has ended has printed the other quote wholly decoded.
pub rendezvous_prints :
    {a b : Place} {s : Shared} (A B : List ℕ)
    → IsText A
    → IsText B
    → (run : Meets (modifies 0) (modifies 0) (start A B) a b s)
    → (steps run ≤ length A + length B + 8) × IsGoing a b s × HasPrinted B a × HasPrinted A b
unfolding IsMeeting IsAt decoded start posted passed HasPrinted work
rendezvous_prints {a = a} {b = b} {s = s} A B h k run =
    let meeting = Meets-IsMeeting A B h k run (refl, refl, refl, refl, tt, tt) in
    let (at_a, at_b, sa, sb, pa, pb) = meeting in
    (omega (arith, steps-work run), IsMeeting-IsGoing A B a b s meeting, pa, pb)
