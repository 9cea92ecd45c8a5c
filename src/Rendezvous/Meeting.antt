-- ===== src/Rendezvous/Meeting.antt =====
-- rendezvous_sol.c: how far the threads have come with their quotes, the semaphores and the prints.
use machine_project.Prelude.{
  ℕ, zero, suc, ◌+◌, ◌-◌, ◌<◌, ◌≡◌, refl, sym, ap, ◌∙◌, ◌==◌, Bool-cases, List, [], ◌∷◌, get_elem?,
  set, map, Option, none, some, inl, inr, arith,
}
use mathlib.Core.Path.{subst}
use mathlib.Core.Option.{none-ne-some}
use machine_project.Rendezvous.{
  Shared, Place, modifies, posts, waits, prints, ended, modify, modify_A_print_B, modify_B_print_A,
  Meets, stands, first_moves, second_moves,
}

-- The quote that was first `text`, with its first `i` characters decoded.
unfoldable pub decoded : ℕ → List ℕ → List ℕ
decoded zero text = text
decoded (suc i) [] = []
decoded (suc i) (c ∷ text) = (c - 1) ∷ decoded i text

abbrev pub decode : List ℕ → List ℕ
decode = map (λ c. c - 1)

-- No character is NUL.
unfoldable pub IsText : List ℕ → Type 0
IsText [] = Unit
IsText (c ∷ text) = (0 < c) × IsText text

-- How far a thread has come with its quote, which was first `text`.
unfoldable pub IsAt : List ℕ → Place → List ℕ → Type 0
IsAt text (modifies i) quote = quote ≡ decoded i text
IsAt text posts quote = quote ≡ decode text
IsAt text waits quote = quote ≡ decode text
IsAt text prints quote = quote ≡ decode text
IsAt text (ended printed) quote = quote ≡ decode text

-- Whether a thread has posted, and whether it has passed its wait.
unfoldable pub posted : Place → ℕ
posted (modifies i) = 0
posted posts = 0
posted _ = 1

unfoldable pub passed : Place → ℕ
passed prints = 1
passed (ended printed) = 1
passed _ = 0

-- What a thread has printed is the other quote.
unfoldable pub HasPrinted : List ℕ → Place → Type 0
HasPrinted text (ended printed) = printed ≡ decode text
HasPrinted text _ = Unit

unfoldable pub IsMeeting : List ℕ → List ℕ → Place → Place → Shared → Type 0
IsMeeting A B a b s =
    IsAt A a s.quote_A
    × IsAt B b s.quote_B
    × (s.sem_a + passed b ≡ posted a)
    × (s.sem_b + passed a ≡ posted b)
    × HasPrinted B a
    × HasPrinted A b

decoded-get : (i : ℕ) (text : List ℕ) → get_elem? (decoded i text) i ≡ get_elem? text i
unfolding decoded
decoded-get zero text = refl
decoded-get (suc i) [] = refl
decoded-get (suc i) (c ∷ text) = decoded-get i text

decoded-set :
    (i c : ℕ) (text : List ℕ)
    → get_elem? text i ≡ some (suc c)
    → set (decoded i text) i c ≡ decoded (suc i) text
unfolding decoded
decoded-set zero c [] h = refl
decoded-set zero c (d ∷ text) h = ap (λ e. e ∷ text) (ground arith)
decoded-set (suc i) c [] h = refl
decoded-set (suc i) c (d ∷ text) h = ap (◌∷◌ (d - 1)) (decoded-set i c text h)

decoded-end : (i : ℕ) (text : List ℕ) → get_elem? text i ≡ none → decoded i text ≡ decode text
unfolding decoded
decoded-end zero [] h = refl
decoded-end zero (c ∷ text) h = absurd (none-ne-some _ (sym h))
decoded-end (suc i) [] h = refl
decoded-end (suc i) (c ∷ text) h = ap (◌∷◌ (c - 1)) (decoded-end i text h)

IsText-get : (i : ℕ) (text : List ℕ) → IsText text → ¬ (get_elem? text i ≡ some 0)
unfolding IsText
IsText-get i [] h e = absurd (none-ne-some _ e)
IsText-get zero (c ∷ text) (more, h) e = absurd (ground arith)
IsText-get (suc i) (c ∷ text) (more, h) e = IsText-get i text h e

-- A thread behind a round of its loop has not posted.
unfoldable pub IsModified : List ℕ → Place × List ℕ → Type 0
IsModified text r = IsAt text r.0 r.1 × (posted r.0 ≡ 0) × (passed r.0 ≡ 0)

modify-IsAt :
    (text : List ℕ) (i : ℕ) (o : Option ℕ)
    → IsText text
    → get_elem? text i ≡ o
    → IsModified text (modify o i (decoded i text))
unfolding IsModified IsAt modify posted passed
modify-IsAt text i none h e = (decoded-end i text e, refl, refl)
modify-IsAt text i (some zero) h e = absurd (IsText-get i text h e)
modify-IsAt text i (some (suc c)) h e = (decoded-set i c text e, refl, refl)

modify-IsModified :
    (text quote : List ℕ) (i : ℕ)
    → IsText text
    → quote ≡ decoded i text
    → IsModified text (modify (get_elem? quote i) i quote)
modify-IsModified text quote i h e =
    rw (e, decoded-get i text) (modify-IsAt text i (get_elem? text i) h refl)

HasPrinted-before : (text : List ℕ) (a : Place) → passed a ≡ 0 → HasPrinted text a
unfolding passed HasPrinted
HasPrinted-before text (modifies i) h = tt
HasPrinted-before text posts h = tt
HasPrinted-before text waits h = tt
HasPrinted-before text prints h = tt
HasPrinted-before text (ended printed) h = absurd (omega arith)

-- A thread that has posted has decoded its quote.
IsAt-posted :
    (text : List ℕ) (a : Place) (quote : List ℕ)
    → IsAt text a quote
    → 0 < posted a
    → quote ≡ decode text
unfolding IsAt posted
IsAt-posted text (modifies i) quote h p = absurd (omega arith)
IsAt-posted text posts quote h p = h
IsAt-posted text waits quote h p = h
IsAt-posted text prints quote h p = h
IsAt-posted text (ended printed) quote h p = h

-- What a step of the first thread comes to.
unfoldable IsStepA : List ℕ → List ℕ → Place → Option (Place × Shared) → Type 0
IsStepA A B b none = Unit
IsStepA A B b (some r) = IsMeeting A B r.0 b r.1

unfoldable IsStepB : List ℕ → List ℕ → Place → Option (Place × Shared) → Type 0
IsStepB A B a none = Unit
IsStepB A B a (some r) = IsMeeting A B a r.0 r.1

step-A :
    (A B : List ℕ) (a b : Place) (s : Shared)
    → IsText A
    → IsMeeting A B a b s
    → IsStepA A B b (modify_A_print_B a s)
unfolding IsStepA IsMeeting modify_A_print_B IsAt posted passed HasPrinted IsModified
step-A A B (modifies i) b s h (at_a, at_b, sa, sb, pa, pb) =
    let (at, p, q) = modify-IsModified A s.quote_A i h at_a in
    (at, at_b, sa ∙ sym p, ap (◌+◌ s.sem_b) q ∙ sb, HasPrinted-before B _ q, pb)
step-A A B posts b s h (at_a, at_b, sa, sb, pa, pb) = (at_a, at_b, omega arith, sb, tt, pb)
step-A A B waits b s h (at_a, at_b, sa, sb, pa, pb) = elim (Bool-cases (s.sem_b == 0)) [
  | inl e ↦ rw e tt
  | inr e ↦ rw e (at_a, at_b, sa, ground arith, tt, pb)
]
step-A A B prints b s h (at_a, at_b, sa, sb, pa, pb) =
    (at_a, at_b, sa, sb, IsAt-posted B b s.quote_B at_b (omega arith), pb)
step-A A B (ended printed) b s h meeting = tt

step-B :
    (A B : List ℕ) (a b : Place) (s : Shared)
    → IsText B
    → IsMeeting A B a b s
    → IsStepB A B a (modify_B_print_A b s)
unfolding IsStepB IsMeeting modify_B_print_A IsAt posted passed HasPrinted IsModified
step-B A B a (modifies i) s h (at_a, at_b, sa, sb, pa, pb) =
    let (at, p, q) = modify-IsModified B s.quote_B i h at_b in
    (at_a, at, ap (◌+◌ s.sem_a) q ∙ sa, sb ∙ sym p, pa, HasPrinted-before A _ q)
step-B A B a posts s h (at_a, at_b, sa, sb, pa, pb) = (at_a, at_b, sa, omega arith, pa, tt)
step-B A B a waits s h (at_a, at_b, sa, sb, pa, pb) = elim (Bool-cases (s.sem_a == 0)) [
  | inl e ↦ rw e tt
  | inr e ↦ rw e (at_a, at_b, ground arith, sb, pa, tt)
]
step-B A B a prints s h (at_a, at_b, sa, sb, pa, pb) =
    (at_a, at_b, sa, sb, pa, IsAt-posted A a s.quote_A at_a (omega arith))
step-B A B a (ended printed) s h meeting = tt

pub Meets-IsMeeting :
    {a b a' b' : Place} {s s' : Shared} (A B : List ℕ)
    → IsText A
    → IsText B
    → Meets a b s a' b' s'
    → IsMeeting A B a b s
    → IsMeeting A B a' b' s'
unfolding IsStepA IsStepB
Meets-IsMeeting A B h k stands meeting = meeting
Meets-IsMeeting A B h k (first_moves {a = a} {b = b} {s = s} e more) meeting =
    Meets-IsMeeting A B h k more (subst (IsStepA A B b) e (step-A A B a b s h meeting))
Meets-IsMeeting A B h k (second_moves {a = a} {b = b} {s = s} e more) meeting =
    Meets-IsMeeting A B h k more (subst (IsStepB A B a) e (step-B A B a b s k meeting))
