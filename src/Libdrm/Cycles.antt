-- ===== src/Libdrm/Cycles.antt =====
-- libdrm.c: what is_Cycle computes where a vertex has at most one edge out of it, as a thread that
-- waits for one mutex and a mutex that one thread owns do.
use machine_project.Prelude.{
  ℕ, zero, suc, ◌+◌, ◌≤◌, ◌<◌, ◌≡◌, refl, sym, ap, ◌∙◌, ◌==◌, ==→eq, Bool, true, false, ◌||◌,
  if◌then◌else◌, Bool-cases, List, [], ◌∷◌, Option, none, some, ◌⊎◌, inl, inr, Option-cases,
  Outcome, ok, fault, hang, abort, ◌>>=◌, arith,
}
use mathlib.Core.Path.{subst}
use mathlib.Core.Option.{none-ne-some}
use machine_project.Libdrm.{GraphLibrary, IsSetLibrary, the_set, search, is_cycle}

unfoldable pub from_option : Option ℕ → List ℕ
from_option none = []
from_option (some w) = w ∷ []

-- The walk from `v` along `next` ends after `k` edges.
unfoldable pub EndsAfter : (ℕ → Option ℕ) → ℕ → ℕ → Type 0
EndsAfter next zero v = next v ≡ none
EndsAfter next (suc k) v = (w : ℕ) × (next v ≡ some w) × EndsAfter next k w

unfoldable some_or : ℕ → Option ℕ → ℕ
some_or a none = a
some_or a (some b) = b

unfoldable pub member : ℕ → List ℕ → Bool
member v [] = false
member v (u ∷ us) = u == v || member v us

-- How many of the vertices below `n` are not among `us`.
unfoldable pub unvisited : ℕ → List ℕ → ℕ
unvisited zero us = 0
unvisited (suc n) us = (if member n us then 0 else 1) + unvisited n us

unvisited-above : (n : ℕ) (us : List ℕ) (v : ℕ) → n ≤ v → unvisited n (v ∷ us) ≡ unvisited n us
unfolding unvisited member
unvisited-above zero us v h = refl
unvisited-above (suc n) us v h =
    let other : (v == n) ≡ false = ground arith in
    rw (other, unvisited-above n us v (omega arith)) refl

unvisited-less :
    (n : ℕ) (us : List ℕ) (v : ℕ)
    → v < n
    → member v us ≡ false
    → unvisited n (v ∷ us) + 1 ≡ unvisited n us
unfolding unvisited member
unvisited-less zero us v h new = absurd (omega arith)
unvisited-less (suc n) us v h new = elim (Bool-cases (v == n)) [
  | inl same ↦
      let here = ==→eq v n same in
      let old : member n us ≡ false = subst (λ a. member a us ≡ false) here new in
      rw (same, old, unvisited-above n us v (omega arith)) (omega arith)
  | inr other ↦
      let low : v < n = ground arith in rw other (omega (arith, unvisited-less n us v low new))
]

module _ (next : ℕ → Option ℕ) where
  EndsAfter-unique : (j k v : ℕ) → EndsAfter next j v → EndsAfter next k v → j ≡ k
  unfolding EndsAfter some_or
  EndsAfter-unique zero zero v h h' = refl
  EndsAfter-unique zero (suc k) v h (w, e, more) = absurd (none-ne-some _ (sym h ∙ e))
  EndsAfter-unique (suc j) zero v (w, e, more) h' = absurd (none-ne-some _ (sym h' ∙ e))
  EndsAfter-unique (suc j) (suc k) v (w, e, more) (w', e', more') =
      let same : w ≡ w' = ap (some_or w) (sym e ∙ e') in
      ap suc (EndsAfter-unique j k w' (subst (EndsAfter next j) same more) more')

  -- The vertices `us` were passed on the way to `v`, the last one first.
  unfoldable pub IsTrail : List ℕ → ℕ → Type 0
  IsTrail [] v = Unit
  IsTrail (u ∷ us) v = (next u ≡ some v) × IsTrail us u

  EndsAfter-next : (v w k : ℕ) → next v ≡ some w → EndsAfter next k v → (j : ℕ) × EndsAfter next j w
  unfolding EndsAfter some_or
  EndsAfter-next v w zero e h = absurd (none-ne-some _ (sym h ∙ e))
  EndsAfter-next v w (suc k) e (w', e', more) =
      (k, subst (EndsAfter next k) (ap (some_or w) (sym e' ∙ e)) more)

  -- A vertex on the way is further from the end.
  IsTrail-further :
      (us : List ℕ) (u v k : ℕ)
      → IsTrail us v
      → member u us ≡ true
      → EndsAfter next k v
      → (m : ℕ) × (k < m) × EndsAfter next m u
  unfolding IsTrail member EndsAfter
  IsTrail-further [] u v k trail h ends = absurd (ground arith)
  IsTrail-further (t ∷ us) u v k (e, trail) h ends = elim (Bool-cases (t == u)) [
    | inl same ↦ (suc k, omega arith, subst (EndsAfter next (suc k)) (==→eq t u same) (v, e, ends))
    | inr other ↦
        let h' : member u us ≡ true = rw other at h in
        let (m, less, far) = IsTrail-further us u t (suc k) trail h' (v, e, ends) in
        (m, omega arith, far)
  ]

  no_end : (us : List ℕ) (v k : ℕ) → IsTrail us v → member v us ≡ true → ¬ EndsAfter next k v
  no_end us v k trail h ends =
      let (m, less, far) = IsTrail-further us v v k trail h ends in
      let same = EndsAfter-unique k m v ends far in absurd (omega arith)

-- The set has the elements of the list.
unfoldable pub Represents : (l : GraphLibrary) → Option l.Vertices → List ℕ → Type 0
Represents l s us = (a : ℕ) → l.set_contains (the_set l s) a ≡ member a us

-- What the search finds from `v`: no end; an end at `v`; or an end further on, and then it comes to
-- what set_destroy comes to with NULL and, where that returns, to 0. It leaves no set.
unfoldable pub IsFound :
    (l : GraphLibrary) → (ℕ → Option ℕ) → ℕ → Outcome (Bool × Option l.Vertices) → Type 0
IsFound l next v run =
    (run ≡ ok (true, none)) × ((k : ℕ) → ¬ EndsAfter next k v)
    ⊎ (run ≡ ok (false, none)) × EndsAfter next 0 v
    ⊎ (run ≡ (l.set_destroy_null >>= λ _. ok (false, none))) × ((k : ℕ) × EndsAfter next (suc k) v)

-- What comes to an end once comes to the same end twice.
twice :
    {A B : Type 0} (m : Outcome (Unit {0})) (a : A) (b : B) (f : A → Outcome B)
    → f a ≡ (m >>= λ _. ok b)
    → ((m >>= λ _. ok a) >>= f) ≡ (m >>= λ _. ok b)
twice (ok u) a b f h = h
twice fault a b f h = refl
twice hang a b f h = refl
twice abort a b f h = refl

module _ {l : GraphLibrary} (laws : IsSetLibrary l) (g : l.Graph) (next : ℕ → Option ℕ) (n : ℕ)
    (edges : (v : ℕ) → l.graph_neighbors g v ≡ from_option (next v))
    (below : (v w : ℕ) → next v ≡ some w → w < n) where
  Represents-create : Represents l none []
  unfolding Represents the_set member
  Represents-create = laws.contains-create

  Represents-add :
      (s : Option l.Vertices) (us : List ℕ) (v : ℕ)
      → Represents l s us
      → Represents l (some (l.set_add (the_set l s) v)) (v ∷ us)
  unfolding Represents the_set member
  Represents-add s us v h a = laws.contains-add _ v a ∙ ap (◌||◌ (v == a)) (h a)

  is_cycle-unmarked :
      (calls : ℕ) (us : List ℕ) (s : Option l.Vertices) (v : ℕ)
      → unvisited n us < calls
      → v < n
      → IsTrail next us v
      → Represents l s us
      → IsFound l next v (is_cycle l calls g s v)
  unfolding Represents IsFound is_cycle search from_option IsTrail EndsAfter
  is_cycle-unmarked zero us s v fuel low trail marks = absurd (omega arith)
  is_cycle-unmarked (suc calls) us s v fuel low trail marks = elim (Bool-cases (member v us)) [
    | inl seen ↦ let h = marks v ∙ seen in rw h (inl (refl, λ k. no_end next us v k trail seen))
    | inr new ↦
        let h = marks v ∙ new in
        let fewer = unvisited-less n us v low new in
        elim (Option-cases (next v)) [
          | inl stop ↦ rw (h, edges v, stop) (inr (inl (refl, refl)))
          | inr (w, e) ↦
              let marked = Represents-add s us v marks in
              let inner =
                is_cycle-unmarked calls (v ∷ us) (some (l.set_add (the_set l s) v)) w (omega arith)
                  (below v w e) (e, trail) marked in
              elim inner [
                | inl (run, endless) ↦
                    rw (h, edges v, e, run)
                      (inl (
                        refl,
                        λ k ends.
                            let (j, ends') = EndsAfter-next next v w k e ends in endless j ends',
                      ))
                | inr (inl (run, ends)) ↦
                    rw (h, edges v, e, run) (inr (inr (refl, (0, (w, refl, ends)))))
                | inr (inr (run, (k, ends))) ↦
                    rw (h, edges v, e, run)
                      (inr (
                        inr (
                          twice l.set_destroy_null (false, none) (false, none) _ refl,
                          (suc k, (w, refl, ends)),
                        )))
              ]
        ]
  ]

  unvisited-bound : (k : ℕ) → unvisited k [] ≡ k
  unfolding unvisited member
  unvisited-bound zero = refl
  unvisited-bound (suc k) = omega (arith, unvisited-bound k)

  -- Let the vertices from which an edge leads have one edge each, to vertices below `n`. From a vertex
  -- below `n`, and without a set, more than `n` calls are enough for is_Cycle, and it leaves no set: it
  -- returns 1 if the walk from the vertex has no end, and 0 if no edge leads from the vertex. If the
  -- walk ends further on, it comes to what set_destroy comes to with NULL, and returns 0 only where
  -- that returns.
  pub is_cycle_finds :
      (calls v : ℕ) → n < calls → v < n → IsFound l next v (is_cycle l calls g none v)
  unfolding IsTrail
  is_cycle_finds calls v enough low =
      is_cycle-unmarked calls [] none v (omega (arith, unvisited-bound n)) low tt Represents-create
