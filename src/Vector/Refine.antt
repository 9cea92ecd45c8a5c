-- ===== src/Vector/Refine.antt =====
-- vector.c: a vector that holds a list of elements, and the growth that keeps it.
use native.Mathlib.Nat.{pow-le-pow_right}
use machine_project.Prelude.{
  ℕ, ◌+◌, ◌-◌, ◌*◌, ◌/◌, ◌%◌, ◌^◌, ◌≤◌, ◌<◌, ◌≡◌, refl, ap, ◌∙◌, Bool, true, List, [], ◌∷◌, ◌++◌,
  map, append_assoc, Option, none, some, length, length-append, length-map, length-replicate,
  replicate, ok, arith,
}
use machine_project.Vector.Capacity.{get_new_capacity_least}
use machine_project.Vector.Defs.{Vector, Cells, reallocate, enlarge}
use machine_project.Vector.Cells.{fit_grows}

-- The first cells hold `xs`, the others are `rest`. The capacity is that of the block, and stays far
-- below the point where its size in bytes wraps.
pub record Holds {V E : Type 0} (v : Vector V E) (xs : List V) (rest : Cells V) : Type 0 where
  pub cells : v.array ≡ map some xs ++ rest
  pub count : v.size ≡ length xs
  pub room : v.capacity ≡ length xs + length rest
  pub positive : 0 < v.capacity
  pub small : v.capacity ≤ 2 ^ 60

-- What no operation but creation changes.
pub record SameCallbacks {V E : Type 0} (v w : Vector V E) : Type 0 where
  pub copies : w.copy_constructor ≡ v.copy_constructor
  pub destroys : w.destructor ≡ v.destructor
  pub defaults : w.default_constructor ≡ v.default_constructor

-- A vector with a cell to spare.
pub record Roomy {V E : Type 0} (v : Vector V E) (xs : List V) (w : Vector V E) : Type 0 where
  pub cell : Option V
  pub others : Cells V
  pub holds : Holds w xs (cell ∷ others)
  pub same : SameCallbacks v w
  pub events : w.events ≡ v.events
  pub size : w.size ≡ v.size

spare :
    {V E : Type 0} (v w : Vector V E) (xs : List V) (rest : Cells V)
    → Holds w xs rest
    → length xs < w.capacity
    → SameCallbacks v w
    → w.events ≡ v.events
    → w.size ≡ v.size
    → Roomy v xs w
spare v w xs [] h lt s e n = absurd (omega arith)
spare v w xs (c ∷ cs) h lt s e n = record {
  cell = c;
  others = cs;
  holds = h;
  same = s;
  events = e;
  size = n;
}

-- A vector that is not full has room as it is; a full one has room once it is enlarged by one.
pub roomy :
    {V E : Type 0} (v : Vector V E) (xs : List V) (rest : Cells V)
    → Holds v xs rest
    → v.size < v.capacity
    → Roomy v xs v
roomy v xs rest h lt =
    spare v v xs rest h (omega arith) (record { copies = refl; destroys = refl; defaults = refl })
      refl refl

module _ (grants : ℕ → Bool) (met : (n : ℕ) → grants n ≡ true) where
  reallocate_grows :
      {V : Type 0} (c k : ℕ) (us : Cells V)
      → length us + k ≡ c
      → c ≤ 2 ^ 60
      → reallocate grants c us ≡ us ++ replicate k none
  unfolding reallocate
  reallocate_grows c k us h small =
      let e : c * 8 % 2 ^ 64 / 8 ≡ c = omega arith in
      rw (met (c * 8 % 2 ^ 64), e) (fit_grows c k us h)

  -- Where the allocator meets every request, growing to a target past the capacity adds unwritten
  -- cells and changes nothing else that the vector holds.
  pub enlarge_lem :
      {V E : Type 0} (v : Vector V E) (xs : List V) (rest : Cells V) (target : ℕ)
      → Holds v xs rest
      → v.capacity < target
      → target ≤ 2 ^ 60
      → (w : Vector V E) × (k : ℕ) × (enlarge grants target v ≡ ok w)
        × Holds w xs (rest ++ replicate k none)
        × SameCallbacks v w
        × (w.events ≡ v.events)
        × (w.size ≡ v.size)
        × (target ≤ w.capacity)
  unfolding enlarge
  enlarge_lem {V} v xs rest target h more limit =
      let (j, runs, reaches, least) = get_new_capacity_least target (omega arith) in
      let under : 2 ^ j ≤ 2 ^ 60 =
        pow-le-pow_right {n = 2} (omega arith) {i = j} {j = 60} (least 60 limit) in
      let k = 2 ^ j - v.capacity in
      let n : length v.array ≡ v.capacity = rw h.cells (
        omega
          (arith, length-append (map some xs) rest, length-map {B = Option V} some xs, h.room)) in
      let grown : reallocate grants (2 ^ j) v.array ≡ map some xs ++ (rest ++ replicate k none) =
        reallocate_grows (2 ^ j) k v.array (omega arith) under
        ∙ ap (λ us. us ++ replicate k none) h.cells
        ∙ append_assoc (map some xs) rest (replicate k none) in
      (
        record v { capacity = 2 ^ j; array = reallocate grants (2 ^ j) v.array },
        k,
        rw runs,
        record {
          cells = grown;
          count = h.count;
          room = omega (
            arith,
            length-append rest (replicate k none),
            length-replicate {A = Option V} k none,
          );
          positive = omega arith;
          small = under;
        },
        record { copies = refl; destroys = refl; defaults = refl },
        refl,
        refl,
        reaches,
      )

  pub enlarge-Roomy :
      {V E : Type 0} (v : Vector V E) (xs : List V) (rest : Cells V)
      → Holds v xs rest
      → v.capacity < 2 ^ 60
      → (w : Vector V E) × (enlarge grants ((v.capacity + 1) % 2 ^ 64) v ≡ ok w) × Roomy v xs w
  enlarge-Roomy v xs rest h limit =
      let e : (v.capacity + 1) % 2 ^ 64 ≡ v.capacity + 1 = omega arith in
      let (w, k, runs, held, same, events, size, enough) =
        enlarge_lem v xs rest (v.capacity + 1) h (omega arith) (omega arith) in
      (
        w,
        ap (λ n. enlarge grants n v) e ∙ runs,
        spare v w xs (rest ++ replicate k none) held (omega arith) same events size,
      )
