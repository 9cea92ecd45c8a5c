-- ===== src/Vector/Push.antt =====
-- vector.c: push_back, pop_back, get and set on a vector that holds a list.
use machine_project.Prelude.{
  ℕ, ◌+◌, ◌-◌, ◌^◌, ◌<◌, ◌≡◌, refl, sym, ◌∙◌, Bool, true, false, List, [], ◌∷◌, ◌++◌, map,
  append_assoc, append-nil, map-append, Option, some, length, length-append, length-map, ok, arith,
  ltb, ◌==◌, ltb→lt, Bool-cases, inl, inr,
}
use machine_project.Vector.Defs.{Vector, Cells, write, vector_push_back, vector_pop_back}
use machine_project.Vector.Cells.{write-append, read-append}
use machine_project.Vector.Refine.{Holds, SameCallbacks, Roomy, roomy, enlarge-Roomy}

-- The outcome of an operation that leaves the vector with the elements `ys` and has run the
-- destructors `es` since.
pub record Leaves {V E : Type 0} (v : Vector V E) (ys : List V) (es : List E) (w : Vector V E)
    : Type 0 where
  pub rest : Cells V
  pub holds : Holds w ys rest
  pub same : SameCallbacks v w
  pub ran : w.events ≡ v.events ++ es

module _ {V E : Type 0} (is_null : V → Bool) where
  -- Writing the cell behind the elements adds one.
  push_at :
      (v : Vector V E) (xs : List V) (c : Option V) (rest : Cells V) (y : V)
      → Holds v xs (c ∷ rest)
      → (us : Cells V) × (write v.array v.size y ≡ ok us)
        × Holds (record v { array = us; size = v.size + 1 }) (xs ++ y ∷ []) rest
  push_at v xs c rest y h = (
    map some xs ++ some y ∷ rest,
    rw (h.cells, h.count, ← length-map {B = Option V} some xs)
        (write-append (map some xs) c rest y),
    record {
      cells = rw (map-append, append_assoc);
      count = omega (arith, h.count, length-append xs (y ∷ []));
      room = omega (arith, h.room, length-append xs (y ∷ []));
      positive = h.positive;
      small = h.small;
    },
  )

  pub push-Roomy :
      (v w : Vector V E) (xs : List V) (y : V)
      → Roomy v xs w
      → (us : Cells V) × (write w.array v.size y ≡ ok us)
        × Leaves v (xs ++ y ∷ []) [] (record w { array = us; size = v.size + 1 })
  push-Roomy v w xs y r =
      let (us, writes, held) = push_at w xs r.cell r.others y r.holds in
      (
        us,
        rw (← r.size) writes,
        record {
          rest = r.others;
          holds = rw (← r.size) held;
          same = record {
            copies = r.same.copies;
            destroys = r.same.destroys;
            defaults = r.same.defaults;
          };
          ran = r.events ∙ sym (append-nil v.events);
        },
      )

  module _ (grants : ℕ → Bool) (met : (n : ℕ) → grants n ≡ true) where
    -- For a vector that holds `xs`, with a capacity below 2 ^ 60, an allocator that meets every request
    -- and an element that is not NULL, `vector_push_back` returns with `xs` and behind it the copy of
    -- the element, and has run no destructor.
    pub vector_push_back_refines :
        (v : Vector V E) (xs : List V) (rest : Cells V) (element : V)
        → Holds v xs rest
        → v.capacity < 2 ^ 60
        → is_null element ≡ false
        → (w : Vector V E) × (vector_push_back is_null grants v element ≡ ok w)
          × Leaves v (xs ++ v.copy_constructor element ∷ []) [] w
    unfolding vector_push_back
    vector_push_back_refines v xs rest element h limit live =
        elim (Bool-cases (ltb v.size v.capacity)) [
          | inl room ↦
              let (us, writes, left) =
                push-Roomy v v xs (v.copy_constructor element)
                  (roomy v xs rest h (ltb→lt _ _ room)) in
              (record v { array = us; size = v.size + 1 }, rw (live, room, writes), left)
          | inr full ↦
              let (w, runs, r) = enlarge-Roomy grants met v xs rest h limit in
              let (us, writes, left) = push-Roomy v w xs (v.copy_constructor element) r in
              (
                record w { array = us; size = v.size + 1 },
                rw (live, full, runs, r.same.copies, writes),
                left,
              )
        ]

  -- For a vector that holds `xs ++ y ∷ []`, `vector_pop_back` returns with `xs` left, and has run the
  -- destructor once, on `y`.
  vector_pop_back_refines :
      (v : Vector V E) (xs : List V) (y : V) (rest : Cells V)
      → Holds v (xs ++ y ∷ []) rest
      → (w : Vector V E) × (vector_pop_back v ≡ ok w) × Leaves v xs (v.destructor y ∷ []) w
  unfolding vector_pop_back
  vector_pop_back_refines v xs y rest h =
      let n = length-append xs (y ∷ []) in
      let size : v.size ≡ length xs + 1 = omega arith in
      let cells : v.array ≡ map some xs ++ some y ∷ rest =
        h.cells ∙ rw (map-append, append_assoc) refl in
      let last : v.size - 1 ≡ length (map some xs) =
        omega (arith, length-map {B = Option V} some xs) in
      let nonempty : (v.size == 0) ≡ false = ground arith in
      (
        record v { events = v.events ++ v.destructor y ∷ []; size = v.size - 1 },
        rw (nonempty, cells, last, read-append (map some xs) y rest),
        record {
          rest = some y ∷ rest;
          holds = record {
            cells = cells;
            count = omega arith;
            room = omega arith;
            positive = h.positive;
            small = h.small;
          };
          same = record { copies = refl; destroys = refl; defaults = refl };
          ran = refl;
        },
      )
