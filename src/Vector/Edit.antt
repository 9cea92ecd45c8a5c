-- ===== src/Vector/Edit.antt =====
-- vector.c: insert and erase on a vector that holds a list.
use mathlib.Core.Path.{subst}
use machine_project.Prelude.{
  ℕ, suc, ◌+◌, ◌-◌, ◌^◌, ◌<◌, ◌≡◌, refl, sym, ◌∙◌, Bool, true, false, List, [], ◌∷◌, ◌++◌, map,
  append_assoc, append-nil, map-append, Option, some, length, length-append, length-map, ok, fault,
  arith, ltb, ◌==◌, Bool-cases, inl, inr,
}
use machine_project.Vector.Defs.{
  Vector, Cells, read, write, shift_up, shift_down, vector_insert, vector_erase,
}
use machine_project.Vector.Cells.{write-append, read-append}
use machine_project.Vector.Shift.{shift_up_lem, shift_down_lem, Unwritten, shift_down_faults}
use machine_project.Vector.Refine.{Holds, Roomy, roomy, enlarge-Roomy}
use machine_project.Vector.Push.{Leaves, push-Roomy, vector_push_back_refines}

module _ {V E : Type 0} (is_null : V → Bool) (grants : ℕ → Bool)
    (met : (n : ℕ) → grants n ≡ true) where
  -- The elements behind the place move up, and the new one is written over the gap.
  insert-Roomy :
      (v w : Vector V E) (bs : List V) (ys : List V) (element : V)
      → Roomy v (bs ++ ys) w
      → (us : Cells V) × (us' : Cells V) × (shift_up v.copy_constructor
            (v.size - length bs)
            (v.size - 1)
            w.array
          ≡ ok us)
        × (write us (length bs) (v.copy_constructor element) ≡ ok us')
        × Leaves v
            (bs ++ v.copy_constructor element ∷ map v.copy_constructor ys)
            []
            (record w { array = us'; size = v.size + 1 })
  insert-Roomy v w bs ys element r =
      let copy = v.copy_constructor in
      let n = length-map {B = Option V} some bs in
      let size : v.size ≡ length bs + length ys =
        sym r.size ∙ r.holds.count ∙ length-append bs ys in
      let (d, moves) = shift_up_lem copy ys (map some bs) r.cell r.others in
      let cells : w.array ≡ map some bs ++ (map some ys ++ r.cell ∷ r.others) =
        r.holds.cells ∙ rw (map-append, append_assoc) refl in
      let count : v.size - length bs ≡ length ys = omega arith in
      let last : v.size - 1 ≡ length (map some bs) + length ys - 1 = omega arith in
      (
        map some bs ++ d ∷ (map some (map copy ys) ++ r.others),
        map some bs ++ some (copy element) ∷ (map some (map copy ys) ++ r.others),
        rw (cells, count, last) moves,
        rw (← n) (write-append (map some bs) d (map some (map copy ys) ++ r.others) (copy element)),
        record {
          rest = r.others;
          holds = record {
            cells = rw (map-append, append_assoc);
            count =
                omega (arith, length-append bs (copy element ∷ map copy ys), length-map copy ys);
            room = omega (
              arith,
              r.holds.room,
              length-append bs (copy element ∷ map copy ys),
              length-map copy ys,
              length-append bs ys,
            );
            positive = r.holds.positive;
            small = r.holds.small;
          };
          same = record {
            copies = r.same.copies;
            destroys = r.same.destroys;
            defaults = r.same.defaults;
          };
          ran = r.events ∙ sym (append-nil v.events);
        },
      )

  -- For a vector that holds `bs ++ ys`, full or not, with a capacity below 2 ^ 60, an allocator that
  -- meets every request and an element that is not NULL, `vector_insert` at position `length bs`
  -- returns with `bs`, the copy of the element and copies of `ys`, in this order, and has run no
  -- destructor.
  pub vector_insert_refines :
      (v : Vector V E) (bs ys : List V) (rest : Cells V) (element : V)
      → Holds v (bs ++ ys) rest
      → v.capacity < 2 ^ 60
      → is_null element ≡ false
      → (w : Vector V E) × (vector_insert is_null grants v (length bs) element ≡ ok w)
        × Leaves v (bs ++ v.copy_constructor element ∷ map v.copy_constructor ys) [] w
  unfolding vector_insert
  vector_insert_refines v [] [] rest element h limit live =
      let empty : (v.size == 0) ≡ true = ground arith in
      let room : v.size < v.capacity = omega arith in
      let (us, writes, left) =
        push-Roomy is_null v v [] (v.copy_constructor element) (roomy v [] rest h room) in
      (
        record v { array = us; size = v.size + 1 },
        rw (
          live,
          empty,
          subst (λ n. write v.array n (v.copy_constructor element) ≡ ok us) h.count writes,
        ),
        left,
      )
  vector_insert_refines v (b ∷ bs) [] rest element h limit live =
      let held = subst (λ xs. Holds v xs rest) (append-nil (b ∷ bs)) h in
      let nonempty : (v.size == 0) ≡ false = ground arith in
      let at_end : (suc (length bs) == v.size) ≡ true = ground (arith, held.count) in
      let (w, pushes, left) =
        vector_push_back_refines is_null grants met v (b ∷ bs) rest element held limit live in
      (w, rw (live, nonempty, at_end) pushes, left)
  vector_insert_refines v bs (y ∷ ys) rest element h limit live =
      let n = length-append bs (y ∷ ys) in
      let nonempty : (v.size == 0) ≡ false = ground arith in
      let inside : (length bs == v.size) ≡ false = ground arith in
      elim (Bool-cases (v.size == v.capacity)) [
        | inl full ↦
            let (w, runs, r) = enlarge-Roomy grants met v (bs ++ y ∷ ys) rest h limit in
            let (us, us', moves, writes, left) = insert-Roomy v w bs (y ∷ ys) element r in
            (
              record w { array = us'; size = v.size + 1 },
              rw (live, nonempty, inside, full, runs, moves, writes),
              left,
            )
        | inr free ↦
            let (us, us', moves, writes, left) =
              insert-Roomy v v bs (y ∷ ys) element (roomy v (bs ++ y ∷ ys) rest h (ground arith)) in
            (
              record v { array = us'; size = v.size + 1 },
              rw (live, nonempty, inside, free, moves, writes),
              left,
            )
      ]

module _ {V E : Type 0} where
  -- The cells of a vector from the place on: the element to erase and those behind it.
  erase_cells :
      (v : Vector V E) (bs : List V) (y : V) (ys : List V) (rest : Cells V)
      → Holds v (bs ++ y ∷ ys) rest
      → v.array ≡ map some bs ++ some y ∷ (map some ys ++ rest)
  erase_cells v bs y ys rest h = h.cells ∙ rw (map-append, append_assoc) refl

  erase_at :
      (v : Vector V E) (bs : List V) (y : V) (ys : List V) (rest : Cells V)
      → Holds v (bs ++ y ∷ ys) rest
      → (ltb (length bs) v.size ≡ true)
        × (read v.array (length bs) ≡ ok y)
        × (v.size - length bs ≡ suc (length ys))
  erase_at v bs y ys rest h =
      let n = length-append bs (y ∷ ys) in
      let e : length bs ≡ length (map some bs) = sym (length-map {B = Option V} some bs) in
      (
        ground arith,
        rw (erase_cells v bs y ys rest h, e) (read-append (map some bs) y (map some ys ++ rest)),
        omega arith,
      )

  -- For a vector that holds `bs ++ y ∷ ys` and whose next cell was written before, `vector_erase` at
  -- position `length bs` returns with `bs` and copies of `ys`, and has run the destructor once, on `y`.
  pub vector_erase_refines :
      (v : Vector V E) (bs : List V) (y : V) (ys : List V) (stale : V) (rest : Cells V)
      → Holds v (bs ++ y ∷ ys) (some stale ∷ rest)
      → (w : Vector V E) × (vector_erase v (length bs) ≡ ok w)
        × Leaves v (bs ++ map v.copy_constructor ys) (v.destructor y ∷ []) w
  unfolding vector_erase
  vector_erase_refines v bs y ys stale rest h =
      let copy = v.copy_constructor in
      let (inside, reads, rounds) = erase_at v bs y ys (some stale ∷ rest) h in
      let (d, moves) = shift_down_lem copy (ys ++ stale ∷ []) (map some bs) (some y) rest in
      let cells : v.array ≡ map some bs ++ some y ∷ (map some (ys ++ stale ∷ []) ++ rest) =
        erase_cells v bs y ys (some stale ∷ rest) h ∙ rw (map-append, append_assoc) refl in
      let n = length-map {B = Option V} some bs in
      let count : v.size - length bs ≡ length (ys ++ stale ∷ []) =
        omega (arith, length-append ys (stale ∷ [])) in
      let us = map some bs ++ (map some (map copy (ys ++ stale ∷ [])) ++ d ∷ rest) in
      let moves' : shift_down copy (length (ys ++ stale ∷ [])) (length bs) v.array ≡ ok us =
        rw (cells, ← n) moves in
      (
        record v { events = v.events ++ v.destructor y ∷ []; array = us; size = v.size - 1 },
        rw (inside, reads, count, moves'),
        record {
          rest = some (copy stale) ∷ d ∷ rest;
          holds = record {
            cells = simp (map-append, append_assoc);
            count = omega (
              arith,
              h.count,
              length-append bs (y ∷ ys),
              length-append bs (map copy ys),
              length-map copy ys,
            );
            room = omega (
              arith,
              h.room,
              length-append bs (y ∷ ys),
              length-append bs (map copy ys),
              length-map copy ys,
            );
            positive = h.positive;
            small = h.small;
          };
          same = record { copies = refl; destroys = refl; defaults = refl };
          ran = refl;
        },
      )

  -- Where the cell behind the last element was never written, or lies past the array, `vector_erase`
  -- reads it at every position: the access is a fault.
  vector_erase_faults :
      (v : Vector V E) (bs : List V) (y : V) (ys : List V) (rest : Cells V)
      → Holds v (bs ++ y ∷ ys) rest
      → Unwritten rest
      → vector_erase v (length bs) ≡ fault
  unfolding vector_erase
  vector_erase_faults v bs y ys rest h u =
      let (inside, reads, rounds) = erase_at v bs y ys rest h in
      let n = length-map {B = Option V} some bs in
      let stops : shift_down v.copy_constructor (suc (length ys)) (length bs) v.array ≡ fault =
        rw (erase_cells v bs y ys rest h, ← n)
          (shift_down_faults v.copy_constructor ys (map some bs) (some y) rest u) in
      rw (inside, reads, rounds, stops)
