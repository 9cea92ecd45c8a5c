-- ===== src/Vector/Resize.antt =====
-- vector.c: resize and clear on a vector that holds a list.
use mathlib.Core.Path.{subst}
use machine_project.Prelude.{
  ℕ, suc, ◌+◌, ◌-◌, ◌^◌, ◌≤◌, ◌≡◌, refl, sym, ◌∙◌, Bool, true, false, List, [], ◌∷◌, ◌++◌, map,
  append_assoc, append-nil, map-append, Option, none, some, length, length-append, length-map,
  length-replicate, length-drop, replicate, drop, ok, arith, ltb, ◌==◌, lt→ltb, le→ltb, ltb→lt,
  ltb→le, ◌>>=◌, Bool-cases, inl, inr,
}
use machine_project.Vector.Defs.{
  Vector, Cells, fill, destroy_range, clear, vector_clear, vector_resize,
}
use machine_project.Vector.Cells.{fill_lem, destroy_range_lem, non_null}
use machine_project.Vector.Refine.{Holds, SameCallbacks, enlarge_lem}
use machine_project.Vector.Push.{Leaves}

module _ {V : Type 0} where
  filled : List V → Cells V → V → ℕ → Cells V
  filled xs rest d k = map some xs ++ (map some (replicate k d) ++ drop k rest)

module _ {V E : Type 0} (is_null : V → Bool) where
  -- Dropping the elements `ys` destroys those that are not NULL.
  drops :
      (v : Vector V E) (bs ys : List V) (rest : Cells V)
      → Holds v (bs ++ ys) rest
      → (destroy_range is_null v.destructor (v.size - length bs) (length bs) v.array v.events
          ≡ ok (v.events ++ map v.destructor (non_null is_null ys)))
        × Leaves v bs (map v.destructor (non_null is_null ys)) (record v {
          events = v.events ++ map v.destructor (non_null is_null ys);
          size = length bs;
        })
  drops v bs ys rest h =
      let n = length-map {B = Option V} some bs in
      let m = length-append bs ys in
      let cells : v.array ≡ map some bs ++ (map some ys ++ rest) =
        h.cells ∙ rw (map-append, append_assoc) refl in
      let count : v.size - length bs ≡ length ys = omega arith in
      (
        rw (count, cells, ← n)
            (destroy_range_lem is_null v.destructor (map some bs) ys rest v.events),
        record {
          rest = map some ys ++ rest;
          holds = record {
            cells = cells;
            count = refl;
            room = omega (
              arith,
              h.room,
              length-append (map some ys) rest,
              length-map {B = Option V} some ys,
            );
            positive = h.positive;
            small = h.small;
          };
          same = record { copies = refl; destroys = refl; defaults = refl };
          ran = refl;
        },
      )

  -- For a vector that holds `xs`, `vector_clear` returns with no element left, and has run the
  -- destructor once on each element of `xs` that is not NULL, in order.
  vector_clear_refines :
      (v : Vector V E) (xs : List V) (rest : Cells V)
      → Holds v xs rest
      → (w : Vector V E) × (vector_clear is_null (some v) ≡ ok w)
        × Leaves v [] (map v.destructor (non_null is_null xs)) w
  unfolding vector_clear clear
  vector_clear_refines v xs rest h =
      let (runs, left) = drops v [] xs rest h in
      let zero_off : v.size - 0 ≡ v.size = omega arith in
      (
        record v { events = v.events ++ map v.destructor (non_null is_null xs); size = 0 },
        rw (
            subst
              (λ k.
                destroy_range is_null v.destructor k 0 v.array v.events
                ≡ ok (v.events ++ map v.destructor (non_null is_null xs)))
              zero_off runs),
        left,
      )

  -- Filling the cells behind the elements with the default: before the size is set, and after.
  module _ (v : Vector V E) (xs : List V) (rest : Cells V) (d : V) (k : ℕ) (h : Holds v xs rest)
      (enough : k ≤ length rest) where
    fills : fill d k v.size v.array ≡ ok (filled xs rest d k)
    unfolding filled
    fills =
        rw (h.cells, h.count, ← length-map {B = Option V} some xs)
          (fill_lem d k (map some xs) rest enough)

    fills-Holds :
        Holds (record v { array = filled xs rest d k }) xs (map some (replicate k d) ++ drop k rest)
    unfolding filled
    fills-Holds = record {
      cells = refl;
      count = h.count;
      room = omega (
        arith,
        h.room,
        length-append (map some (replicate k d)) (drop k rest),
        length-map {B = Option V} some (replicate k d),
        length-replicate k d,
        length-drop k rest,
      );
      positive = h.positive;
      small = h.small;
    }

    fills-sized :
        Holds
          (record v { array = filled xs rest d k; size = length xs + k })
          (xs ++ replicate k d)
          (drop k rest)
    unfolding filled
    fills-sized = record {
      cells = rw (map-append, append_assoc);
      count = omega (arith, length-append xs (replicate k d), length-replicate k d);
      room = omega (
        arith,
        h.room,
        length-append xs (replicate k d),
        length-replicate k d,
        length-drop k rest,
      );
      positive = h.positive;
      small = h.small;
    }

  module _ (grants : ℕ → Bool) (met : (n : ℕ) → grants n ≡ true) where
    -- For a vector that holds `bs ++ ys`, `vector_resize` to the length of `bs` (zero and the present
    -- size included) returns with `bs`, and has run the destructor once on each element of `ys` that
    -- is not NULL, in order.
    vector_resize_shrinks :
        (v : Vector V E) (bs ys : List V) (rest : Cells V)
        → Holds v (bs ++ ys) rest
        → (w : Vector V E) × (vector_resize is_null grants v (length bs) ≡ ok w)
          × Leaves v bs (map v.destructor (non_null is_null ys)) w
    unfolding vector_resize non_null vector_clear
    vector_resize_shrinks v bs [] rest h =
        let held = subst (λ xs. Holds v xs rest) (append-nil bs) h in
        let same : (length bs == v.size) ≡ true = ground (arith, held.count) in
        (
          v,
          rw same,
          record {
            rest = rest;
            holds = held;
            same = record { copies = refl; destroys = refl; defaults = refl };
            ran = sym (append-nil v.events);
          },
        )
    vector_resize_shrinks v [] (y ∷ ys) rest h =
        let (w, runs, left) = vector_clear_refines v (y ∷ ys) rest h in
        let other : (0 == v.size) ≡ false = ground arith in (w, rw other runs, left)
    vector_resize_shrinks v (b ∷ bs) (y ∷ ys) rest h =
        let (runs, left) = drops v (b ∷ bs) (y ∷ ys) rest h in
        let n = length-append bs (y ∷ ys) in
        let other : (suc (length bs) == v.size) ≡ false = ground arith in
        let positive : (suc (length bs) == 0) ≡ false = ground arith in
        let down : ltb (suc (length bs)) v.size ≡ true = lt→ltb _ _ (omega arith) in
        (
          record v {
            events = v.events ++ map v.destructor (non_null is_null (y ∷ ys));
            size = suc (length bs);
          },
          rw (other, positive, down, runs),
          left,
        )

    -- The last loop of resize, at a vector with room.
    final_fill :
        (v w : Vector V E) (xs : List V) (rest : Cells V) (k n : ℕ)
        → n ≡ length xs + k
        → Holds w xs rest
        → k ≤ length rest
        → SameCallbacks v w
        → w.events ≡ v.events
        → (us : Cells V) × (fill w.default_constructor (n - w.size) w.size w.array ≡ ok us)
          × Leaves v
              (xs ++ replicate k v.default_constructor)
              []
              (record w { array = us; size = n })
    final_fill v w xs rest k n e h enough same events =
        let count : n - w.size ≡ k = omega (arith, h.count) in
        (
          filled xs rest v.default_constructor k,
          rw (count, same.defaults) (fills w xs rest v.default_constructor k h enough),
          rw e (record {
            rest = drop k rest;
            holds = fills-sized w xs rest v.default_constructor k h enough;
            same = record {
              copies = same.copies;
              destroys = same.destroys;
              defaults = same.defaults;
            };
            ran = events ∙ sym (append-nil v.events);
          }),
        )

    -- Both loops of resize, at a vector that was just enlarged.
    after_enlarge :
        (v e : Vector V E) (xs : List V) (rest : Cells V) (k n : ℕ)
        → n ≡ length xs + k
        → Holds e xs rest
        → k ≤ length rest
        → SameCallbacks v e
        → e.events ≡ v.events
        → (us : Cells V) × (((fill e.default_constructor (n - e.size) e.size e.array >>= λ cells.
                ok (record e { array = cells }))
              >>= λ v'.
                  (fill v'.default_constructor (n - v'.size) v'.size v'.array >>= λ cells.
                  ok (record v' { array = cells; size = n })))
            ≡ ok (record e { array = us; size = n }))
          × Leaves v
              (xs ++ replicate k v.default_constructor)
              []
              (record e { array = us; size = n })
    after_enlarge v e xs rest k n size held enough same events =
        let d = e.default_constructor in
        let count : n - e.size ≡ k = omega (arith, held.count) in
        let once : fill d (n - e.size) e.size e.array ≡ ok (filled xs rest d k) =
          rw count (fills e xs rest d k held enough) in
        let (us, twice, left) =
          final_fill v (record e { array = filled xs rest d k }) xs
            (map some (replicate k d) ++ drop k rest) k n size
            (fills-Holds e xs rest d k held enough)
            (omega (
              arith,
              length-append (map some (replicate k d)) (drop k rest),
              length-map {B = Option V} some (replicate k d),
              length-replicate k d,
            ))
            (record { copies = same.copies; destroys = same.destroys; defaults = same.defaults })
            events in
        (us, rw (once, twice), left)

    -- For a vector that holds `xs`, and a larger length of at most 2 ^ 60 with an allocator that meets
    -- every request, `vector_resize` returns with `xs` and behind it defaults up to that length, within
    -- the capacity or past it, and has run no destructor.
    vector_resize_grows :
        (v : Vector V E) (xs : List V) (rest : Cells V) (k : ℕ)
        → Holds v xs rest
        → length xs + suc k ≤ 2 ^ 60
        → (w : Vector V E) × (vector_resize is_null grants v (length xs + suc k) ≡ ok w)
          × Leaves v (xs ++ replicate (suc k) v.default_constructor) [] w
    unfolding vector_resize
    vector_resize_grows v xs rest k h limit =
        let n = length xs + suc k in
        let other : (length xs + suc k == v.size) ≡ false = ground (arith, h.count) in
        let positive : (length xs + suc k == 0) ≡ false = ground arith in
        let up : ltb (length xs + suc k) v.size ≡ false = le→ltb _ _ (omega (arith, h.count)) in
        elim (Bool-cases (ltb v.capacity (length xs + suc k))) [
          | inl beyond ↦
              let (e, m, runs, held, same, events, size, reaches) =
                enlarge_lem grants met v xs rest (length xs + suc k) h (ltb→lt _ _ beyond) limit in
              let (us, final, left) =
                after_enlarge v e xs (rest ++ replicate m none) (suc k) (length xs + suc k) refl
                  held (omega (arith, held.room)) same events in
              (
                record e { array = us; size = length xs + suc k },
                rw (other, positive, up, beyond, runs) final,
                left,
              )
          | inr within ↦
              let (us, fills, left) =
                final_fill v v xs rest (suc k) (length xs + suc k) refl h
                  (omega (arith, ltb→le _ _ within, h.room))
                  (record { copies = refl; destroys = refl; defaults = refl }) refl in
              (
                record v { array = us; size = length xs + suc k },
                rw (other, positive, up, within, fills),
                left,
              )
        ]
