-- ===== src/Vector/Access.antt =====
-- vector.c: create, get and set.
use mathlib.Core.Option.{get_or}
use machine_project.Prelude.{
  ℕ, ◌≡◌, refl, sym, ◌∙◌, Bool, true, false, List, [], ◌∷◌, ◌++◌, map, append_assoc, append-nil,
  map-append, Option, none, some, length, length-append, length-map, replicate, ok, arith, ltb,
}
use machine_project.Vector.Defs.{
  Vector, Cells, read, write, reallocate, fit, vector_create, vector_get, vector_set,
}
use machine_project.Vector.Cells.{read-append, write-append}
use machine_project.Vector.Refine.{Holds}
use machine_project.Vector.Push.{Leaves}

module _ {V E : Type 0} where
  read_at :
      (v : Vector V E) (bs : List V) (y : V) (ys : List V) (rest : Cells V)
      → Holds v (bs ++ y ∷ ys) rest
      → (ltb (length bs) v.size ≡ true) × (read v.array (length bs) ≡ ok y)
  read_at v bs y ys rest h =
      let n = length-append bs (y ∷ ys) in
      let e : length bs ≡ length (map some bs) = sym (length-map {B = Option V} some bs) in
      let cells : v.array ≡ map some bs ++ some y ∷ (map some ys ++ rest) =
        h.cells ∙ rw (map-append, append_assoc) refl in
      (ground (arith, h.count), rw (cells, e) (read-append (map some bs) y (map some ys ++ rest)))

  -- On a vector that holds `bs ++ y ∷ ys`, `vector_get` at position `length bs` returns `y`.
  pub vector_get_refines :
      (v : Vector V E) (bs : List V) (y : V) (ys : List V) (rest : Cells V)
      → Holds v (bs ++ y ∷ ys) rest
      → vector_get v (length bs) ≡ ok y
  unfolding vector_get
  vector_get_refines v bs y ys rest h =
      let (inside, reads) = read_at v bs y ys rest h in rw (inside, reads)

  module _ (is_null : V → Bool) where
    -- On a vector that holds `bs ++ y ∷ ys`, and with an element that is not NULL, `vector_set` at
    -- position `length bs` returns with `y` replaced by the copy of the element, the others as they
    -- were, and no destructor run: the old element is not destroyed.
    vector_set_refines :
        (v : Vector V E) (bs : List V) (y : V) (ys : List V) (rest : Cells V) (element : V)
        → Holds v (bs ++ y ∷ ys) rest
        → is_null element ≡ false
        → (w : Vector V E) × (vector_set is_null v (length bs) element ≡ ok w)
          × Leaves v (bs ++ v.copy_constructor element ∷ ys) [] w
    unfolding vector_set
    vector_set_refines v bs y ys rest element h live =
        let e : length bs ≡ length (map some bs) = sym (length-map {B = Option V} some bs) in
        let copy = v.copy_constructor element in
        let us = map some bs ++ some copy ∷ (map some ys ++ rest) in
        let cells : v.array ≡ map some bs ++ some y ∷ (map some ys ++ rest) =
          h.cells ∙ rw (map-append, append_assoc) refl in
        let writes : write v.array (length bs) copy ≡ ok us =
          rw (cells, e) (write-append (map some bs) (some y) (map some ys ++ rest) copy) in
        let (inside, _) = read_at v bs y ys rest h in
        (
          record v { array = us },
          rw (live, inside, writes),
          record {
            rest = rest;
            holds = record {
              cells = rw (map-append, append_assoc);
              count =
                  omega (arith, h.count, length-append bs (y ∷ ys), length-append bs (copy ∷ ys));
              room = omega (arith, h.room, length-append bs (y ∷ ys), length-append bs (copy ∷ ys));
              positive = h.positive;
              small = h.small;
            };
            same = record { copies = refl; destroys = refl; defaults = refl };
            ran = sym (append-nil v.events);
          },
        )

  -- Where the allocator meets both requests, `vector_create` returns an empty vector with
  -- room for 8 elements and no destructor run, with the callbacks given and the shallow ones for
  -- those that are NULL.
  vector_create_refines :
      (grants : ℕ → Bool) (bytes : ℕ) (shallow_copy : V → V) (shallow_destructor : V → E)
      (shallow_default : V) (copy : Option (V → V)) (destroy : Option (V → E)) (default : Option V)
      → grants bytes ≡ true
      → grants 64 ≡ true
      → (w : Vector V E) × (vector_create grants bytes shallow_copy shallow_destructor
            shallow_default copy destroy default
          ≡ ok w)
        × Holds w [] (replicate 8 none)
        × (w.events ≡ [])
        × (w.copy_constructor ≡ get_or copy shallow_copy)
        × (w.destructor ≡ get_or destroy shallow_destructor)
        × (w.default_constructor ≡ get_or default shallow_default)
  unfolding vector_create reallocate fit
  vector_create_refines grants bytes sc sd sf copy destroy default g h = (
    record {
      copy_constructor = get_or copy sc;
      destructor = get_or destroy sd;
      default_constructor = get_or default sf;
      array = replicate 8 none;
      size = 0;
      capacity = 8;
      events = [];
    },
    rw (g, h),
    record { cells = refl; count = refl; room = refl; positive = omega arith; small = omega arith },
    refl,
    refl,
    refl,
    refl,
  )
