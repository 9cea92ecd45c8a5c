-- ===== src/Vector/Defs.antt =====
-- vector.c: the struct and its operations. A cell of the array is `none` until it is written.
-- `grants` says which requests for bytes the allocator meets; a refused `realloc` leaves a NULL
-- array, through which every access is a fault. Copies and default elements are values.
use mathlib.Core.Option.{get_or}
use machine_project.Prelude.{
  ℕ, zero, suc, ◌+◌, ◌-◌, ◌*◌, ◌/◌, ◌%◌, ◌^◌, ltb, ◌==◌, if◌then◌else◌, Bool, not, List, [], ◌∷◌,
  ◌++◌, Option, none, some, length, get_elem?, set, Outcome, ok, fault, ◌>>=◌, ◌>>◌, assert,
}
use machine_project.Vector.Capacity.{initial_capacity, get_new_capacity}

pub record Vector (V E : Type 0) : Type 0 where
  pub copy_constructor : V → V
  pub destructor : V → E
  pub default_constructor : V
  pub array : List (Option V)
  pub size : ℕ
  pub capacity : ℕ
  pub events : List E

abbrev pub Cells : Type 0 → Type 0
Cells V = List (Option V)

module _ {V : Type 0} where
  -- `array[i]` as a value, and as the target of an assignment
  unfoldable pub read : Cells V → ℕ → Outcome V
  read cells i = elim (get_elem? cells i) [
    | none ↦ fault
    | some c ↦ elim c [ none ↦ fault | some v ↦ ok v ]
  ]

  unfoldable pub write : Cells V → ℕ → V → Outcome (Cells V)
  write cells i v = if ltb i (length cells) then ok (set cells i (some v)) else fault

  -- The first `n` cells, and then cells that are not written yet.
  unfoldable pub fit : ℕ → Cells V → Cells V
  fit zero cells = []
  fit (suc n) [] = none ∷ fit n []
  fit (suc n) (c ∷ cells) = c ∷ fit n cells

  -- realloc(array, capacity * sizeof(void*)), where the product wraps
  unfoldable pub reallocate : (ℕ → Bool) → ℕ → Cells V → Cells V
  reallocate grants capacity cells =
      let bytes = capacity * 8 % 2 ^ 64 in if grants bytes then fit (bytes / 8) cells else []

  -- for (i = first; i < first + n; i++) array[i] = default_constructor();
  unfoldable pub fill : V → ℕ → ℕ → Cells V → Outcome (Cells V)
  fill v zero i cells = ok cells
  fill v (suc n) i cells = write cells i v >>= fill v n (i + 1)

  -- for (i = last; i > last - n; i--) array[i + 1] = copy_constructor(array[i]);
  unfoldable pub shift_up : (V → V) → ℕ → ℕ → Cells V → Outcome (Cells V)
  shift_up copy zero i cells = ok cells
  shift_up copy (suc n) i cells = do
    v ← read cells i
    cells' ← write cells (i + 1) (copy v)
    shift_up copy n (i - 1) cells'

  -- for (i = first; i < first + n; i++) array[i] = copy_constructor(array[i + 1]);
  unfoldable pub shift_down : (V → V) → ℕ → ℕ → Cells V → Outcome (Cells V)
  shift_down copy zero i cells = ok cells
  shift_down copy (suc n) i cells = do
    v ← read cells (i + 1)
    cells' ← write cells i (copy v)
    shift_down copy n (i + 1) cells'

  -- for (i = first; i < first + n; i++) if (array[i]) destructor(array[i]);
  unfoldable pub destroy_range :
      {E : Type 0} → (V → Bool) → (V → E) → ℕ → ℕ → Cells V → List E → Outcome (List E)
  destroy_range is_null destructor zero i cells events = ok events
  destroy_range is_null destructor (suc n) i cells events = do
    v ← read cells i
    destroy_range is_null destructor n (i + 1) cells
        (if is_null v then events else events ++ destructor v ∷ [])

module _ {V E : Type 0} (grants : ℕ → Bool) where
  -- The three shallow callbacks stand in for callbacks that are NULL. An unmet request for either
  -- block leaves a NULL pointer; the struct is written through it at once.
  unfoldable pub vector_create :
      ℕ → (V → V) → (V → E) → V → Option (V → V) → Option (V → E) → Option V → Outcome (Vector V E)
  vector_create struct_bytes shallow_copy shallow_destructor shallow_default copy destroy default =
      if grants struct_bytes
      then ok (record {
        copy_constructor = get_or copy shallow_copy;
        destructor = get_or destroy shallow_destructor;
        default_constructor = get_or default shallow_default;
        array = reallocate grants initial_capacity [];
        size = 0;
        capacity = initial_capacity;
        events = [];
      })
      else fault

  -- The two statements that grow the array to hold `target` elements.
  unfoldable pub enlarge : ℕ → Vector V E → Outcome (Vector V E)
  enlarge target v = do
    c ← get_new_capacity target
    ok (record v { capacity = c; array = reallocate grants c v.array })

  unfoldable pub vector_reserve : Vector V E → ℕ → Outcome (Vector V E)
  vector_reserve v n = if ltb v.capacity n then enlarge n v else ok v

module _ {V E : Type 0} where
  unfoldable pub vector_get : Vector V E → ℕ → Outcome V
  vector_get v position = do assert (ltb position v.size); read v.array position

  unfoldable pub vector_pop_back : Vector V E → Outcome (Vector V E)
  vector_pop_back v = do
    assert (not (v.size == 0))
    last ← read v.array (v.size - 1)
    ok (record v { events = v.events ++ v.destructor last ∷ []; size = v.size - 1 })

  unfoldable pub vector_erase : Vector V E → ℕ → Outcome (Vector V E)
  vector_erase v position = do
    assert (ltb position v.size)
    gone ← read v.array position
    cells ← shift_down v.copy_constructor (v.size - position) position v.array
    ok (record v { events = v.events ++ v.destructor gone ∷ []; array = cells; size = v.size - 1 })

module _ {V E : Type 0} (is_null : V → Bool) where
  unfoldable pub vector_set : Vector V E → ℕ → V → Outcome (Vector V E)
  vector_set v position element = do
    assert (not (is_null element))
    assert (ltb position v.size)
    cells ← write v.array position (v.copy_constructor element)
    ok (record v { array = cells })

  unfoldable pub clear : Vector V E → Outcome (Vector V E)
  clear v = do
    events ← destroy_range is_null v.destructor v.size 0 v.array v.events
    ok (record v { events = events; size = 0 })

  -- Both functions test `this` and write through it when it is NULL.
  unfoldable pub vector_clear : Option (Vector V E) → Outcome (Vector V E)
  vector_clear none = fault
  vector_clear (some v) = clear v

  -- What is left of a destroyed vector is the destructor runs.
  unfoldable pub vector_destroy : Option (Vector V E) → Outcome (List E)
  vector_destroy none = fault
  vector_destroy (some v) = do v' ← clear v; ok v'.events

  module _ (grants : ℕ → Bool) where
    unfoldable pub vector_push_back : Vector V E → V → Outcome (Vector V E)
    vector_push_back v element = do
      assert (not (is_null element))
      v' ← (if ltb v.size v.capacity then ok v else enlarge grants ((v.capacity + 1) % 2 ^ 64) v)
      cells ← write v'.array v.size (v.copy_constructor element)
      ok (record v' { array = cells; size = v.size + 1 })

    unfoldable pub vector_insert : Vector V E → ℕ → V → Outcome (Vector V E)
    vector_insert v position element = do
      assert (not (is_null element))
      if v.size == 0
          then (do
            cells ← write v.array 0 (v.copy_constructor element)
            ok (record v { array = cells; size = v.size + 1 }))
          else if position == v.size
          then vector_push_back v element
          else do
            v' ←
                (if v.size == v.capacity
                  then enlarge grants ((v.capacity + 1) % 2 ^ 64) v
                  else ok v)
            cells ← shift_up v.copy_constructor (v.size - position) (v.size - 1) v'.array
            cells' ← write cells position (v.copy_constructor element)
            ok (record v' { array = cells'; size = v.size + 1 })

    unfoldable pub vector_resize : Vector V E → ℕ → Outcome (Vector V E)
    vector_resize v n =
        if n == v.size
        then ok v
        else if n == 0
        then clear v
        else if ltb n v.size
        then (do
          events ← destroy_range is_null v.destructor (v.size - n) n v.array v.events
          ok (record v { events = events; size = n }))
        else do
          v' ←
              (if ltb v.capacity n
                then (do
                  e ← enlarge grants n v
                  cells ← fill e.default_constructor (n - e.size) e.size e.array
                  ok (record e { array = cells }))
                else ok v)
          cells ← fill v'.default_constructor (n - v'.size) v'.size v'.array
          ok (record v' { array = cells; size = n })
