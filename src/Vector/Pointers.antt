-- ===== src/Vector/Pointers.antt =====
-- vector.c: the functions that return pointers into the array. A pointer is the index of its cell;
-- pointer arithmetic wraps as on addresses counted in cells.
use machine_project.Prelude.{
  ℕ, ◌+◌, ◌-◌, ◌%◌, ◌^◌, ◌≡◌, refl, Bool, List, [], ◌∷◌, ◌++◌, map, append_assoc, map-append, some,
  length, length-append, length-map, Outcome, ok, ltb, ◌==◌, lt→ltb, ◌>>◌, assert, arith, ◌∙◌,
}
use machine_project.Vector.Defs.{Vector, Cells, read}
use machine_project.Vector.Cells.{read-append}
use machine_project.Vector.Refine.{Holds}

module _ {V E : Type 0} where
  unfoldable pub vector_begin : Vector V E → ℕ
  vector_begin v = 0

  unfoldable pub vector_end : Vector V E → ℕ
  vector_end v = (v.size + 2 ^ 64 - 1) % 2 ^ 64

  unfoldable pub vector_at : Vector V E → ℕ → Outcome ℕ
  vector_at v position = do assert (ltb position v.size); ok position

  unfoldable pub vector_front : Vector V E → ℕ
  vector_front v = 0

  unfoldable pub vector_back : Vector V E → ℕ
  vector_back v = (v.size + 2 ^ 64 - 1) % 2 ^ 64

  unfoldable pub vector_empty : Vector V E → Bool
  vector_empty v = v.size == 0

  -- On a vector that holds `xs ++ y ∷ []`, the pointers of `vector_end` and `vector_back` are one: that
  -- of the last element, which `vector_at` returns for the last position, and which reads as `y`.
  vector_end-last :
      (v : Vector V E) (xs : List V) (y : V) (rest : Cells V)
      → Holds v (xs ++ y ∷ []) rest
      → (vector_end v ≡ vector_back v)
        × (vector_at v (length xs) ≡ ok (vector_end v))
        × (read v.array (vector_end v) ≡ ok y)
  unfolding vector_end vector_back vector_at
  vector_end-last v xs y rest h =
      let n = length-append xs (y ∷ []) in
      let size : v.size ≡ length xs + 1 = omega (arith, h.count) in
      let e : (v.size + 2 ^ 64 - 1) % 2 ^ 64 ≡ length xs = omega (arith, h.room, h.small) in
      let cells : v.array ≡ map some xs ++ some y ∷ rest =
        h.cells ∙ rw (map-append, append_assoc) refl in
      (
        refl,
        rw (e, lt→ltb (length xs) v.size (omega arith)),
        rw (e, cells, ← length-map some xs) (read-append (map some xs) y rest),
      )
