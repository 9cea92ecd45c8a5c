-- ===== src/Vector/Cells.antt =====
-- vector.c: what the reads, writes and loops over the array do to its cells.
use machine_project.Prelude.{
  ℕ, zero, suc, ◌+◌, ◌≤◌, ◌≡◌, refl, ap, ◌∙◌, Bool, List, [], ◌∷◌, ◌++◌, map, append_assoc,
  append-nil, Option, none, some, length, length-append, drop, set, replicate, ok, fault, arith,
  if◌then◌else◌, lt→ltb, Bool-cases, inl, inr,
}
use machine_project.Vector.Defs.{Cells, read, write, fit, fill, destroy_range}

module _ {V : Type 0} where
  -- The cell at the end of a prefix is the next one of a longer prefix.
  pub length_snoc : (us : Cells V) (c : Option V) → length (us ++ c ∷ []) ≡ length us + 1
  length_snoc us c = omega (arith, length-append us (c ∷ []))

  pub snoc_append :
      (us : Cells V) (c : Option V) (bs : Cells V) → (us ++ c ∷ []) ++ bs ≡ us ++ c ∷ bs
  snoc_append us c bs = append_assoc us (c ∷ []) bs

  pub read-append :
      (us : Cells V) (y : V) (bs : Cells V) → read (us ++ some y ∷ bs) (length us) ≡ ok y
  unfolding read
  read-append [] y bs = refl
  read-append (a ∷ us) y bs = read-append us y bs

  pub read-append_none : (us bs : Cells V) → read (us ++ none ∷ bs) (length us) ≡ fault
  unfolding read
  read-append_none [] bs = refl
  read-append_none (a ∷ us) bs = read-append_none us bs

  pub read_past : (us : Cells V) → read us (length us) ≡ fault
  unfolding read
  read_past [] = refl
  read_past (a ∷ us) = read_past us

  set-append :
      (us : Cells V) (c d : Option V) (bs : Cells V)
      → set (us ++ c ∷ bs) (length us) d ≡ us ++ d ∷ bs
  set-append [] c d bs = refl
  set-append (a ∷ us) c d bs = ap (◌∷◌ a) (set-append us c d bs)

  pub write-append :
      (us : Cells V) (c : Option V) (bs : Cells V) (v : V)
      → write (us ++ c ∷ bs) (length us) v ≡ ok (us ++ some v ∷ bs)
  unfolding write
  write-append us c bs v = rw (
    lt→ltb (length us) (length (us ++ c ∷ bs)) (omega (arith, length-append us (c ∷ bs))),
    set-append us c (some v) bs,
  )

  pub read_next :
      (us : Cells V) (c : Option V) (y : V) (bs : Cells V)
      → read (us ++ c ∷ some y ∷ bs) (length us + 1) ≡ ok y
  read_next us c y bs =
      rw (← length_snoc us c, ← snoc_append us c (some y ∷ bs)) (read-append (us ++ c ∷ []) y bs)

  pub write_next :
      (us : Cells V) (a b : Option V) (bs : Cells V) (v : V)
      → write (us ++ a ∷ b ∷ bs) (length us + 1) v ≡ ok (us ++ a ∷ some v ∷ bs)
  write_next us a b bs v = rw (
    ← length_snoc us a,
    ← snoc_append us a (b ∷ bs),
    write-append (us ++ a ∷ []) b bs v,
    snoc_append us a (some v ∷ bs),
  )

  pub write_past : (us : Cells V) (v : V) → write us (length us) v ≡ fault
  unfolding write
  write_past us v = ground arith

  pub fit_grows : (n k : ℕ) (us : Cells V) → length us + k ≡ n → fit n us ≡ us ++ replicate k none
  unfolding fit
  fit_grows zero zero [] h = refl
  fit_grows zero (suc k) [] h = absurd (omega arith)
  fit_grows zero k (u ∷ us) h = absurd (omega arith)
  fit_grows (suc n) zero [] h = absurd (omega arith)
  fit_grows (suc n) (suc k) [] h = ap (◌∷◌ none) (fit_grows n k [] (omega arith))
  fit_grows (suc n) k (u ∷ us) h = ap (◌∷◌ u) (fit_grows n k us (omega arith))

  -- Filling `n` cells after `us`.
  pub fill_lem :
      (v : V) (n : ℕ) (us bs : Cells V)
      → n ≤ length bs
      → fill v n (length us) (us ++ bs) ≡ ok (us ++ (map some (replicate n v) ++ drop n bs))
  unfolding fill
  fill_lem v zero us bs h = refl
  fill_lem v (suc n) us [] h = absurd (omega arith)
  fill_lem v (suc n) us (b ∷ bs) h = rw (
    write-append us b bs v,
    ← length_snoc us (some v),
    ← snoc_append us (some v) bs,
    fill_lem v n (us ++ some v ∷ []) bs (omega arith),
    snoc_append us (some v) (map some (replicate n v) ++ drop n bs),
  )

  -- The elements of a range that are not NULL.
  unfoldable pub non_null : (V → Bool) → List V → List V
  non_null is_null [] = []
  non_null is_null (v ∷ vs) = if is_null v then non_null is_null vs else v ∷ non_null is_null vs

  pub destroy_range_lem :
      {E : Type 0} (is_null : V → Bool) (d : V → E) (us : Cells V) (ys : List V) (bs : Cells V)
      (es : List E)
      → destroy_range is_null d (length ys) (length us) (us ++ (map some ys ++ bs)) es
        ≡ ok (es ++ map d (non_null is_null ys))
  unfolding destroy_range non_null
  destroy_range_lem is_null d us [] bs es = rw append-nil
  destroy_range_lem is_null d us (y ∷ ys) bs es =
      let step : (es' : List _)
          → destroy_range is_null d (length ys) (length us + 1) (us ++ some y ∷ (map some ys ++ bs))
              es'
            ≡ ok (es' ++ map d (non_null is_null ys)) =
        λ es'.
          rw (← length_snoc us (some y), ← snoc_append us (some y) (map some ys ++ bs))
            (destroy_range_lem is_null d (us ++ some y ∷ []) ys bs es') in
      rw (read-append us y (map some ys ++ bs)) (elim (Bool-cases (is_null y)) [
        | inl null ↦ rw null (step es)
        | inr live ↦ rw live (
            step (es ++ d y ∷ [])
            ∙ ap ok (append_assoc es (d y ∷ []) (map d (non_null is_null ys))))
      ])
