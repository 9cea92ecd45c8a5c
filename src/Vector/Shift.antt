-- ===== src/Vector/Shift.antt =====
-- vector.c: the loops of insert and erase that move elements by one place.
use machine_project.Prelude.{
  suc, ◌+◌, ◌-◌, ◌≡◌, refl, ap, sym, ◌∙◌, List, [], ◌∷◌, ◌++◌, map, append_assoc, append-nil,
  Option, none, some, length, length-append, length-map, ok, fault, arith,
}
use machine_project.Vector.Defs.{Cells, read, shift_up, shift_down}
use machine_project.Vector.Cells.{
  read-append, read_next, read_past, read-append_none, write-append, write_next, length_snoc,
  snoc_append,
}

module _ {V : Type 0} where
  -- The first cell, if there is one, has not been written.
  unfoldable pub Unwritten : Cells V → Type 0
  Unwritten [] = Unit
  Unwritten (none ∷ cells) = Unit
  Unwritten (some v ∷ cells) = ⊥

  read-Unwritten :
      (us : Cells V) (c : Option V) (bs : Cells V)
      → Unwritten bs
      → read (us ++ c ∷ bs) (length us + 1) ≡ fault
  unfolding Unwritten
  read-Unwritten us c [] h = rw (← length_snoc us c) (read_past (us ++ c ∷ []))
  read-Unwritten us c (none ∷ bs) h =
      rw (← length_snoc us c, ← snoc_append us c (none ∷ bs)) (read-append_none (us ++ c ∷ []) bs)
  read-Unwritten us c (some v ∷ bs) h = absurd h

module _ {V : Type 0} (copy : V → V) where
  pub shift_down_lem :
      (ys : List V) (us : Cells V) (c : Option V) (bs : Cells V)
      → (d : Option V) × (shift_down copy (length ys) (length us) (us ++ c ∷ (map some ys ++ bs))
          ≡ ok (us ++ (map some (map copy ys) ++ d ∷ bs)))
  unfolding shift_down
  shift_down_lem [] us c bs = (c, refl)
  shift_down_lem (y ∷ ys) us c bs =
      let (d, e) = shift_down_lem ys (us ++ some (copy y) ∷ []) (some y) bs in
      let e' : shift_down copy (length ys) (length us + 1)
            (us ++ some (copy y) ∷ some y ∷ (map some ys ++ bs))
          ≡ ok (us ++ some (copy y) ∷ (map some (map copy ys) ++ d ∷ bs)) =
        rw (length_snoc, snoc_append, snoc_append) at e in
      (
        d,
        rw
            (
              read_next us c y (map some ys ++ bs),
              write-append us c (some y ∷ (map some ys ++ bs)) (copy y),
            )
            e',
      )

  -- One round more than there are elements reads a cell that has not been written.
  pub shift_down_faults :
      (ys : List V) (us : Cells V) (c : Option V) (bs : Cells V)
      → Unwritten bs
      → shift_down copy (suc (length ys)) (length us) (us ++ c ∷ (map some ys ++ bs)) ≡ fault
  unfolding shift_down
  shift_down_faults [] us c bs h = rw (read-Unwritten us c bs h)
  shift_down_faults (y ∷ ys) us c bs h =
      let e =
        rw (length_snoc, snoc_append) at
          (shift_down_faults ys (us ++ some (copy y) ∷ []) (some y) bs h) in
      rw
        (
          read_next us c y (map some ys ++ bs),
          write-append us c (some y ∷ (map some ys ++ bs)) (copy y),
        )
        e

  unfoldable pub rev : List V → List V
  rev [] = []
  rev (y ∷ ys) = rev ys ++ y ∷ []

  length-rev : (ys : List V) → length (rev ys) ≡ length ys
  unfolding rev
  length-rev [] = refl
  length-rev (y ∷ ys) = omega (arith, length-append (rev ys) (y ∷ []), length-rev ys)

  -- The loop meets the elements from the last one; `stack` holds those that it has not met.
  stack : Cells V → List V → Cells V
  stack us [] = us
  stack us (z ∷ zs) = stack us zs ++ some z ∷ []

  moved : List V → Cells V → Cells V
  moved [] bs = bs
  moved (z ∷ zs) bs = moved zs (some (copy z) ∷ bs)

  stack_first :
      (us : Cells V) (zs : List V) (y : V) → stack us (zs ++ y ∷ []) ≡ stack (us ++ some y ∷ []) zs
  unfolding stack
  stack_first us [] y = refl
  stack_first us (z ∷ zs) y = ap (λ t. t ++ some z ∷ []) (stack_first us zs y)

  moved_first :
      (zs : List V) (y : V) (bs : Cells V) → moved (zs ++ y ∷ []) bs ≡ some (copy y) ∷ moved zs bs
  unfolding moved
  moved_first [] y bs = refl
  moved_first (z ∷ zs) y bs = moved_first zs y (some (copy z) ∷ bs)

  stack-rev : (us : Cells V) (ys : List V) → stack us (rev ys) ≡ us ++ map some ys
  unfolding rev
  stack-rev us [] = unfold stack in sym (append-nil us)
  stack-rev us (y ∷ ys) =
      stack_first us (rev ys) y
      ∙ stack-rev (us ++ some y ∷ []) ys
      ∙ snoc_append us (some y) (map some ys)

  moved-rev : (ys : List V) (bs : Cells V) → moved (rev ys) bs ≡ map some (map copy ys) ++ bs
  unfolding rev
  moved-rev [] bs = unfold moved in refl
  moved-rev (y ∷ ys) bs = moved_first (rev ys) y bs ∙ ap (◌∷◌ (some (copy y))) (moved-rev ys bs)

  shift_up-stack :
      (zs : List V) (us : Cells V) (c : Option V) (bs : Cells V)
      → (d : Option V) × (shift_up copy
            (length zs)
            (length (stack us zs) - 1)
            (stack us zs ++ c ∷ bs)
          ≡ ok (us ++ d ∷ moved zs bs))
  unfolding shift_up stack moved
  shift_up-stack [] us c bs = (c, refl)
  shift_up-stack (z ∷ zs) us c bs =
      let (d, e) = shift_up-stack zs us (some z) (some (copy z) ∷ bs) in
      let last : length (stack us zs ++ some z ∷ []) - 1 ≡ length (stack us zs) =
        omega (arith, length_snoc (stack us zs) (some z)) in
      (
        d,
        rw
            (
              last,
              snoc_append (stack us zs) (some z) (c ∷ bs),
              read-append (stack us zs) z (c ∷ bs),
              write_next (stack us zs) (some z) c bs (copy z),
            )
            e,
      )

  -- The elements `ys` after `us` move up by one place, over the cell behind them.
  pub shift_up_lem :
      (ys : List V) (us : Cells V) (c : Option V) (bs : Cells V)
      → (d : Option V) × (shift_up copy
            (length ys)
            (length us + length ys - 1)
            (us ++ (map some ys ++ c ∷ bs))
          ≡ ok (us ++ d ∷ (map some (map copy ys) ++ bs)))
  shift_up_lem ys us c bs =
      let (d, e) = shift_up-stack (rev ys) us c bs in
      let e' = rw (stack-rev, moved-rev, length-rev) at e in
      let n : length (us ++ map some ys) ≡ length us + length ys =
        omega (arith, length-append us (map some ys), length-map {B = Option V} some ys) in
      (d, rw (n, append_assoc us (map some ys) (c ∷ bs)) at e')
