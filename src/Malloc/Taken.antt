-- ===== src/Malloc/Taken.antt =====
-- alloc.c: what malloc makes of the block that the search found.
use machine_project.Prelude.{
  ℕ, ◌+◌, ◌-◌, ◌*◌, ◌≤◌, ◌<◌, ◌≡◌, refl, ap, sym, ==→eq, ◌∙◌, ltb, ◌==◌, ◌&&◌, Bool-cases, List, [],
  ◌∷◌, Option, some, ◌⊎◌, inl, inr, Outcome, ok, arith,
}
use machine_project.Malloc.{Block, meta_size, Arena, store, load, put}
use machine_project.Malloc.Segments.{
  IsBlock, Down, Down-frame, size_of, mark_of, store-same, store-other,
}
use machine_project.Malloc.Spared.{IsSame, Spares}
use machine_project.Malloc.Calls.{set_prev, split_helper, use_block}

-- The run returns the memory of the block at `p`, `c` before the run, as a block in use of at least
-- `size` bytes and no more than it had, leaves the top of the heap where it was, and keeps the size
-- and the mark of each block that lies apart from it.
unfoldable pub IsTaken : ℕ → ℕ → Block → Arena → Outcome (Option ℕ × Arena) → Type 0
IsTaken size p c a run =
    (a' : Arena) × (b : Block) × (run ≡ ok (some (p + meta_size), a'))
    × (a'.blocks p ≡ some b)
    × (b.ptr ≡ p + meta_size)
    × (b.is_free ≡ b'0')
    × (size ≤ b.size)
    × (b.size ≤ c.size)
    × ((q : ℕ) (u : Block)
        → a.blocks q ≡ some u
        → (q + meta_size + u.size ≤ p ⊎ p + meta_size + c.size ≤ q)
        → IsSame (a'.blocks q) u)
    × (a'.top ≡ a.top)

far_from :
    (p n q : ℕ) (u : Block) → (q + meta_size + u.size ≤ p ⊎ p + meta_size + n ≤ q) → ¬ (q ≡ p)
far_from p n q u (inl low) e = omega arith
far_from p n q u (inr high) e = omega arith

module _ (a : Arena) (p : ℕ) (c : Block) (size : ℕ) (here : c.ptr ≡ p + meta_size)
    (room : size + meta_size < c.size) where
  off_rest :
      (q : ℕ) (u : Block)
      → (q + meta_size + u.size ≤ p ⊎ p + meta_size + c.size ≤ q)
      → ¬ (q ≡ p + meta_size + size)
  off_rest q u (inl low) e = omega arith
  off_rest q u (inr high) e = omega arith

  split_helper-IsTaken :
      (rest : List ℕ) → Down a.blocks p c.next rest → IsTaken size p c a (split_helper size p c a)
  unfolding IsTaken Down IsBlock split_helper set_prev load IsSame
  split_helper-IsTaken [] e =
      rw (e, here)
        (
          _,
          _,
          refl,
          store-same _ p _,
          refl,
          refl,
          omega arith,
          omega arith,
          λ q u at far. (
            u,
            store-other _ p _ q (far_from p c.size q u far)
                ∙ store-other a.blocks (p + meta_size + size) _ q (off_rest q u far)
                ∙ at,
            refl,
            refl,
          ),
          refl,
        )
  split_helper-IsTaken (q ∷ qs) (e, b, at_q, (q_ptr, ends), more) =
      let fresh = p + meta_size + size in
      let nb : Block = record {
        ptr = fresh + meta_size;
        size = c.size - size - meta_size;
        is_free = b'1';
        next = some q;
        prev = some p;
      } in
      let cut : Block = record {
        ptr = p + meta_size;
        is_free = b'0';
        size = size;
        next = some fresh;
        prev = c.prev;
      } in
      let made = store (store a.blocks fresh nb) p cut in
      let found : made q ≡ some b =
        store-other (store a.blocks fresh nb) p cut q (omega arith)
        ∙ store-other a.blocks fresh nb q (omega arith)
        ∙ at_q in
      rw (e, here, found)
        (
          _,
          cut,
          refl,
          store-other made q _ p (omega arith) ∙ store-same (store a.blocks fresh nb) p cut,
          refl,
          refl,
          omega arith,
          omega arith,
          λ x u at far.
              let kept : made x ≡ some u =
                store-other (store a.blocks fresh nb) p cut x (far_from p c.size x u far)
                ∙ store-other a.blocks fresh nb x (off_rest x u far)
                ∙ at in
              elim (Bool-cases (x == q)) [
                | inl is ↦
                    let same = ==→eq x q is in
                    let whole = sym at_q ∙ ap a.blocks (sym same) ∙ at in
                    (
                      record b { prev = some fresh },
                      ap (store made q (record b { prev = some fresh })) same ∙ store-same made q _,
                      ap size_of whole,
                      ap mark_of whole,
                    )
                | inr other ↦ (u, store-other made q _ x (ground (arith, other)) ∙ kept, refl, refl)
              ],
          refl,
        )

pub use_block-IsTaken :
    (a : Arena) (p : ℕ) (c : Block) (size : ℕ) (rest : List ℕ)
    → c.ptr ≡ p + meta_size
    → Down a.blocks p c.next rest
    → size ≤ c.size
    → IsTaken size p c a (use_block size p c a)
unfolding IsTaken use_block IsSame
use_block-IsTaken a p c size rest here below fits =
    elim (Bool-cases (ltb meta_size (c.size - size) && ltb (2 * size) (c.size - size))) [
      | inl e ↦
          let used : Block = record c { is_free = b'0' } in
          let below' =
            Down-frame a.blocks (store a.blocks p used) p c.next rest
              (λ q less. store-other a.blocks p used q (omega arith)) below in
          let room : size + meta_size < c.size = ground (arith, e) in
          let (a', b, run, at, ptr, mark, large, small, kept, tops) =
            split_helper-IsTaken (put p used a) p used size here room rest below' in
          rw (e, run)
            (
              a',
              b,
              refl,
              at,
              ptr,
              mark,
              large,
              small,
              λ q u at_q far.
                  kept q u (store-other a.blocks p used q (far_from p c.size q u far) ∙ at_q) far,
              tops,
            )
      | inr e ↦
          rw (e, here)
            (
              _,
              _,
              refl,
              store-same a.blocks p _,
              refl,
              refl,
              fits,
              omega arith,
              λ q u at far.
                  (u, store-other a.blocks p _ q (far_from p c.size q u far) ∙ at, refl, refl),
              refl,
            )
    ]

-- What a search spared and what the use of the found block keeps.
pub spared-IsTaken :
    (one two three : ℕ → Option Block) (ws : List ℕ) (p n m : ℕ)
    → Spares one ws p (p + meta_size + n) two
    → ((q : ℕ) (u : Block)
        → two q ≡ some u
        → (q + meta_size + u.size ≤ p ⊎ p + meta_size + n ≤ q)
        → IsSame (three q) u)
    → m ≤ n
    → Spares one ws p (p + meta_size + m) three
unfolding Spares IsSame
spared-IsTaken one two three ws p n m spared kept small q u i at used =
    let ((v, at_v, sizes, marks), where_) = spared q u i at used in
    let far : (q + meta_size + v.size ≤ p ⊎ p + meta_size + n ≤ q) = elim where_ [
      | inl low ↦ inl (omega (arith, sizes))
      | inr high ↦ inr high
    ] in
    let (w, at_w, sizes', marks') = kept q v at_v far in
    (
      (w, at_w, sizes' ∙ sizes, marks' ∙ marks),
      elim where_ [ inl low ↦ inl low | inr high ↦ inr (omega arith) ],
    )
