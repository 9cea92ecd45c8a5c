-- ===== src/Malloc/Keeps.antt =====
-- alloc.c: the list that fills the heap, and that a split of a block keeps it.
use machine_project.Malloc.Spared.{IsSame, Spares, Cover}
use machine_project.Prelude.{
  ℕ, ◌+◌, ◌≤◌, ◌<◌, ◌≡◌, refl, sym, ap, ◌∙◌, ◌⊎◌, inl, inr, true, false, List, [], ◌∷◌, Option,
  some, Outcome, ok, ◌>>=◌, arith,
}
use machine_project.Malloc.{Block, meta_size, Arena, store, load, new_block}
use machine_project.Malloc.Fit.{is_head, split_fit}
use machine_project.Malloc.Segments.{
  IsBlock, Down, Up, store-same, store-other, Down-frame, Up-frame, Up-top, IsIn, size_of, mark_of,
  Down-IsIn, Up-IsIn, turn, zip,
}

-- The list from the head leads through the addresses and fills the heap up to its top.
unfoldable pub IsArena : Arena → List ℕ → Type 0
IsArena a qs = Down a.blocks a.top a.head qs

-- A search that returned a block of at least `size` bytes, with the rest of the list behind it, in an
-- arena with the same top: the block lies below the top and was marked as free, and no block in use is touched.
unfoldable pub IsFit : ℕ → Arena → List ℕ → Outcome (Option ℕ × Arena) → Type 0
IsFit size a ws run =
    (chosen : ℕ) × (a' : Arena) × (run ≡ ok (some chosen, a'))
    × (qs : List ℕ) × IsArena a' qs
    × (b : Block) × (a'.blocks chosen ≡ some b)
    × (b.ptr ≡ chosen + meta_size)
    × (size ≤ b.size)
    × (rest : List ℕ) × Down a'.blocks chosen b.next rest
    × (a'.top ≡ a.top)
    × (chosen + meta_size + b.size ≤ a.top)
    × (c : Block) × (a.blocks chosen ≡ some c)
    × (c.is_free ≡ b'1')
    × Spares a.blocks ws chosen (chosen + meta_size + b.size) a'.blocks

pub split-head :
    (a : Arena) (p : ℕ) (c : Block) (qs ws : List ℕ) (size : ℕ)
    → Cover a.blocks ws [] qs
    → a.head ≡ some p
    → a.blocks p ≡ some c
    → c.is_free ≡ b'1'
    → IsBlock p a.top c
    → Down a.blocks p c.next qs
    → size + meta_size < c.size
    → IsFit size a ws (split_fit p c size a >>= λ l. ok (some p, l))
unfolding IsFit IsArena IsBlock Down split_fit new_block Spares Cover IsSame IsIn
split-head a p c qs ws size cover h at is_free (here, ends) more room =
    let fresh = p + meta_size + size in
    let made = store a.blocks fresh (new_block p c size) in
    let kept =
      Down-frame a.blocks (store made p (record c { size = size })) p c.next qs
        (λ q less.
          store-other made p _ q (omega arith) ∙ store-other a.blocks fresh _ q (omega arith))
        more in
    let spared : Spares a.blocks ws p fresh (store made p (record c { size = size })) =
      λ q u i at_q used. elim (cover q u i at_q used) [
        | inl k ↦ absurd k
        | inr k ↦
            let low = Down-IsIn a.blocks p c.next qs q u more k at_q in
            (
              (
                u,
                store-other made p _ q (omega arith)
                    ∙ store-other a.blocks fresh _ q (omega arith)
                    ∙ at_q,
                refl,
                refl,
              ),
              inl low,
            )
      ] in
    let is : is_head p a.head ≡ true = rw h (ground arith) in
    rw is (
      p,
      _,
      refl,
      fresh ∷ p ∷ qs,
      (
        refl,
        new_block p c size,
        store-other made p _ fresh (omega arith) ∙ store-same a.blocks fresh _,
        (refl, omega arith),
        (refl, record c { size = size }, store-same made p _, (here, refl), kept),
      ),
      record c { size = size },
      store-same made p _,
      here,
      omega arith,
      qs,
      kept,
      refl,
      omega arith,
      c,
      at,
      is_free,
      spared,
    )

-- Below a block that is only linked anew, the new blocks lie between `p` and that block.
split-Spares :
    (a : Arena) (blocks' : ℕ → Option Block) (p f end : ℕ) (c fb fb' : Block) (fs qs ws : List ℕ)
    → Cover a.blocks ws (f ∷ fs) qs
    → a.blocks f ≡ some fb
    → blocks' f ≡ some fb'
    → fb'.size ≡ fb.size
    → fb'.is_free ≡ fb.is_free
    → end ≤ f
    → Up a.blocks a.top a.head fs (f + meta_size + fb.size) (some f)
    → Down a.blocks p c.next qs
    → p < f
    → ((q : ℕ) → (q < p ⊎ f < q) → blocks' q ≡ a.blocks q)
    → Spares a.blocks ws p end blocks'
unfolding Spares Cover IsSame IsIn
split-Spares a blocks' p f end c fb fb' fs qs ws cover at_f at_above sizes marks low above more
      apart same q u i at_q used =
    elim (cover q u i at_q used) [
      | inl (inl here_f) ↦
          let whole = sym at_f ∙ ap a.blocks (sym here_f) ∙ at_q in
          (
            (fb', ap blocks' here_f ∙ at_above, sizes ∙ ap size_of whole, marks ∙ ap mark_of whole),
            inr (omega arith),
          )
      | inl (inr k) ↦
          let high = Up-IsIn a.blocks a.top a.head fs _ _ q above k in
          ((u, same q (inr (omega arith)) ∙ at_q, refl, refl), inr (omega arith))
      | inr k ↦
          let low_q = Down-IsIn a.blocks p c.next qs q u more k at_q in
          ((u, same q (inl (omega arith)) ∙ at_q, refl, refl), inl low_q)
    ]

pub split-below :
    (a : Arena) (p : ℕ) (c fb : Block) (fs qs ws : List ℕ) (size : ℕ)
    → Cover a.blocks ws ((p + meta_size + c.size) ∷ fs) qs
    → is_head p a.head ≡ false
    → a.blocks (p + meta_size + c.size) ≡ some fb
    → fb.ptr ≡ p + meta_size + c.size + meta_size
    → Up a.blocks a.top a.head fs
        (p + meta_size + c.size + meta_size + fb.size)
        (some (p + meta_size + c.size))
    → a.blocks p ≡ some c
    → c.is_free ≡ b'1'
    → c.ptr ≡ p + meta_size
    → Down a.blocks p c.next qs
    → size + meta_size < c.size
    → IsFit size a ws (split_fit p c size a >>= λ l. ok (some p, l))
unfolding IsFit IsArena IsBlock Down split_fit new_block load Spares Cover IsSame IsIn
split-below a p c fb fs qs ws size cover apart at_f f_ptr above at is_free here more room =
    let fresh = p + meta_size + size in
    let f = p + meta_size + c.size in
    let one = store a.blocks fresh (new_block p c size) in
    let two = store one f (record fb { next = some fresh }) in
    let three = store two fresh (record (new_block p c size) { prev = some f }) in
    let four = store three p (record c { size = size }) in
    let same : (q : ℕ) → ¬ (q ≡ p) → ¬ (q ≡ fresh) → ¬ (q ≡ f) → four q ≡ a.blocks q =
      λ q far far' far''.
        store-other three p _ q far
        ∙ store-other two fresh _ q far'
        ∙ store-other one f _ q far''
        ∙ store-other a.blocks fresh _ q far' in
    let low =
      Down-frame a.blocks four p c.next qs
        (λ q less. same q (omega arith) (omega arith) (omega arith)) more in
    let high =
      Up-frame a.blocks four a.top a.head fs (f + meta_size + fb.size) (some f)
        (λ q less. same q (omega arith) (omega arith) (omega arith)) above in
    let at_above : four f ≡ some (record fb { next = some fresh }) =
      store-other three p _ f (omega arith)
      ∙ store-other two fresh _ f (omega arith)
      ∙ store-same one f _ in
    let spared =
      split-Spares a four p f fresh c fb (record fb { next = some fresh }) fs qs ws cover at_f
        at_above refl refl (omega arith) above more (omega arith)
        (λ q far. elim far [
          | inl less ↦ same q (omega arith) (omega arith) (omega arith)
          | inr high ↦ same q (omega arith) (omega arith) (omega arith)
        ]) in
    let found : one f ≡ some fb = store-other a.blocks fresh _ f (omega arith) ∙ at_f in
    rw (apart, found)
      (
        p,
        _,
        refl,
        turn fs (f ∷ fresh ∷ p ∷ qs),
        zip four a.top a.head fs (f ∷ fresh ∷ p ∷ qs) (f + meta_size + fb.size) (some f) high (
          refl,
          record fb { next = some fresh },
          store-other three p _ f (omega arith)
              ∙ store-other two fresh _ f (omega arith)
              ∙ store-same one f _,
          (f_ptr, refl),
          (
            refl,
            record (new_block p c size) { prev = some f },
            store-other three p _ fresh (omega arith) ∙ store-same two fresh _,
            (refl, omega arith),
            (refl, record c { size = size }, store-same three p _, (here, refl), low),
          ),
        ),
        record c { size = size },
        store-same three p _,
        here,
        omega arith,
        qs,
        low,
        refl,
        omega (arith, Up-top a.blocks a.top a.head fs _ _ above),
        c,
        at,
        is_free,
        spared,
      )
