-- ===== src/Malloc/Spared.antt =====
-- alloc.c: the blocks in use, which a search and a split leave alone.
use machine_project.Prelude.{
  ℕ, ◌+◌, ◌≤◌, ◌≡◌, ap, sym, ◌∙◌, ◌==◌, false, List, ◌∷◌, Option, some, ◌⊎◌, inl, inr, arith,
}
use machine_project.Malloc.{Block, meta_size}
use machine_project.Malloc.Segments.{IsIn, mark_of}

-- The metadata with the size and the mark of a block.
unfoldable pub IsSame : Option Block → Block → Type 0
IsSame found u = (u' : Block) × (found ≡ some u') × (u'.size ≡ u.size) × (u'.is_free ≡ u.is_free)

-- Each block in use of the list keeps its size and its mark, and lies below `p` or above `end`.
unfoldable pub Spares : (ℕ → Option Block) → List ℕ → ℕ → ℕ → (ℕ → Option Block) → Type 0
Spares blocks ws p end blocks' =
    (q : ℕ) (u : Block)
    → IsIn q ws
    → blocks q ≡ some u
    → (u.is_free == b'1') ≡ false
    → IsSame (blocks' q) u × (q + meta_size + u.size ≤ p ⊎ end ≤ q)

-- Each block in use of the list `ws` is in one of the other two.
unfoldable pub Cover : (ℕ → Option Block) → List ℕ → List ℕ → List ℕ → Type 0
Cover blocks ws fs qs =
    (q : ℕ) (u : Block)
    → IsIn q ws
    → blocks q ≡ some u
    → (u.is_free == b'1') ≡ false
    → IsIn q fs ⊎ IsIn q qs

module _ (blocks : ℕ → Option Block) (ws : List ℕ) where
  not_free :
      (p q : ℕ) (c u : Block)
      → blocks p ≡ some c
      → c.is_free ≡ b'1'
      → q ≡ p
      → blocks q ≡ some u
      → ¬ ((u.is_free == b'1') ≡ false)
  not_free p q c u at is_free same at' used =
      let marks = ap mark_of (sym at' ∙ ap blocks same ∙ at) in ground (arith, marks)

  pub Cover-above :
      (f : ℕ) (fb : Block) (fs qs : List ℕ)
      → blocks f ≡ some fb
      → fb.is_free ≡ b'1'
      → Cover blocks ws (f ∷ fs) qs
      → Cover blocks ws fs qs
  unfolding Cover IsIn
  Cover-above f fb fs qs at is_free cover q u h at' used = elim (cover q u h at' used) [
    | inl (inl same) ↦ absurd (not_free f q fb u at is_free same at' used)
    | inl (inr k) ↦ inl k
    | inr k ↦ inr k
  ]

  pub Cover-here :
      (p : ℕ) (c : Block) (fs qs : List ℕ)
      → blocks p ≡ some c
      → c.is_free ≡ b'1'
      → Cover blocks ws fs (p ∷ qs)
      → Cover blocks ws fs qs
  unfolding Cover IsIn
  Cover-here p c fs qs at is_free cover q u h at' used = elim (cover q u h at' used) [
    | inl k ↦ inl k
    | inr (inl same) ↦ absurd (not_free p q c u at is_free same at' used)
    | inr (inr k) ↦ inr k
  ]

  pub Cover-next :
      (p : ℕ) (fs qs : List ℕ) → Cover blocks ws fs (p ∷ qs) → Cover blocks ws (p ∷ fs) qs
  unfolding Cover IsIn
  Cover-next p fs qs cover q u h at used = elim (cover q u h at used) [
    | inl k ↦ inl (inr k)
    | inr (inl same) ↦ inl (inl same)
    | inr (inr k) ↦ inr k
  ]
