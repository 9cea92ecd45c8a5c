-- ===== src/Malloc/Returns.antt =====
-- alloc.c: what malloc and free do to the blocks.
use machine_project.Prelude.{
  ℕ, ◌+◌, ◌^◌, ◌≤◌, ◌<◌, ◌≡◌, refl, ◌∙◌, leb, ◌==◌, true, false, List, length, Option, none, some,
  ◌⊎◌, inl, inr, Outcome, ok, arith,
}
use machine_project.Prelude.Int.{pos, ◌+ℤ◌}
use machine_project.Malloc.{Block, meta_size, Arena, load}
use machine_project.Malloc.Segments.{Down-IsIn, store-same, store-other}
use machine_project.Malloc.Spared.{IsSame, Spares}
use machine_project.Malloc.Keeps.{IsArena, IsFit}
use machine_project.Malloc.Search.{IsSought, find_fit_keeps}
use machine_project.Malloc.Calls.{extend, malloc_found, malloc}
use machine_project.Malloc.Taken.{IsTaken, use_block-IsTaken, spared-IsTaken}

-- The run returns the memory of a block in use that has at least `size` bytes and ends within the
-- heap. The block was marked as free, and the top of the heap is where it was; or the block begins at
-- the old top of the heap, which has grown by its metadata and `size` bytes. Each block in use of the
-- list keeps its size and its mark and lies apart from the block returned.
unfoldable pub IsGiven : ℕ → Arena → List ℕ → Outcome (Option ℕ × Arena) → Type 0
IsGiven size a qs run =
    (p : ℕ) × (a' : Arena) × (b : Block) × (run ≡ ok (some (p + meta_size), a'))
    × (a'.blocks p ≡ some b)
    × (b.ptr ≡ p + meta_size)
    × (b.is_free ≡ b'0')
    × (size ≤ b.size)
    × (p + meta_size + b.size ≤ a'.top)
    × Spares a.blocks qs p (p + meta_size + b.size) a'.blocks
    × ((a'.top ≡ a.top) × ((c : Block) × (a.blocks p ≡ some c) × (c.is_free ≡ b'1'))
        ⊎ (p ≡ a.top) × (a'.top ≡ a.top + meta_size + size))

-- In an arena whose list fills the heap, with a round for each block and with memory for sbrk, malloc
-- of at least one and fewer than 2 ^ 63 bytes returns the memory behind the metadata of a block in use,
-- which has at least as many bytes as asked for and ends within the heap. Either the block was
-- marked as free and the top of the heap is where it was, or the block begins at the old top, and the
-- top has grown by the metadata and the bytes that were asked for. Each block in use of the list keeps
-- its size and its mark and lies apart from the block returned.
pub malloc_fits :
    (rounds size : ℕ) (a : Arena) (qs : List ℕ)
    → IsArena a qs
    → length qs ≤ rounds
    → 0 < size
    → size < 2 ^ 63
    → IsGiven size a qs (malloc rounds true true size a)
unfolding IsSought IsFit IsGiven IsTaken malloc malloc_found extend load Spares IsSame IsArena
malloc_fits rounds size a qs holds enough some_bytes few =
    let more : (size == 0) ≡ false = ground arith in
    elim (find_fit_keeps rounds size a qs holds enough) [
      | inl
            (
              chosen, a', run, ps, holds', b, found, ptr, fits, rest, below, tops, ends, c, was,
              is_free, spared,
            ) ↦
          let (l, t, takes, at, t_ptr, used, large, small, kept, same) =
            use_block-IsTaken a' chosen b size rest ptr below fits in
          rw (more, run, found, takes)
            (
              chosen,
              l,
              t,
              refl,
              at,
              t_ptr,
              used,
              large,
              omega arith,
              spared-IsTaken a.blocks a'.blocks l.blocks qs chosen b.size t.size spared kept small,
              inl (same ∙ tops, (c, was, is_free)),
            )
      | inr run ↦
          let positive : leb (2 ^ 63) size ≡ false = ground arith in
          rw (more, run, positive)
            (
              a.top,
              _,
              _,
              refl,
              store-same a.blocks a.top _,
              refl,
              refl,
              omega arith,
              omega arith,
              λ q u i at used.
                  let low = Down-IsIn a.blocks a.top a.head qs q u holds i at in
                  ((u, store-other a.blocks a.top _ q (omega arith) ∙ at, refl, refl), inl low),
              inr (refl, refl),
            )
    ]

-- What free makes of the arena: the block is marked as free and counted, with its size as it was,
-- and nothing else is changed but the mark.
unfoldable pub IsReleased : ℕ → Block → Arena → Arena → Type 0
IsReleased p b a a' =
    (a'.blocks p ≡ some (record b { is_free = b'1' }))
    × ((q : ℕ) → ¬ (q ≡ p) → a'.blocks q ≡ a.blocks q)
    × (a'.total_free_blocks ≡ a.total_free_blocks +ℤ pos 1)
    × (a'.head ≡ a.head)
    × (a'.top ≡ a.top)

-- The mark of a block is one of the characters '0' and '1'.
unfoldable pub IsMarked : Option Block → Type 0
IsMarked none = ⊥
IsMarked (some b) = (b.is_free ≡ b'0') ⊎ (b.is_free ≡ b'1')
