-- ===== src/Malloc/Examples.antt =====
-- A heap with a free block of 200 bytes and a block in use above it, and the theorems about it.
use machine_project.Prelude.{
  ℕ, ◌+◌, ◌≡◌, refl, true, ◌==◌, if◌then◌else◌, [], ◌∷◌, Option, none, some, Outcome, ok, ◌>>=◌,
  arith,
}
use machine_project.Prelude.Int.{pos, ◌+ℤ◌, ◌-ℤ◌}
use machine_project.Malloc.{Block, Arena, meta_size, store, load}
use machine_project.Malloc.Fit.{find_fit}
use machine_project.Malloc.Segments.{IsBlock, Down}
use machine_project.Malloc.Keeps.{IsArena}
use machine_project.Malloc.Search.{IsSought, find_fit_keeps}
use machine_project.Malloc.Calls.{malloc, free, calloc, realloc}
use machine_project.Malloc.Returns.{IsGiven, malloc_fits}

abbrev lower : Block
lower = record { ptr = 40; size = 200; is_free = b'1'; next = none; prev = none }

abbrev upper : Block
upper = record { ptr = 280; size = 60; is_free = b'0'; next = some 0; prev = none }

abbrev two_blocks : ℕ → Option Block
two_blocks p = if p == 0 then some lower else if p == 240 then some upper else none

abbrev heap : Arena
heap = record {
  head = some 240;
  total_free_blocks = pos 1;
  blocks = two_blocks;
  bytes = λ p. 7;
  top = 340;
}

abbrev returned : Outcome (Option ℕ × Arena) → Option ℕ
returned (ok r) = r.0
returned _ = none

-- The free block is split: its lower 100 bytes are given, and 60 are left.
split_block : returned (malloc 2 true true 100 heap) ≡ some 40
unfolding malloc find_fit store
split_block = refl

rest_of_block :
    (malloc 2 true true 100 heap >>= λ r. load (r.1.blocks 140))
    ≡ ok (record { ptr = 180; size = 60; is_free = b'1'; next = some 0; prev = some 240 })
unfolding malloc find_fit store
rest_of_block = refl

-- Nothing fits, and the heap grows.
new_memory : returned (malloc 2 true true 300 heap) ≡ some 380
unfolding malloc find_fit store
new_memory = refl

cleared_memory : (calloc 2 true true 3 10 heap >>= λ r. ok (r.1.bytes 45)) ≡ ok 0
unfolding calloc find_fit store
cleared_memory = refl

copied_memory : (realloc 2 true true (some 280) 90 heap >>= λ r. ok (r.1.bytes 99)) ≡ ok 7
unfolding realloc find_fit store
copied_memory = refl

-- Three free blocks at 100, 41 and 0. malloc of 20 bytes merges the upper two and puts the rest behind
-- the block in the list, and no longer in front of it. When the block is free again and 30 bytes are
-- asked for, the rest is merged with what is below it in memory as if that were above: the block at
-- 101 is given 78 bytes, 60 more than there are up to the top of the heap, 159.
abbrev free_block_of : ℕ → ℕ → Option ℕ → Block
free_block_of p size next = record {
  ptr = p + meta_size;
  size = size;
  is_free = b'1';
  next = next;
  prev = none;
}

abbrev three_free : Arena
three_free = record {
  head = some 100;
  total_free_blocks = pos 3;
  blocks = λ p.
      if p == 100
      then some (free_block_of 100 19 (some 41))
      else if p == 41
      then some (free_block_of 41 19 (some 0))
      else if p == 0
      then some (free_block_of 0 1 none)
      else none;
  bytes = λ p. 0;
  top = 159;
}

overrun :
    (malloc 3 true true 20 three_free >>= λ r.
    free r.0 r.1 >>= λ a. malloc 4 true true 30 a >>= λ r'. load (r'.1.blocks 101))
    ≡ ok (record { ptr = 141; size = 78; is_free = b'0'; next = some 0; prev = some 41 })
unfolding malloc free find_fit store ◌+ℤ◌ ◌-ℤ◌
overrun = refl

heap-IsArena : IsArena heap (240 ∷ 0 ∷ [])
unfolding IsArena Down IsBlock
heap-IsArena = (refl, upper, refl, (refl, refl), (refl, lower, refl, (refl, refl), refl))

find_fit_keeps_example : IsSought 100 heap (240 ∷ 0 ∷ []) (find_fit 2 100 heap)
find_fit_keeps_example = find_fit_keeps 2 100 heap (240 ∷ 0 ∷ []) heap-IsArena (omega arith)

malloc_fits_example : IsGiven 100 heap (240 ∷ 0 ∷ []) (malloc 2 true true 100 heap)
malloc_fits_example =
    malloc_fits 2 100 heap (240 ∷ 0 ∷ []) heap-IsArena (omega arith) (omega arith) (omega arith)
