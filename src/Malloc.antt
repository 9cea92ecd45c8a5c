-- ===== src/Malloc.antt =====
-- malloc/alloc.c: an allocator that keeps its blocks in one list, the last block of the heap first. A
-- block has its metadata in front of its memory. The metadata is named by its address and kept apart
-- from the bytes of the memory; `ptr` is the address of the memory. An access where no block is
-- recorded is undefined. Sums of sizes stay below 2 ^ 64, as the heap lies in the address space.
pub mod Fit
pub mod Segments
pub mod Spared
pub mod Keeps
pub mod Merges
pub mod Search
pub mod Calls
pub mod Taken
pub mod Returns
mod Examples
use machine_project.Prelude.{
  ℕ, suc, ◌+◌, ◌-◌, ◌*◌, ◌%◌, ◌^◌, ◌≡◌, min, ltb, leb, ◌==◌, Bool, true, false, ◌&&◌, not,
  if◌then◌else◌, Option, none, some, Outcome, ok, fault, ◌>>=◌,
}
use machine_project.Prelude.Int.{ℤ, pos, ◌+ℤ◌, ◌-ℤ◌}

-- meta_data; `is_free` is the character in the field `free`.
pub record Block : Type 0 where
  pub ptr : ℕ
  pub size : ℕ
  pub is_free : ℕ
  pub next : Option ℕ
  pub prev : Option ℕ

-- sizeof(meta_data)
abbrev pub meta_size : ℕ
meta_size = 40

-- The static variables, the metadata, the bytes, and what sbrk(0) returns.
pub record Arena : Type 0 where
  pub head : Option ℕ
  pub total_free_blocks : ℤ
  pub blocks : ℕ → Option Block
  pub bytes : ℕ → ℕ
  pub top : ℕ

unfoldable pub store : (ℕ → Option Block) → ℕ → Block → ℕ → Option Block
store blocks p b a = if a == p then some b else blocks a

unfoldable pub load : Option Block → Outcome Block
load none = fault
load (some b) = ok b

abbrev pub put : ℕ → Block → Arena → Arena
put p b a = record a { blocks = store a.blocks p b }

abbrev pub count_free : ℤ → Arena → Arena
count_free n a = record a { total_free_blocks = n }

-- What stands before `current` in the list gets it as its next block: the head, or a block.
unfoldable pub relink : Option ℕ → ℕ → Option ℕ → Arena → Outcome Arena
unfolding load
relink none current prev a = ok (record a { head = some current })
relink (some before) current prev a = do
  b ← load (a.blocks before)
  ok (put before (record b { next = some current; prev = prev }) a)

-- set_newblk
unfoldable pub new_block : ℕ → Block → ℕ → Block
new_block ptr b size = record {
  ptr = ptr + meta_size + size + meta_size;
  size = b.size - size - meta_size;
  is_free = b'1';
  next = some ptr;
  prev = b.prev;
}
