-- ===== src/Malloc/Calls.antt =====
-- alloc.c: malloc, calloc, realloc and free. Whether the two calls of sbrk succeed is an argument.
use machine_project.Prelude.{
  ℕ, ◌+◌, ◌-◌, ◌*◌, ◌%◌, ◌^◌, min, ltb, leb, ◌==◌, Bool, ◌&&◌, not, if◌then◌else◌, Option, none,
  some, Outcome, ok, fault, ◌>>=◌,
}
use machine_project.Prelude.Int.{pos, ◌+ℤ◌, ◌-ℤ◌}
use machine_project.Malloc.{Block, meta_size, Arena, load, put, count_free}
use machine_project.Malloc.Fit.{find_fit}

-- if (new_block->next) new_block->next->prev = new_block
unfoldable pub set_prev : Option ℕ → ℕ → Arena → Outcome Arena
unfolding load
set_prev none fresh a = ok a
set_prev (some next) fresh a = do
  b ← load (a.blocks next)
  ok (put next (record b { prev = some fresh }) a)

-- split_helper, for `current` with the block `c`.
unfoldable pub split_helper : ℕ → ℕ → Block → Arena → Outcome (Option ℕ × Arena)
unfolding set_prev
split_helper size current c a = do
  let fresh = c.ptr + size
  let nb : Block = record {
    ptr = fresh + meta_size;
    size = c.size - size - meta_size;
    is_free = b'1';
    next = c.next;
    prev = some current;
  }
  let cut : Block = record c { is_free = b'0'; size = size; next = some fresh }
  l ← set_prev c.next fresh (put current cut (put fresh nb a))
  ok (some c.ptr, count_free (l.total_free_blocks -ℤ pos 1) l)

-- malloc with a block that find_fit chose.
unfoldable pub use_block : ℕ → ℕ → Block → Arena → Outcome (Option ℕ × Arena)
unfolding split_helper
use_block size chosen c a =
    let used : Block = record c { is_free = b'0' } in
    if ltb meta_size (c.size - size) && ltb (2 * size) (c.size - size)
    then split_helper size chosen used (put chosen used a)
    else ok (some c.ptr, put chosen used a)

-- malloc with new memory. A failure of the first sbrk is not tested. The second sbrk takes a size of
-- 2 ^ 63 or more as a negative number: the heap shrinks, and the metadata is written past its top.
unfoldable pub extend : Bool → Bool → ℕ → Arena → Outcome (Option ℕ × Arena)
extend sbrk_meta sbrk_size size a =
    let b : Block = record {
      ptr = a.top + meta_size;
      size = size;
      is_free = b'0';
      next = a.head;
      prev = none;
    } in
    if not sbrk_meta
    then fault
    else if not sbrk_size
    then ok (none, record a { top = a.top + meta_size })
    else if leb (2 ^ 63) size
    then fault
    else ok (
      some (a.top + meta_size),
      record (put a.top b a) { head = some a.top; top = a.top + meta_size + size },
    )

unfoldable pub malloc_found : Bool → Bool → ℕ → Option ℕ × Arena → Outcome (Option ℕ × Arena)
unfolding use_block extend load
malloc_found sbrk_meta sbrk_size size (some chosen, a) = do
  c ← load (a.blocks chosen)
  use_block size chosen c a
malloc_found sbrk_meta sbrk_size size (none, a) = extend sbrk_meta sbrk_size size a

-- `rounds` bounds the search for a block.
unfoldable pub malloc : ℕ → Bool → Bool → ℕ → Arena → Outcome (Option ℕ × Arena)
unfolding malloc_found
malloc rounds sbrk_meta sbrk_size size a =
    if size == 0
    then ok (none, a)
    else find_fit rounds size a >>= malloc_found sbrk_meta sbrk_size size

-- memset and memcpy
unfoldable pub write_bytes : ℕ → ℕ → (ℕ → ℕ) → (ℕ → ℕ) → ℕ → ℕ
write_bytes p n source bytes a = if leb p a && ltb a (p + n) then source (a - p) else bytes a

unfoldable pub cleared : ℕ → Option ℕ × Arena → Option ℕ × Arena
unfolding write_bytes
cleared n (none, a) = (none, a)
cleared n (some p, a) = (some p, record a { bytes = write_bytes p n (λ i. 0) a.bytes })

unfoldable pub calloc : ℕ → Bool → Bool → ℕ → ℕ → Arena → Outcome (Option ℕ × Arena)
unfolding malloc cleared
calloc rounds sbrk_meta sbrk_size num size a =
    let n = num * size % 2 ^ 64 in malloc rounds sbrk_meta sbrk_size n a >>= λ r. ok (cleared n r)

-- free behind the tests of the pointer, for a block in use: temp->next->free is compared with 1, and
-- not with '1'.
unfoldable pub release : ℕ → Block → Option ℕ → Arena → Outcome Arena
unfolding load
release temp b none a =
    ok (count_free (a.total_free_blocks +ℤ pos 1) (put temp (record b { is_free = b'1' }) a))
release temp b (some next) a = do
  let freed = put temp (record b { is_free = b'1' }) a
  n ← load (freed.blocks next)
  (if n.is_free == 1
      then ok (
          count_free (a.total_free_blocks +ℤ pos 1) (
            put temp
              (record b { is_free = b'1'; size = b.size + n.size + meta_size; next = n.next }) a))
      else ok (count_free (a.total_free_blocks +ℤ pos 1) freed))

unfoldable pub free_block : Option ℕ → ℕ → Arena → Outcome Arena
unfolding release load
free_block none ptr a = ok a
free_block (some h) ptr a =
    let freed = load (a.blocks (ptr - meta_size)) >>= λ b.
    if b.is_free == b'1' then ok a else release (ptr - meta_size) b b.next a in
    if leb a.top ptr then ok a else freed

unfoldable pub free : Option ℕ → Arena → Outcome Arena
unfolding free_block
free none a = ok a
free (some ptr) a = free_block a.head ptr a

unfoldable pub moved : ℕ → ℕ → Option ℕ × Arena → Outcome (Option ℕ × Arena)
unfolding free write_bytes load
moved ptr size (none, a) = ok (none, a)
moved ptr size (some p, a) = do
  tmp ← load (a.blocks (ptr - meta_size))
  let copied = write_bytes p (min size tmp.size) (λ i. a.bytes (ptr + i)) a.bytes
  a' ← free (some ptr) (record a { bytes = copied })
  ok (some p, a')

unfoldable pub realloc : ℕ → Bool → Bool → Option ℕ → ℕ → Arena → Outcome (Option ℕ × Arena)
unfolding malloc free moved load
realloc rounds sbrk_meta sbrk_size none size a = malloc rounds sbrk_meta sbrk_size size a
realloc rounds sbrk_meta sbrk_size (some ptr) size a =
    let larger = load (a.blocks (ptr - meta_size)) >>= λ tmp.
    (if ltb size tmp.size
      then ok (some ptr, a)
      else (malloc rounds sbrk_meta sbrk_size size a >>= moved ptr size)) in
    if size == 0 then (free (some ptr) a >>= λ a'. ok (none, a')) else larger
