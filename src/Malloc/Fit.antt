-- ===== src/Malloc/Fit.antt =====
-- alloc.c: the search for a block, with splitting and merging.
use machine_project.Prelude.{
  ℕ, zero, suc, ◌+◌, ◌*◌, ltb, leb, ◌==◌, Bool, false, ◌&&◌, if◌then◌else◌, Option, none, some,
  Outcome, ok, hang, ◌>>=◌,
}
use machine_project.Prelude.Int.{pos, ◌+ℤ◌, ◌-ℤ◌, eq_ℤ}
use machine_project.Malloc.{Block, meta_size, Arena, load, put, count_free, relink, new_block}

-- current == head
abbrev pub is_head : ℕ → Option ℕ → Bool
is_head p none = false
is_head p (some h) = h == p

-- The part of find_fit that splits `current`, whose block is `b`.
unfoldable pub split_fit : ℕ → Block → ℕ → Arena → Outcome Arena
unfolding new_block load
split_fit current b size a =
    let fresh = current + meta_size + size in
    let nb = new_block current b size in
    let made = put fresh nb a in
    let above = current + meta_size + b.size in
    let linked = load (made.blocks above) >>= λ t. ok (
      put fresh (record nb { prev = some above })
        (put above (record t { next = some fresh }) made)) in
    (if is_head current a.head then ok (record made { head = some fresh }) else linked) >>= λ l.
    ok (count_free (l.total_free_blocks +ℤ pos 1) (put current (record b { size = size }) l))

-- help_merge, with the blocks of `first` and `current`, and of `second` if it is not NULL.
unfoldable pub merge_two : Option ℕ → Block → ℕ → Block → Arena → Outcome (Option ℕ × Arena)
unfolding relink
merge_two second f current c a = do
  l ← relink second current c.prev (put current (record c { size = c.size + f.size + meta_size }) a)
  ok (some current, count_free (l.total_free_blocks -ℤ pos 2) l)

unfoldable pub merge_three :
    Option ℕ → Block → Block → ℕ → Block → Arena → Outcome (Option ℕ × Arena)
unfolding relink
merge_three third f s current c a = do
  l ←
      relink third current c.prev
        (put current (record c { size = c.size + f.size + s.size + 2 * meta_size }) a)
  ok (some current, count_free (l.total_free_blocks -ℤ pos 3) l)

unfoldable pub merge_second :
    Option ℕ → Option ℕ → Block → ℕ → Block → ℕ → Arena → Outcome (Option ℕ × Arena)
unfolding merge_three load
merge_second none third f current c size a = ok (none, a)
merge_second (some second) third f current c size a = do
  s ← load (a.blocks second)
  (if s.is_free == b'1' && c.is_free == b'1' && leb size (f.size + s.size + c.size + 2 * meta_size)
      then merge_three third f s current c a
      else ok (none, a))

unfoldable pub help_merge :
    Block → Option ℕ → Option ℕ → ℕ → Block → ℕ → Arena → Outcome (Option ℕ × Arena)
unfolding merge_two merge_second
help_merge f second third current c size a =
    if c.is_free == b'1' && ltb size (f.size + c.size + meta_size)
    then merge_two second f current c a
    else merge_second second third f current c size a

-- if (first && first->free == '1') chosen = help_merge(...)
unfoldable pub try_merge :
    Option ℕ → Option ℕ → Option ℕ → ℕ → Block → ℕ → Arena → Outcome (Option ℕ × Arena)
unfolding help_merge load
try_merge none second third current c size a = ok (none, a)
try_merge (some first) second third current c size a = do
  f ← load (a.blocks first)
  (if f.is_free == b'1' then help_merge f second third current c size a else ok (none, a))

-- A free block that is large enough, split where something is left for another block.
unfoldable pub take_block : ℕ → Block → ℕ → Arena → Outcome (Option ℕ × Arena)
unfolding split_fit
take_block current c size a =
    if ltb (size + meta_size) c.size
    then (split_fit current c size a >>= λ l. ok (some current, l))
    else ok (some current, count_free (a.total_free_blocks -ℤ pos 1) a)

-- if (chosen) return chosen; else go on
unfoldable pub chosen_or :
    Option ℕ × Arena → (Arena → Outcome (Option ℕ × Arena)) → Outcome (Option ℕ × Arena)
chosen_or (some chosen, a) next = ok (some chosen, a)
chosen_or (none, a) next = next a

-- The loop of find_fit, its rounds bounded by the first argument.
unfoldable pub search_fit :
    ℕ → Option ℕ → Option ℕ → Option ℕ → Option ℕ → ℕ → Arena → Outcome (Option ℕ × Arena)
unfolding take_block try_merge load chosen_or
search_fit rounds none first second third size a = ok (none, a)
search_fit zero (some current) first second third size a = hang
search_fit (suc rounds) (some current) first second third size a = do
  c ← load (a.blocks current)
  (if c.is_free == b'1' && leb size c.size
      then take_block current c size a
      else (try_merge first second third current c size a >>= λ r.
          chosen_or r (λ a'. search_fit rounds c.next (some current) first second size a')))

unfoldable pub find_fit : ℕ → ℕ → Arena → Outcome (Option ℕ × Arena)
unfolding search_fit
find_fit rounds size a =
    if eq_ℤ a.total_free_blocks (pos 0)
    then ok (none, a)
    else if size == 0
    then ok (none, a)
    else search_fit rounds a.head none none none size a
