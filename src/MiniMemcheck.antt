-- ===== src/MiniMemcheck.antt =====
-- mini_memcheck/mini_memcheck.c: allocation with a list of the live blocks and running totals.
-- A pointer is an address or NULL (`none`), the list of `meta_data` is a list of headers with the
-- address of each. `malloc` and `realloc` are parameters: the address that they return for so many
-- bytes. `header` is sizeof(meta_data), which the header file that is not in the repository fixes.
pub mod Ledger
mod Examples
use machine_project.Prelude.{
  ℕ, ◌+◌, ◌-◌, ◌*◌, ◌%◌, ◌^◌, ltb, ◌==◌, if◌then◌else◌, ◌||◌, Bool, List, [], ◌∷◌, Option, none,
  some, Outcome, ok, fault,
}

pub record MetaData : Type 0 where
  pub address : ℕ
  pub request_size : ℕ
  pub filename : ℕ
  pub instruction : ℕ

-- The four globals.
pub record Memcheck : Type 0 where
  pub total_memory_requested : ℕ
  pub total_memory_freed : ℕ
  pub invalid_addresses : ℕ
  pub head : List MetaData

abbrev pub initial : Memcheck
initial = record {
  total_memory_requested = 0;
  total_memory_freed = 0;
  invalid_addresses = 0;
  head = [];
}

-- a + b on `size_t`
abbrev pub add_size : ℕ → ℕ → ℕ
add_size a b = (a + b) % 2 ^ 64

-- A header for the block that was asked for goes to the front of the list. Where the size of the
-- header and the block wrapped around, the block is too small for the header that is written.
unfoldable pub enlist : ℕ → Option ℕ → ℕ → ℕ → ℕ → Memcheck → Outcome (Option ℕ × Memcheck)
enlist header none request_size filename instruction s = ok (none, s)
enlist header (some a) request_size filename instruction s =
    if ltb (header + request_size) (2 ^ 64)
    then ok (
      some (add_size a header),
      record s {
        head =
            record {
              address = a;
              request_size = request_size;
              filename = filename;
              instruction = instruction;
            }
            ∷ s.head;
        total_memory_requested = add_size s.total_memory_requested request_size;
      },
    )
    else fault

-- The loop of `mini_free`: the header at an address, and the list without it.
unfoldable pub unlink : ℕ → List MetaData → Option (MetaData × List MetaData)
unlink tmp [] = none
unlink tmp (current ∷ next) =
    if current.address == tmp then some (current, next) else (elim (unlink tmp next) [
      | none ↦ none
      | some (found, rest) ↦ some (found, current ∷ rest)
    ])

-- What `mini_free` does behind its loop, with a block found and with none.
unfoldable pub settle : Option (MetaData × List MetaData) → Memcheck → Memcheck
settle none s = record s { invalid_addresses = add_size s.invalid_addresses 1 }
settle (some (current, rest)) s = record s {
  head = rest;
  total_memory_freed = add_size s.total_memory_freed current.request_size;
}

-- The loop of `mini_realloc` and the statements that hang the new header in place of the old one.
unfoldable pub find : ℕ → ℕ → List MetaData → Option MetaData
find header ptr [] = none
find header ptr (old ∷ next) =
    if add_size old.address header == ptr then some old else find header ptr next

unfoldable pub replace : ℕ → ℕ → MetaData → List MetaData → List MetaData
replace header ptr new [] = []
replace header ptr new (old ∷ next) =
    if add_size old.address header == ptr then new ∷ next else old ∷ replace header ptr new next

module _ (header : ℕ) where
  unfoldable pub mini_malloc : (ℕ → Option ℕ) → ℕ → ℕ → ℕ → Memcheck → Outcome (Option ℕ × Memcheck)
  unfolding enlist
  mini_malloc malloc request_size filename instruction s =
      if request_size == 0
      then ok (none, s)
      else enlist header (malloc (add_size header request_size)) request_size filename instruction s

  unfoldable pub mini_calloc :
      (ℕ → Option ℕ) → ℕ → ℕ → ℕ → ℕ → Memcheck → Outcome (Option ℕ × Memcheck)
  unfolding enlist
  mini_calloc malloc num_elements element_size filename instruction s =
      let request_size = num_elements * element_size % 2 ^ 64 in
      if num_elements == 0 || (element_size == 0)
      then ok (none, s)
      else enlist header (malloc (add_size header request_size)) request_size filename instruction s

  unfoldable pub mini_free : Option ℕ → Memcheck → Memcheck
  unfolding unlink settle
  mini_free none s = s
  mini_free (some ptr) s = settle (unlink ((ptr + 2 ^ 64 - header) % 2 ^ 64) s.head) s

  -- The statements of `mini_realloc` behind a call of `realloc` that succeeded.
  unfoldable pub resize_block : ℕ → MetaData → ℕ → ℕ → ℕ → ℕ → Memcheck → Memcheck
  unfolding replace
  resize_block ptr old new request_size filename instruction s = record s {
    head =
        replace header ptr
          (record {
            address = new;
            request_size = request_size;
            filename = filename;
            instruction = instruction;
          })
          s.head;
    total_memory_requested =
        if ltb old.request_size request_size
        then add_size s.total_memory_requested (request_size - old.request_size)
        else s.total_memory_requested;
    total_memory_freed =
        if ltb request_size old.request_size
        then add_size s.total_memory_freed (old.request_size - request_size)
        else s.total_memory_freed;
  }

  -- Where the size wrapped around to 0, realloc may free the block, which stays in the list; where it
  -- wrapped around to another size, the new block is too small for its header.
  unfoldable pub mini_realloc :
      (ℕ → Option ℕ)
      → (ℕ → ℕ → Option ℕ)
      → Option ℕ
      → ℕ
      → ℕ
      → ℕ
      → Memcheck
      → Outcome (Option ℕ × Memcheck)
  unfolding mini_malloc mini_free find resize_block
  mini_realloc malloc realloc none request_size filename instruction s =
      mini_malloc malloc request_size filename instruction s
  mini_realloc malloc realloc (some ptr) request_size filename instruction s =
      if request_size == 0
      then ok (none, mini_free (some ptr) s)
      else elim (find header ptr s.head) [
        | none ↦ ok (none, record s { invalid_addresses = add_size s.invalid_addresses 1 })
        | some old ↦ elim (realloc old.address (add_size header request_size)) [
          | none ↦ if add_size header request_size == 0 then fault else ok (none, s)
          | some new ↦
              if ltb (header + request_size) (2 ^ 64)
              then ok (
                some (add_size new header),
                resize_block ptr old new request_size filename instruction s,
              )
              else fault
        ]
      ]
