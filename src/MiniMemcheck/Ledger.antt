-- ===== src/MiniMemcheck/Ledger.antt =====
-- mini_memcheck.c: the totals agree with the list of live blocks, whatever is called.
use machine_project.Prelude.{
  ℕ, ◌+◌, ◌-◌, ◌*◌, ◌%◌, ◌^◌, ◌≡◌, refl, ◌==◌, List, [], ◌∷◌, Option, none, some, arith, Bool-cases,
  ◌<◌, false, lt→ltb, Outcome, ok, ◌>>=◌, Option-cases, inl, inr, ◌||◌,
}
use machine_project.MiniMemcheck.{
  MetaData, Memcheck, initial, add_size, enlist, unlink, find, replace, mini_malloc, mini_calloc,
  mini_free, resize_block, mini_realloc,
}

-- The bytes of the blocks in the list.
unfoldable pub live : List MetaData → ℕ
live [] = 0
live (m ∷ ms) = m.request_size + live ms

-- What was requested is what was freed and what is live, as far as `size_t` counts.
pub record IsBalanced (s : Memcheck) : Type 0 where
  pub balance : (s.total_memory_freed + live s.head) % 2 ^ 64 ≡ s.total_memory_requested % 2 ^ 64

live-unlink :
    (tmp : ℕ) (ms : List MetaData) (m : MetaData) (rest : List MetaData)
    → unlink tmp ms ≡ some (m, rest)
    → live ms ≡ m.request_size + live rest
unfolding unlink live
live-unlink tmp [] m rest h = cc
live-unlink tmp (c ∷ ms) m rest h = elim (Option-cases (unlink tmp ms)) [
  | inl e ↦ ground arith
  | inr (fr, e) ↦ let (f, r) = fr in ground (arith, live-unlink tmp ms f r e)
]

live-replace :
    (header ptr : ℕ) (new : MetaData) (ms : List MetaData) (old : MetaData)
    → find header ptr ms ≡ some old
    → live (replace header ptr new ms) + old.request_size ≡ live ms + new.request_size
unfolding find replace live
live-replace header ptr new [] old h = cc
live-replace header ptr new (c ∷ ms) old h = ground (arith, live-replace header ptr new ms old)

-- The call returns, and leaves a state in balance.
unfoldable IsKept : Outcome (Option ℕ × Memcheck) → Type 0
IsKept result = (r : Option ℕ × Memcheck) × (result ≡ ok r) × IsBalanced r.1

enlist-IsKept :
    (header : ℕ) (block : Option ℕ) (n f i : ℕ) (s : Memcheck)
    → header + n < 2 ^ 64
    → IsBalanced s
    → IsKept (enlist header block n f i s)
unfolding enlist live IsKept
enlist-IsKept header none n f i s fits h = (_, refl, h)
enlist-IsKept header (some a) n f i s fits h =
    rw (lt→ltb (header + n) (2 ^ 64) fits) (_, refl, record { balance = omega (arith, h.balance) })

module _ (header : ℕ) where
  mini_free-IsBalanced :
      (ptr : Option ℕ) (s : Memcheck) → IsBalanced s → IsBalanced (mini_free header ptr s)
  unfolding mini_free
  mini_free-IsBalanced none s h = h
  mini_free-IsBalanced (some ptr) s h =
      elim (Option-cases (unlink ((ptr + 2 ^ 64 - header) % 2 ^ 64) s.head)) [
        | inl e ↦ rw e (record { balance = h.balance })
        | inr (mr, e) ↦
            let (m, rest) = mr in
            let l = live-unlink _ s.head m rest e in
            rw e (record { balance = omega (arith, h.balance, l) })
      ]

  resize_block-IsBalanced :
      (ptr : ℕ) (old : MetaData) (new n f i : ℕ) (s : Memcheck)
      → find header ptr s.head ≡ some old
      → IsBalanced s
      → IsBalanced (resize_block header ptr old new n f i s)
  unfolding resize_block
  resize_block-IsBalanced ptr old new n f i s e h = record {
    balance = ground (
      arith,
      live-replace header ptr
          (record { address = new; request_size = n; filename = f; instruction = i }) s.head old e,
      h.balance,
    );
  }

  mini_malloc-IsKept :
      (malloc : ℕ → Option ℕ) (n f i : ℕ) (s : Memcheck)
      → header + n < 2 ^ 64
      → IsBalanced s
      → IsKept (mini_malloc header malloc n f i s)
  unfolding mini_malloc IsKept
  mini_malloc-IsKept malloc n f i s fits h = elim (Bool-cases (n == 0)) [
    | inl e ↦ rw e (_, refl, h)
    | inr e ↦ rw e (enlist-IsKept header (malloc (add_size header n)) n f i s fits h)
  ]

  mini_calloc-IsKept :
      (malloc : ℕ → Option ℕ) (k n f i : ℕ) (s : Memcheck)
      → header + k * n % 2 ^ 64 < 2 ^ 64
      → IsBalanced s
      → IsKept (mini_calloc header malloc k n f i s)
  unfolding mini_calloc IsKept
  mini_calloc-IsKept malloc k n f i s fits h = elim (Bool-cases (k == 0 || (n == 0))) [
    | inl e ↦ rw e (_, refl, h)
    | inr e ↦ rw e (
        enlist-IsKept header (malloc (add_size header (k * n % 2 ^ 64))) (k * n % 2 ^ 64) f i s fits
          h)
  ]

  mini_realloc-IsKept :
      (malloc : ℕ → Option ℕ) (realloc : ℕ → ℕ → Option ℕ) (ptr : Option ℕ) (n f i : ℕ)
      (s : Memcheck)
      → header + n < 2 ^ 64
      → IsBalanced s
      → IsKept (mini_realloc header malloc realloc ptr n f i s)
  unfolding mini_realloc IsKept
  mini_realloc-IsKept malloc realloc none n f i s fits h = mini_malloc-IsKept malloc n f i s fits h
  mini_realloc-IsKept malloc realloc (some p) n f i s fits h = elim (Bool-cases (n == 0)) [
    | inl e ↦ rw e (_, refl, mini_free-IsBalanced (some p) s h)
    | inr e ↦ elim (Option-cases (find header p s.head)) [
      | inl missing ↦ rw (e, missing) (_, refl, record { balance = h.balance })
      | inr (old, found) ↦ elim (Option-cases (realloc old.address (add_size header n))) [
        | inl refused ↦
            let some_bytes : (add_size header n == 0) ≡ false = ground arith in
            rw (e, found, refused, some_bytes) (_, refl, h)
        | inr (new, moved) ↦
            rw (e, found, moved, lt→ltb (header + n) (2 ^ 64) fits)
              (_, refl, resize_block-IsBalanced p old new n f i s found h)
      ]
    ]
  ]

-- The calls that a program makes, each with what the allocator answers.
pub data Call : Type 0 where
  malloc : (ℕ → Option ℕ) → ℕ → ℕ → ℕ → Call
  calloc : (ℕ → Option ℕ) → ℕ → ℕ → ℕ → ℕ → Call
  realloc : (ℕ → Option ℕ) → (ℕ → ℕ → Option ℕ) → Option ℕ → ℕ → ℕ → ℕ → Call
  free : Option ℕ → Call

-- The returned pointer and the state; `free` returns nothing.
unfoldable pub perform : ℕ → Call → Memcheck → Outcome (Option ℕ × Memcheck)
perform header (malloc m n f i) s = mini_malloc header m n f i s
perform header (calloc m k n f i) s = mini_calloc header m k n f i s
perform header (realloc m r p n f i) s = mini_realloc header m r p n f i s
perform header (free p) s = ok (none, mini_free header p s)

unfoldable pub run : ℕ → List Call → Memcheck → Outcome Memcheck
run header [] s = ok s
run header (c ∷ cs) s = do r ← perform header c s; run header cs r.1

-- The header and the block that a call asks for have a size below 2 ^ 64.
unfoldable pub HasRoom : ℕ → Call → Type 0
HasRoom header (malloc m n f i) = header + n < 2 ^ 64
HasRoom header (calloc m k n f i) = header + k * n % 2 ^ 64 < 2 ^ 64
HasRoom header (realloc m r p n f i) = header + n < 2 ^ 64
HasRoom header (free p) = Unit

unfoldable pub AllRoom : ℕ → List Call → Type 0
AllRoom header [] = Unit
AllRoom header (c ∷ cs) = HasRoom header c × AllRoom header cs

perform-IsKept :
    (header : ℕ) (c : Call) (s : Memcheck)
    → HasRoom header c
    → IsBalanced s
    → IsKept (perform header c s)
unfolding perform HasRoom IsKept
perform-IsKept header (malloc m n f i) s fits h = mini_malloc-IsKept header m n f i s fits h
perform-IsKept header (calloc m k n f i) s fits h = mini_calloc-IsKept header m k n f i s fits h
perform-IsKept header (realloc m r p n f i) s fits h =
    mini_realloc-IsKept header m r p n f i s fits h
perform-IsKept header (free p) s fits h = (_, refl, mini_free-IsBalanced header p s h)

run-IsBalanced :
    (header : ℕ) (cs : List Call) (s : Memcheck)
    → AllRoom header cs
    → IsBalanced s
    → (after : Memcheck) × (run header cs s ≡ ok after) × IsBalanced after
unfolding run AllRoom IsKept
run-IsBalanced header [] s room h = (s, refl, h)
run-IsBalanced header (c ∷ cs) s room h =
    let (r, e, kept) = perform-IsKept header c s room.0 h in
    rw e (run-IsBalanced header cs r.1 room.1 kept)

-- Let the header and the block that each call asks for have a size below 2 ^ 64, which for mini_calloc
-- is the product modulo 2 ^ 64. Then the calls, from the initial state, return, whether or not the
-- allocator refuses and the pointers are valid, and behind them the bytes freed and the bytes of the
-- live blocks add up to the bytes requested, modulo 2 ^ 64.
pub ledger_balances :
    (header : ℕ) (cs : List Call)
    → AllRoom header cs
    → (after : Memcheck) × (run header cs initial ≡ ok after) × IsBalanced after
unfolding live
ledger_balances header cs room = run-IsBalanced header cs initial room (record { balance = refl })
