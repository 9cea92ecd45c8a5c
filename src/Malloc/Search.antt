-- ===== src/Malloc/Search.antt =====
-- alloc.c: the loop of find_fit, from the head to a block that fits or to the end of the list.
use machine_project.Prelude.{
  ℕ, zero, suc, ◌+◌, ◌*◌, ◌≤◌, ◌<◌, ◌≡◌, refl, sym, ltb, leb, ltb→lt, ◌==◌, false, ◌&&◌, Bool-cases,
  List, [], ◌∷◌, length, Option, none, some, ◌⊎◌, inl, inr, Outcome, ok, ◌>>=◌, arith,
}
use machine_project.Prelude.Int.{pos, eq_ℤ}
use machine_project.Malloc.{Block, meta_size, Arena, load}
use machine_project.Malloc.Fit.{
  is_head, split_fit, merge_two, merge_three, merge_second, help_merge, try_merge, take_block,
  chosen_or, search_fit, find_fit,
}
use machine_project.Malloc.Segments.{
  IsBlock, Down, Up, head_of, rest_of, turn, zip, Up-head, Up-top, Up-IsIn, Down-IsIn,
}
use mathlib.Core.Path.{subst}
use machine_project.Malloc.Spared.{IsSame, Spares, Cover, Cover-above, Cover-here, Cover-next}
use machine_project.Malloc.Keeps.{IsArena, IsFit, split-head, split-below}
use machine_project.Malloc.Merges.{merge-IsFit}

-- The search found a block, or it found none and left the arena as it was.
unfoldable pub IsSought : ℕ → Arena → List ℕ → Outcome (Option ℕ × Arena) → Type 0
IsSought size a ws run = IsFit size a ws run ⊎ (run ≡ ok (none, a))

module _ (a : Arena) (p : ℕ) (c : Block) (qs ws : List ℕ) (size : ℕ) (here : c.ptr ≡ p + meta_size)
    (more : Down a.blocks p c.next qs) (at : a.blocks p ≡ some c) where
  split-IsFit :
      (fs : List ℕ)
      → Up a.blocks a.top a.head fs (p + meta_size + c.size) (some p)
      → c.is_free ≡ b'1'
      → Cover a.blocks ws fs (p ∷ qs)
      → size + meta_size < c.size
      → IsFit size a ws (split_fit p c size a >>= λ l. ok (some p, l))
  unfolding Up IsBlock
  split-IsFit [] (e, e') is_free cover room =
      split-head a p c qs ws size (Cover-here a.blocks ws p c [] qs at is_free cover) (sym e') at
        is_free (here, e) more room
  split-IsFit (f ∷ fs) (e, fb, at_f, f_ptr, next, above) is_free cover room =
      let (h, is, high) =
        Up-head a.blocks a.top a.head f fs (p + meta_size + c.size) (some p)
          (e, fb, at_f, f_ptr, next, above) in
      let apart : is_head p a.head ≡ false = rw is (ground arith) in
      split-below a p c fb fs qs ws size
        (subst (λ g. Cover a.blocks ws (g ∷ fs) qs) e
          (Cover-here a.blocks ws p c (f ∷ fs) qs at is_free cover))
        apart (rw e at at_f) (rw e at f_ptr) (rw e at above) at is_free here more room

  take_block-IsFit :
      (fs : List ℕ)
      → Up a.blocks a.top a.head fs (p + meta_size + c.size) (some p)
      → c.is_free ≡ b'1'
      → Cover a.blocks ws fs (p ∷ qs)
      → size ≤ c.size
      → IsFit size a ws (take_block p c size a)
  unfolding take_block IsFit IsArena Down IsBlock Spares Cover IsSame
  take_block-IsFit fs above is_free cover fits = elim (Bool-cases (ltb (size + meta_size) c.size)) [
    | inl e ↦ rw e (split-IsFit fs above is_free cover (ltb→lt _ _ e))
    | inr e ↦ rw e (
      p,
      _,
      refl,
      turn fs (p ∷ qs),
      zip a.blocks a.top a.head fs (p ∷ qs) (p + meta_size + c.size) (some p) above
          (refl, c, at, (here, refl), more),
      c,
      at,
      here,
      fits,
      qs,
      more,
      refl,
      Up-top a.blocks a.top a.head fs (p + meta_size + c.size) (some p) above,
      c,
      at,
      is_free,
      λ q u i at_q used. elim (Cover-here a.blocks ws p c fs qs at is_free cover q u i at_q used) [
        | inl k ↦ (
          (u, at_q, refl, refl),
          inr (Up-IsIn a.blocks a.top a.head fs (p + meta_size + c.size) (some p) q above k),
        )
        | inr k ↦ ((u, at_q, refl, refl), inl (Down-IsIn a.blocks p c.next qs q u more k at_q))
      ],
    )
  ]

  merge_second-IsSought :
      (f : ℕ) (fb : Block) (fs : List ℕ)
      → Cover a.blocks ws fs (p ∷ qs)
      → f ≡ p + meta_size + c.size
      → Up a.blocks a.top a.head fs (f + meta_size + fb.size) (some f)
      → IsSought size a ws (merge_second (head_of fs) (head_of (rest_of fs)) fb p c size a)
  unfolding IsSought Up merge_second merge_three load
  merge_second-IsSought f fb [] cover e above = inr refl
  merge_second-IsSought f fb (s ∷ fs) cover e (e', sb, at_s, s_ptr, next, above) =
      let n = c.size + fb.size + sb.size + 2 * meta_size in
      let n' = fb.size + sb.size + c.size + 2 * meta_size in
      elim (Bool-cases (sb.is_free == b'1' && c.is_free == b'1' && leb size n')) [
        | inl yes_free ↦
            let fits : size ≤ n' = ground arith in
            let is_free : c.is_free ≡ b'1' = ground arith in
            let s_free : sb.is_free ≡ b'1' = ground arith in
            let cover' =
              Cover-above a.blocks ws s sb fs qs at_s s_free
                (Cover-here a.blocks ws p c (s ∷ fs) qs at is_free cover) in
            rw (at_s, yes_free)
              (inl (
                merge-IsFit a p c n (pos 3) fs qs ws (s + meta_size + sb.size) (some s) size cover'
                  above (omega arith) at is_free here more (omega arith)))
        | inr not_free ↦ rw (at_s, not_free) (inr refl)
      ]

  try_merge-IsSought :
      (fs : List ℕ)
      → Up a.blocks a.top a.head fs (p + meta_size + c.size) (some p)
      → Cover a.blocks ws fs (p ∷ qs)
      → IsSought size a ws (
          try_merge (head_of fs) (head_of (rest_of fs)) (head_of (rest_of (rest_of fs))) p c size a)
  unfolding IsSought Up try_merge help_merge merge_two load
  try_merge-IsSought [] above cover = inr refl
  try_merge-IsSought (f ∷ fs) (e, fb, at_f, f_ptr, next, above) cover =
      elim (Bool-cases (fb.is_free == b'1')) [
        | inr taken ↦ rw (at_f, taken) (inr refl)
        | inl f_free ↦
            let f_mark : fb.is_free ≡ b'1' = ground arith in
            let cover' = Cover-above a.blocks ws f fb fs (p ∷ qs) at_f f_mark cover in
            elim (Bool-cases (c.is_free == b'1' && ltb size (fb.size + c.size + meta_size))) [
              | inr no_two ↦
                  rw (at_f, f_free, no_two) (merge_second-IsSought f fb fs cover' e above)
              | inl two ↦
                  let fits : size < fb.size + c.size + meta_size = ground arith in
                  let is_free : c.is_free ≡ b'1' = ground arith in
                  rw (at_f, f_free, two)
                    (inl (
                      merge-IsFit a p c (c.size + fb.size + meta_size) (pos 2) fs qs ws
                        (f + meta_size + fb.size) (some f) size
                        (Cover-here a.blocks ws p c fs qs at is_free cover') above (omega arith) at
                        is_free here more (omega arith)))
            ]
      ]

search_fit-IsSought :
    (rounds : ℕ) (a : Arena) (size : ℕ) (ws fs : List ℕ) (end : ℕ) (current : Option ℕ)
    (qs : List ℕ)
    → Up a.blocks a.top a.head fs end current
    → Down a.blocks end current qs
    → Cover a.blocks ws fs qs
    → length qs ≤ rounds
    → IsSought size a ws (
        search_fit rounds current
          (head_of fs)
          (head_of (rest_of fs))
          (head_of (rest_of (rest_of fs)))
          size
          a)
unfolding Up Down IsBlock IsSought IsFit search_fit load chosen_or
search_fit-IsSought rounds a size ws fs end current [] above e cover enough =
    rw (e, search_fit) (inr refl)
search_fit-IsSought zero a size ws fs end current (q ∷ qs) above down cover enough =
    absurd (omega arith)
search_fit-IsSought (suc rounds) a size ws fs end current (q ∷ qs) above
      (e, c, at, (here, ends), more) cover enough =
    let up : Up a.blocks a.top a.head fs (q + meta_size + c.size) (some q) =
      rw ends (rw e at above) in
    elim (Bool-cases (c.is_free == b'1' && leb size c.size)) [
      | inl fits ↦
          let low : size ≤ c.size = ground arith in
          let is_free : c.is_free ≡ b'1' = ground arith in
          rw (e, at, fits)
            (inl (take_block-IsFit a q c qs ws size here more at fs up is_free cover low))
      | inr on ↦ elim (try_merge-IsSought a q c qs ws size here more at fs up cover) [
        | inl
              (
                chosen, a', run, ps, holds, b, found, ptr, low, rs, below, tops, inside, c', was,
                marked, spared,
              ) ↦
            rw (e, at, on, run)
              (inl (
                chosen, a', refl, ps, holds, b, found, ptr, low, rs, below, tops, inside, c', was,
                marked, spared,
              ))
        | inr run ↦
            rw (e, at, on, run)
              (search_fit-IsSought rounds a size ws (q ∷ fs) q c.next qs
                (refl, c, at, here, refl, up) more (Cover-next a.blocks ws q fs qs cover)
                (omega arith))
      ]
    ]

-- In an arena whose list fills the heap, with a round for each block, find_fit either returns a block of
-- at least the size that is asked for, which was marked as free and ends within the heap, and the list
-- fills the same heap, however blocks were split or merged, and each block in use of the list keeps
-- its size and its mark and lies apart from the block returned; or it returns NULL and leaves the arena
-- as it was.
pub find_fit_keeps :
    (rounds size : ℕ) (a : Arena) (qs : List ℕ)
    → IsArena a qs
    → length qs ≤ rounds
    → IsSought size a qs (find_fit rounds size a)
unfolding IsArena IsSought find_fit Up Cover
find_fit_keeps rounds size a qs holds enough =
    elim (Bool-cases (eq_ℤ a.total_free_blocks (pos 0))) [
      | inl e ↦ rw e (inr refl)
      | inr e ↦ elim (Bool-cases (size == 0)) [
        | inl e' ↦ rw (e, e') (inr refl)
        | inr e' ↦
            rw (e, e')
              (search_fit-IsSought rounds a size qs [] a.top a.head qs (refl, refl) holds
                (λ q u i at used. inr i) enough)
      ]
    ]
