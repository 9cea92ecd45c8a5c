-- ===== src/Malloc/Merges.antt =====
-- alloc.c: a merge of blocks keeps the list that fills the heap.
use machine_project.Malloc.Spared.{IsSame, Spares, Cover}
use machine_project.Prelude.{
  ℕ, ◌+◌, ◌≤◌, ◌<◌, ◌≡◌, refl, sym, ap, ◌∙◌, ◌==◌, ==→eq, Bool-cases, inl, inr, List, [], ◌∷◌,
  Option, some, Outcome, ok, ◌>>=◌, arith,
}
use machine_project.Prelude.Int.{ℤ, ◌-ℤ◌}
use machine_project.Malloc.{Block, meta_size, Arena, store, load, put, count_free, relink}
use machine_project.Malloc.Segments.{
  IsBlock, head_of, Down, Up, store-same, store-other, Down-frame, Up-frame, Up-top, size_of,
  mark_of, Down-IsIn, Up-IsIn, turn, zip,
}
use machine_project.Malloc.Keeps.{IsArena, IsFit}

-- Relinking what stands above a place leaves what is below it.
IsRelinked : Arena → List ℕ → ℕ → ℕ → Outcome Arena → Type 0
IsRelinked a fs end current run =
    (l : Arena) × (run ≡ ok l)
    × Up l.blocks l.top l.head fs end (some current)
    × ((q : ℕ) → q < end → l.blocks q ≡ a.blocks q)
    × ((q : ℕ) (u : Block) → a.blocks q ≡ some u → IsSame (l.blocks q) u)
    × (l.top ≡ a.top)

relink-IsRelinked :
    (a : Arena) (fs : List ℕ) (end : ℕ) (p prev : Option ℕ) (current : ℕ)
    → Up a.blocks a.top a.head fs end p
    → IsRelinked a fs end current (relink (head_of fs) current prev a)
unfolding IsRelinked Up relink load IsSame
relink-IsRelinked a [] end p prev current (e, e') =
    (_, refl, (e, refl), (λ q less. refl), (λ q u at. (u, at, refl, refl)), refl)
relink-IsRelinked a (f ∷ fs) end p prev current (e, b, at, here, next, above) =
    let b' : Block = record b { next = some current; prev = prev } in
    let kept =
      Up-frame a.blocks (store a.blocks f b') a.top a.head fs (f + meta_size + b.size) (some f)
        (λ q less. store-other a.blocks f b' q (omega arith)) above in
    rw at (
      _,
      refl,
      (e, b', store-same a.blocks f b', here, refl, kept),
      (λ q less. store-other a.blocks f b' q (omega arith)),
      (λ q u at_q. elim (Bool-cases (q == f)) [
        | inl is ↦
            let here_f = ==→eq q f is in
            let whole = sym at ∙ ap a.blocks (sym here_f) ∙ at_q in
            (
              b',
              ap (store a.blocks f b') here_f ∙ store-same a.blocks f b',
              ap size_of whole,
              ap mark_of whole,
            )
        | inr other ↦ (u, store-other a.blocks f b' q (ground (arith, other)) ∙ at_q, refl, refl)
      ]),
      refl,
    )

pub merge-IsFit :
    (a : Arena) (p : ℕ) (c : Block) (n : ℕ) (k : ℤ) (fs qs ws : List ℕ) (end : ℕ) (x : Option ℕ)
    (size : ℕ)
    → Cover a.blocks ws fs qs
    → Up a.blocks a.top a.head fs end x
    → p + meta_size + n ≡ end
    → a.blocks p ≡ some c
    → c.is_free ≡ b'1'
    → c.ptr ≡ p + meta_size
    → Down a.blocks p c.next qs
    → size ≤ n
    → IsFit size a ws (
        relink (head_of fs) p c.prev (put p (record c { size = n }) a) >>= λ l.
        ok (some p, count_free (l.total_free_blocks -ℤ k) l))
unfolding IsFit IsArena IsBlock Down IsRelinked Spares Cover IsSame
merge-IsFit a p c n k fs qs ws end x size cover above ends was is_free here more room =
    let c' : Block = record c { size = n } in
    let made : Arena = put p c' a in
    let high =
      Up-frame a.blocks made.blocks a.top a.head fs end x
        (λ q less. store-other a.blocks p c' q (omega arith)) above in
    let (l, run, up, same, kept, tops) = relink-IsRelinked made fs end x c.prev p high in
    let at : l.blocks p ≡ some c' = same p (omega arith) ∙ store-same a.blocks p c' in
    let low =
      Down-frame a.blocks l.blocks p c.next qs
        (λ q less. same q (omega arith) ∙ store-other a.blocks p c' q (omega arith)) more in
    let spared : Spares a.blocks ws p (p + meta_size + n) l.blocks = λ q u i at_q used.
      elim (cover q u i at_q used) [
        | inl k' ↦
            let high_q = Up-IsIn a.blocks a.top a.head fs end x q above k' in
            (kept q u (store-other a.blocks p c' q (omega arith) ∙ at_q), inr (omega arith))
        | inr k' ↦
            let low_q = Down-IsIn a.blocks p c.next qs q u more k' at_q in
            (kept q u (store-other a.blocks p c' q (omega arith) ∙ at_q), inl low_q)
      ] in
    rw run (
      p,
      _,
      refl,
      turn fs (p ∷ qs),
      zip l.blocks l.top l.head fs (p ∷ qs) end (some p) up (refl, c', at, (here, ends), low),
      c',
      at,
      here,
      room,
      qs,
      low,
      tops,
      omega (arith, Up-top a.blocks a.top a.head fs end x above),
      c,
      was,
      is_free,
      spared,
    )
