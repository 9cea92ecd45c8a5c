-- ===== src/Mmu/Removal.antt =====
-- mmu.c: mmu_remove_process gives back every frame of the process.
use machine_project.Prelude.{
  ℕ, zero, suc, ◌+◌, ◌≤◌, ◌<◌, ◌≡◌, ◌⊎◌, refl, ltb, lt→ltb, ◌==◌, true, List, [], ◌∷◌, ◌++◌, some,
  ok, Bool-cases, inl, inr, arith,
}
use machine_project.Mmu.{Memory, Machine, Mmu, num_entries}
use machine_project.Mmu.Process.{
  Release, frame, release_pages, release_tables, released, forget_process, mmu_remove_process,
}

-- A place in a list.
pub data In (x : Release) : List Release → Type 0 where
  here : {xs : List Release} → In x (x ∷ xs)
  there : {y : Release} {xs : List Release} → In x xs → In x (y ∷ xs)

In-left : {x : Release} {xs : List Release} (ys : List Release) → In x xs → In x (xs ++ ys)
In-left ys here = here
In-left ys (there m) = there (In-left ys m)

In-right : {x : Release} (xs : List Release) {ys : List Release} → In x ys → In x (xs ++ ys)
In-right [] m = m
In-right (x ∷ xs) m = there (In-right xs m)

module _ {K : Type 0} where
  -- `f` is the frame of one of `n` entries from `i` on that is present.
  abbrev Present : ℕ → ℕ → ℕ → ℕ → Memory K → Type 0
  Present n i table f mem =
      (j : ℕ) × (i ≤ j)
      × (j < i + n)
      × ((mem.entries table j).present ≡ true)
      × ((mem.entries table j).base_addr ≡ f)

  later :
      (n i table f : ℕ) (mem : Memory K)
      → Present (suc n) i table f mem
      → (((mem.entries table i).present ≡ true) × ((mem.entries table i).base_addr ≡ f))
        ⊎ Present n (i + 1) table f mem
  later n i table f mem (j, low, high, present, base) = elim (Bool-cases (j == i)) [
    | inl e ↦ let same : j ≡ i = ground arith in inl ((rw same at present), (rw same at base))
    | inr e ↦ inr (j, ground arith, omega arith, present, base)
  ]

  release_pages-In :
      (n i table f : ℕ) (mem : Memory K)
      → Present n i table f mem
      → In (frame f) (release_pages n i table mem)
  unfolding release_pages
  release_pages-In zero i table f mem (j, low, high, present, base) = absurd (omega arith)
  release_pages-In (suc n) i table f mem here_or = elim (later n i table f mem here_or) [
    | inl (present, base) ↦ rw (present, base) here
    | inr rest ↦
        let m = release_pages-In n (i + 1) table f mem rest in
        elim (Bool-cases (mem.entries table i).present) [
          | inl e ↦ rw e (there (there m))
          | inr e ↦ rw e (there m)
        ]
  ]

  -- `f` is the frame of a table, or of a page in it.
  abbrev Held : ℕ → ℕ → ℕ → ℕ → Memory K → Type 0
  Held n i directory f mem =
      (t : ℕ) × Present n i directory t mem × ((f ≡ t) ⊎ Present num_entries 0 t f mem)

  release_tables-In :
      (n i directory f : ℕ) (mem : Memory K)
      → Held n i directory f mem
      → In (frame f) (release_tables n i directory mem)
  unfolding release_tables
  release_tables-In zero i directory f mem (t, (j, low, high, present, base), h) =
      absurd (omega arith)
  release_tables-In (suc n) i directory f mem (t, p, h) = elim (later n i directory t mem p) [
    | inr rest ↦
        let m = release_tables-In n (i + 1) directory f mem (t, rest, h) in
        elim (Bool-cases (mem.entries directory i).present) [
          | inl e ↦ rw e (
              In-right (release_pages num_entries 0 (mem.entries directory i).base_addr mem)
                (there m))
          | inr e ↦ rw e m
        ]
    | inl (present, base) ↦ elim h [
      | inl same ↦ rw (present, base, same) (In-right (release_pages num_entries 0 t mem) here)
      | inr page ↦ rw (present, base) (In-left _ (release_pages-In num_entries 0 t f mem page))
    ]
  ]

module _ {c : Machine} where
  released-In :
      (this : Mmu c) (directory f : ℕ)
      → (f ≡ directory) ⊎ Held num_entries 0 directory f this.memory
      → In (frame f) (released (some directory) this)
  unfolding released
  released-In this directory f (inl e) =
      rw e (In-right (release_tables num_entries 0 directory this.memory) here)
  released-In this directory f (inr h) =
      In-left _ (release_tables-In num_entries 0 directory f this.memory h)

  -- For a process that there may be and has a directory, `mmu_remove_process` returns, and among what
  -- it gives back are the frame of the directory, the frame of each table that a present entry of the
  -- directory names, and the frame of each page that a present entry of such a table names.
  pub mmu_remove_process-In :
      (this : Mmu c) (pid directory f : ℕ)
      → pid < c.max_process_id
      → this.page_directories pid ≡ some directory
      → (f ≡ directory) ⊎ Held num_entries 0 directory f this.memory
      → (gone : List Release) × (after : Mmu c) × (mmu_remove_process this pid ≡ ok (gone, after))
        × In (frame f) gone
  unfolding mmu_remove_process
  mmu_remove_process-In this pid directory f known has held =
      let known' : ltb pid c.max_process_id ≡ true = lt→ltb pid c.max_process_id known in
      (
        released (this.page_directories pid) this,
        forget_process pid this,
        rw known' refl,
        rw has (released-In this directory f held),
      )
