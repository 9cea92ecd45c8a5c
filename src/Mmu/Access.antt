-- ===== src/Mmu/Access.antt =====
-- mmu.c: what a read returns behind a write.
use mathlib.Core.Path.{subst}
use machine_project.Prelude.{
  ℕ, ◌+◌, ◌/◌, ◌%◌, ◌^◌, ◌<◌, ◌≡◌, refl, sym, ◌∙◌, ltb, leb, ◌==◌, ◌&&◌, if◌then◌else◌, true, List,
  [], ◌∷◌, length, Option, none, some, Outcome, ok, fault, assert-eq-ok, >>=-eq-ok, ok-injective,
  Bool-cases, abort, hang, inl, inr, arith,
}
use machine_project.Mmu.{
  Slot, Machine, IsCache, Mmu, entry_at, copy_out, copy_in, page_size, num_entries, page_of,
  permitted,
}
use machine_project.Mmu.Paging.{
  switch, walk, find_from, find_entry, read_found, write_found, write_table_fault,
  write_directory_fault, read_directory_fault, mmu_tlb_miss, mmu_raise_page_fault, take_frame,
  mmu_read_from_virtual_address, mmu_write_to_virtual_address,
}

self_eq : (n : ℕ) → (n == n) ≡ true
self_eq n = ground arith

copy_in-before :
    (bs : List ℕ) (f i j : ℕ) (bytes : ℕ → ℕ → ℕ) → j < i → copy_in bs f i bytes f j ≡ bytes f j
unfolding copy_in
copy_in-before [] f i j bytes h = refl
copy_in-before (b ∷ bs) f i j bytes h = copy_in-before bs f (i + 1) j _ (omega arith) ∙ ground arith

copy_out-copy_in :
    (bs : List ℕ) (f i : ℕ) (bytes : ℕ → ℕ → ℕ)
    → copy_out (length bs) f i (copy_in bs f i bytes) ≡ bs
unfolding copy_in copy_out
copy_out-copy_in [] f i bytes = refl
copy_out-copy_in (b ∷ bs) f i bytes =
    let bytes' : ℕ → ℕ → ℕ = λ g j. if g == f && (j == i) then b else bytes g j in
    let first : copy_in bs f (i + 1) bytes' f i ≡ b =
      copy_in-before bs f (i + 1) i bytes' (omega arith) ∙ rw (self_eq f, self_eq i) in
    rw (first, copy_out-copy_in bs f (i + 1) bytes')

module _ {c : Machine} where
  write_found-curr_pid :
      (virtual_address : ℕ) (buffer : List ℕ) (p : Slot) (found : Mmu c)
      → (write_found virtual_address buffer p found).curr_pid ≡ found.curr_pid
  unfolding write_found write_table_fault take_frame mmu_raise_page_fault
  write_found-curr_pid virtual_address buffer p found =
      elim (Bool-cases (entry_at found.memory p).present) [ inl e ↦ rw e | inr e ↦ rw e ]

  write_found-segmentations :
      (virtual_address : ℕ) (buffer : List ℕ) (p : Slot) (found : Mmu c)
      → (write_found virtual_address buffer p found).segmentations ≡ found.segmentations
  unfolding write_found write_table_fault take_frame mmu_raise_page_fault
  write_found-segmentations virtual_address buffer p found =
      elim (Bool-cases (entry_at found.memory p).present) [ inl e ↦ rw e | inr e ↦ rw e ]

  write_there : Slot → Mmu c → Mmu c
  write_there p found =
      if (entry_at found.memory p).present then found else write_table_fault p found

  write_there-present :
      (p : Slot) (found : Mmu c) → (entry_at (write_there p found).memory p).present ≡ true
  unfolding write_there write_table_fault
  write_there-present p found = elim (Bool-cases (entry_at found.memory p).present) [
    | inl e ↦ rw e e
    | inr e ↦ rw (e, self_eq p.table, self_eq p.index)
  ]

  write_found-present :
      (virtual_address : ℕ) (buffer : List ℕ) (p : Slot) (found : Mmu c)
      → (entry_at (write_found virtual_address buffer p found).memory p).present ≡ true
  unfolding write_found
  write_found-present virtual_address buffer p found =
      rw (self_eq p.table, self_eq p.index) (unfold write_there in write_there-present p found)

  -- A read through the same entry: the bytes that were written, and no fault.
  read_found-write_found :
      (virtual_address : ℕ) (buffer : List ℕ) (p : Slot) (found : Mmu c)
      → (let after = write_found virtual_address buffer p found in
          let (bytes, later) = read_found virtual_address (length buffer) p after in
          (bytes ≡ buffer)
          × (later.num_tlb_misses ≡ after.num_tlb_misses)
          × (later.num_page_faults ≡ after.num_page_faults)
          × (later.num_segmentation_faults ≡ after.num_segmentation_faults))
  unfolding read_found write_found
  read_found-write_found virtual_address buffer p found =
      let there = write_found-present virtual_address buffer p found in
      rw there (
        rw (self_eq p.table, self_eq p.index)
            (copy_out-copy_in buffer _ (virtual_address % page_size) _),
        refl,
        refl,
        refl,
      )

  -- What finding an entry leaves alone.
  Keeps : Mmu c → Outcome (Slot × Mmu c) → Type 0
  Keeps this (ok (p, found)) =
      (found.curr_pid ≡ this.curr_pid) × (found.segmentations ≡ this.segmentations)
  Keeps this abort = Unit
  Keeps this fault = Unit
  Keeps this hang = Unit

  walk-Keeps :
      (virtual_address : ℕ) (this : Mmu c) (directory : Option ℕ)
      → Keeps this (walk write_directory_fault virtual_address this directory)
  unfolding Keeps walk write_directory_fault mmu_raise_page_fault take_frame
  walk-Keeps virtual_address this none = tt
  walk-Keeps virtual_address this (some d) =
      elim (Bool-cases (ltb (virtual_address / 2 ^ 20) num_entries)) [
        | inr e ↦ rw e tt
        | inl e ↦ elim (Bool-cases (this.memory.entries d (virtual_address / 2 ^ 20)).present) [
          | inl z ↦ rw (e, z) (refl, refl)
          | inr z ↦ rw (e, z) (refl, refl)
        ]
      ]

  missed-Keeps :
      (this : Mmu c) (o : Outcome (Slot × Mmu c)) → Keeps (mmu_tlb_miss this) o → Keeps this o
  unfolding Keeps mmu_tlb_miss
  missed-Keeps this (ok (p, found)) k = k
  missed-Keeps this abort k = tt
  missed-Keeps this fault k = tt
  missed-Keeps this hang k = tt

  find_from-Keeps :
      (virtual_address pid : ℕ) (this : Mmu c) (cached : Option Slot)
      → Keeps this (find_from write_directory_fault virtual_address pid this cached)
  unfolding find_from
  find_from-Keeps virtual_address pid this (some p) = unfold Keeps in (refl, refl)
  find_from-Keeps virtual_address pid this none =
      missed-Keeps this _
        (walk-Keeps virtual_address (mmu_tlb_miss this) (this.page_directories pid))

  find_entry-hit :
      (f : Slot → Mmu c → Mmu c) (virtual_address pid : ℕ) (this : Mmu c) (p : Slot)
      → c.tlb_get_pte this.tlb (page_of virtual_address) ≡ some p
      → find_entry f virtual_address pid this ≡ ok (p, this)
  unfolding find_from
  find_entry-hit f virtual_address pid this p e = rw e

  switch-curr_pid : (pid : ℕ) (this : Mmu c) → (switch pid this).curr_pid ≡ pid
  unfolding switch
  switch-curr_pid pid this = elim (Bool-cases (pid == this.curr_pid)) [
    | inl e ↦ rw e (ground arith)
    | inr e ↦ rw e
  ]

  switch_same : (pid : ℕ) (this : Mmu c) → this.curr_pid ≡ pid → switch pid this ≡ this
  unfolding switch
  switch_same pid this h = let e : (pid == this.curr_pid) ≡ true = ground arith in rw e

  write_found-cached :
      (virtual_address : ℕ) (buffer : List ℕ) (p : Slot) (found : Mmu c)
      → IsCache c
      → c.tlb_get_pte (write_found virtual_address buffer p found).tlb (page_of virtual_address)
        ≡ some p
  unfolding write_found
  write_found-cached virtual_address buffer p found cache =
      cache.added _ (page_of virtual_address) p

  -- What a successful write comes to, where the address lies in a segment that may be written.
  written :
      (this s : Mmu c) (virtual_address pid : ℕ) (buffer : List ℕ)
      → mmu_write_to_virtual_address this virtual_address pid buffer ≡ ok s
      → permitted c (λ seg. seg.write) ((switch pid this).segmentations pid) virtual_address
        ≡ ok true
      → (ltb pid c.max_process_id ≡ true)
        × (leb (length buffer + virtual_address % page_size) page_size ≡ true)
        × ((p : Slot) × (found : Mmu c) × (s ≡ write_found virtual_address buffer p found)
            × Keeps (switch pid this) (ok (p, found)))
  unfolding mmu_write_to_virtual_address
  written this s virtual_address pid buffer runs may =
      let (known, runs1) = assert-eq-ok (ltb pid c.max_process_id) runs in
      let (fits, runs2) =
        assert-eq-ok (leb (length buffer + virtual_address % page_size) page_size) runs1 in
      let (pf, finds, result) =
        >>=-eq-ok (find_entry write_directory_fault virtual_address pid (switch pid this)) _
          (rw may at runs2) in
      let kept =
        subst (Keeps (switch pid this)) finds
          (find_from-Keeps virtual_address pid (switch pid this) _) in
      (known, fits, (pf.0, pf.1, ok-injective (sym result), kept))

  switch-segmentations :
      (pid : ℕ) (this : Mmu c) → (switch pid this).segmentations ≡ this.segmentations
  unfolding switch
  switch-segmentations pid this = elim (Bool-cases (pid == this.curr_pid)) [
    | inl e ↦ rw e
    | inr e ↦ rw e
  ]

  -- `s` answers a read with the bytes, and counts nothing.
  abbrev pub Answers : Mmu c → ℕ → ℕ → List ℕ → Type 0
  Answers s virtual_address pid buffer =
      (t : Mmu c) × (mmu_read_from_virtual_address s virtual_address pid (length buffer)
        ≡ ok (some buffer, t))
      × (t.num_tlb_misses ≡ s.num_tlb_misses)
      × (t.num_page_faults ≡ s.num_page_faults)
      × (t.num_segmentation_faults ≡ s.num_segmentation_faults)

  write_found-Answers :
      (cache : IsCache c) (virtual_address pid : ℕ) (buffer : List ℕ) (p : Slot) (found : Mmu c)
      → ltb pid c.max_process_id ≡ true
      → leb (length buffer + virtual_address % page_size) page_size ≡ true
      → found.curr_pid ≡ pid
      → permitted c (λ seg. seg.read) (found.segmentations pid) virtual_address ≡ ok true
      → Answers (write_found virtual_address buffer p found) virtual_address pid buffer
  unfolding mmu_read_from_virtual_address
  write_found-Answers cache virtual_address pid buffer p found known fits here may =
      let s = write_found virtual_address buffer p found in
      let stays = switch_same pid s (write_found-curr_pid virtual_address buffer p found ∙ here) in
      let may' : permitted c (λ seg. seg.read) (s.segmentations pid) virtual_address ≡ ok true =
        rw (write_found-segmentations virtual_address buffer p found) may in
      let hit =
        find_entry-hit read_directory_fault virtual_address pid s p
          (write_found-cached virtual_address buffer p found cache) in
      let (bytes, misses, faults, segs) = read_found-write_found virtual_address buffer p found in
      (
        (read_found virtual_address (length buffer) p s).1,
        rw (known, fits, stays, may', hit, bytes) refl,
        misses,
        faults,
        segs,
      )

  -- For a TLB that is a cache, if a write to an address succeeds where the process may write to it and
  -- may read from it, then a read of as many bytes by the same process from the same address, with no
  -- other access in between, returns the bytes that were written, and counts no TLB miss, no page
  -- fault and no segmentation fault.
  pub mmu_read-mmu_write :
      (cache : IsCache c) (this s : Mmu c) (virtual_address pid : ℕ) (buffer : List ℕ)
      → mmu_write_to_virtual_address this virtual_address pid buffer ≡ ok s
      → permitted c (λ seg. seg.write) (this.segmentations pid) virtual_address ≡ ok true
      → permitted c (λ seg. seg.read) (this.segmentations pid) virtual_address ≡ ok true
      → Answers s virtual_address pid buffer
  unfolding Keeps
  mmu_read-mmu_write cache this s virtual_address pid buffer runs may_write may_read =
      let segs = switch-segmentations pid this in
      let (known, fits, (p, found, e, (here, kept))) =
        written this s virtual_address pid buffer runs (rw segs may_write) in
      subst (λ m. Answers m virtual_address pid buffer) (sym e)
        (write_found-Answers cache virtual_address pid buffer p found known fits
          (here ∙ switch-curr_pid pid this) (rw (kept, segs) may_read))
