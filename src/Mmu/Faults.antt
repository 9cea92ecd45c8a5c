-- ===== src/Mmu/Faults.antt =====
-- mmu.c: what an access counts, and the addresses whose directory entry is past the directory.
use mathlib.Core.Path.{subst}
use machine_project.Prelude.{
  ℕ, ◌+◌, ◌/◌, ◌%◌, ◌^◌, ◌≤◌, ◌<◌, ◌≡◌, ◌⊎◌, refl, ltb, leb, lt→ltb, ◌==◌, if◌then◌else◌, Bool,
  true, false, List, Option, none, some, Outcome, ok, abort, hang, fault, ◌>>=◌, assert-eq-ok,
  >>=-eq-ok, ok-injective, Bool-cases, inl, inr, arith,
}
use machine_project.Mmu.{Slot, Machine, Mmu, entry_at, page_size, num_entries, page_of, permitted}
use machine_project.Mmu.Paging.{
  switch, walk, find_from, find_entry, read_found, read_table_fault, read_directory_fault,
  mmu_tlb_miss, mmu_raise_page_fault, mmu_raise_segmentation_fault, take_frame,
  mmu_read_from_virtual_address,
}

module _ {c : Machine} where
  -- `n` page faults at most and `m` misses at most from one state to the next, and no other fault.
  abbrev pub Counts : ℕ → ℕ → Mmu c → Mmu c → Type 0
  Counts m n this after =
      (this.num_tlb_misses ≤ after.num_tlb_misses)
      × (after.num_tlb_misses ≤ this.num_tlb_misses + m)
      × (this.num_page_faults ≤ after.num_page_faults)
      × (after.num_page_faults ≤ this.num_page_faults + n)
      × (after.num_segmentation_faults ≡ this.num_segmentation_faults)

  Tallies : ℕ → ℕ → Mmu c → Outcome (Slot × Mmu c) → Type 0
  Tallies m n this (ok (p, found)) = Counts m n this found
  Tallies m n this abort = Unit
  Tallies m n this fault = Unit
  Tallies m n this hang = Unit

  walk-Tallies :
      (virtual_address : ℕ) (this : Mmu c) (directory : Option ℕ)
      → Tallies 0 1 this (walk read_directory_fault virtual_address this directory)
  unfolding Tallies walk read_directory_fault mmu_raise_page_fault take_frame
  walk-Tallies virtual_address this none = tt
  walk-Tallies virtual_address this (some d) =
      elim (Bool-cases (ltb (virtual_address / 2 ^ 20) num_entries)) [
        | inr e ↦ rw e tt
        | inl e ↦ elim (Bool-cases (this.memory.entries d (virtual_address / 2 ^ 20)).present) [
          | inl z ↦ rw (e, z) (omega arith)
          | inr z ↦ rw (e, z) (omega arith)
        ]
      ]

  missed-Tallies :
      (this : Mmu c) (o : Outcome (Slot × Mmu c))
      → Tallies 0 1 (mmu_tlb_miss this) o
      → Tallies 1 1 this o
  unfolding Tallies mmu_tlb_miss
  missed-Tallies this (ok (p, found)) k = omega arith
  missed-Tallies this abort k = tt
  missed-Tallies this fault k = tt
  missed-Tallies this hang k = tt

  find_from-Tallies :
      (virtual_address pid : ℕ) (this : Mmu c) (cached : Option Slot)
      → Tallies 1 1 this (find_from read_directory_fault virtual_address pid this cached)
  unfolding find_from
  find_from-Tallies virtual_address pid this (some p) = unfold Tallies in (omega arith)
  find_from-Tallies virtual_address pid this none =
      missed-Tallies this _
        (walk-Tallies virtual_address (mmu_tlb_miss this) (this.page_directories pid))

  read_found-Counts :
      (virtual_address num_bytes : ℕ) (p : Slot) (found : Mmu c)
      → Counts 0 1 found (read_found virtual_address num_bytes p found).1
  unfolding read_found read_table_fault mmu_raise_page_fault take_frame
  read_found-Counts virtual_address num_bytes p found =
      elim (Bool-cases (entry_at found.memory p).present) [
        | inl e ↦ rw e (omega arith)
        | inr e ↦ rw e (omega arith)
      ]

  switch-Counts : (pid : ℕ) (this : Mmu c) → Counts 0 0 this (switch pid this)
  unfolding switch
  switch-Counts pid this = elim (Bool-cases (pid == this.curr_pid)) [
    | inl e ↦ rw e (omega arith)
    | inr e ↦ rw e (omega arith)
  ]

  -- The two ways in which a read ends.
  Ends : Mmu c → Option (List ℕ) × Mmu c → Type 0
  Ends this (none, after) =
      (after.num_segmentation_faults ≡ this.num_segmentation_faults + 1)
      × (after.num_tlb_misses ≡ this.num_tlb_misses)
      × (after.num_page_faults ≡ this.num_page_faults)
  Ends this (some buffer, after) = Counts 1 2 this after

  ended :
      (this after : Mmu c) (r : Option (List ℕ))
      → Ends this (r, after)
      → ((r ≡ none)
          × (after.num_segmentation_faults ≡ this.num_segmentation_faults + 1)
          × (after.num_tlb_misses ≡ this.num_tlb_misses)
          × (after.num_page_faults ≡ this.num_page_faults))
        ⊎ ((buffer : List ℕ) × (r ≡ some buffer) × Counts 1 2 this after)
  unfolding Ends
  ended this after none (a, b, d) = inl (refl, a, b, d)
  ended this after (some buffer) k = inr (buffer, refl, k)

  walk_high :
      (virtual_address : ℕ) (this : Mmu c) (directory : Option ℕ)
      → 2 ^ 30 ≤ virtual_address
      → walk read_directory_fault virtual_address this directory ≡ fault
  unfolding walk
  walk_high virtual_address this none h = refl
  walk_high virtual_address this (some d) h =
      let e : ltb (virtual_address / 2 ^ 20) num_entries ≡ false = ground arith in rw e

  read_lem :
      (this : Mmu c) (virtual_address pid num_bytes : ℕ) (allowed : Bool)
      (r : Option (List ℕ) × Mmu c)
      → (if allowed
          then ((find_entry read_directory_fault virtual_address pid (switch pid this))
              >>= λ (p, found).
                  let (buffer, after) = read_found virtual_address num_bytes p found in
                  ok (some buffer, after))
          else ok (none, mmu_raise_segmentation_fault (switch pid this)))
        ≡ ok r
      → Ends this r
  unfolding Ends
  read_lem this virtual_address pid num_bytes false r e =
      let c0 = switch-Counts pid this in
      subst (Ends this) (ok-injective e)
        (unfold mmu_raise_segmentation_fault in (omega arith, omega arith, omega arith))
  read_lem this virtual_address pid num_bytes true r e =
      let c0 = switch-Counts pid this in
      let (pf, finds, result) =
        >>=-eq-ok (find_entry read_directory_fault virtual_address pid (switch pid this)) _ e in
      let c1 : Counts 1 1 (switch pid this) pf.1 =
        unfold Tallies in
        subst (Tallies 1 1 (switch pid this)) finds
          (find_from-Tallies virtual_address pid (switch pid this) _) in
      let c2 = read_found-Counts virtual_address num_bytes pf.0 pf.1 in
      subst (Ends this) (ok-injective result) (omega arith)

  -- A read that returns either raises one segmentation fault, copies nothing and counts nothing else,
  -- or copies the bytes, with at most one TLB miss, at most two page faults and no segmentation fault.
  pub mmu_read-Counts :
      (this after : Mmu c) (virtual_address pid num_bytes : ℕ) (r : Option (List ℕ))
      → mmu_read_from_virtual_address this virtual_address pid num_bytes ≡ ok (r, after)
      → ((r ≡ none)
          × (after.num_segmentation_faults ≡ this.num_segmentation_faults + 1)
          × (after.num_tlb_misses ≡ this.num_tlb_misses)
          × (after.num_page_faults ≡ this.num_page_faults))
        ⊎ ((buffer : List ℕ) × (r ≡ some buffer) × Counts 1 2 this after)
  unfolding mmu_read_from_virtual_address
  mmu_read-Counts this after virtual_address pid num_bytes r runs =
      let (known, runs1) = assert-eq-ok (ltb pid c.max_process_id) runs in
      let (fits, runs2) =
        assert-eq-ok (leb (num_bytes + virtual_address % page_size) page_size) runs1 in
      let (allowed, may, runs3) =
        >>=-eq-ok
          (permitted c (λ seg. seg.read) ((switch pid this).segmentations pid) virtual_address) _
          runs2 in
      ended this after r (read_lem this virtual_address pid num_bytes allowed (r, after) runs3)

  -- Where a process may read an address of 2 ^ 30 or above, and the TLB does not have its page, the
  -- read looks for the directory entry past the 1024 that the directory has.
  pub mmu_read_faults :
      (this : Mmu c) (virtual_address pid num_bytes : ℕ)
      → pid < c.max_process_id
      → num_bytes + virtual_address % page_size ≤ page_size
      → permitted c (λ seg. seg.read) ((switch pid this).segmentations pid) virtual_address
        ≡ ok true
      → c.tlb_get_pte (switch pid this).tlb (page_of virtual_address) ≡ none
      → 2 ^ 30 ≤ virtual_address
      → mmu_read_from_virtual_address this virtual_address pid num_bytes ≡ fault
  unfolding mmu_read_from_virtual_address find_from
  mmu_read_faults this virtual_address pid num_bytes known fits may miss high =
      let known' : ltb pid c.max_process_id ≡ true = lt→ltb pid c.max_process_id known in
      let fits' : leb (num_bytes + virtual_address % page_size) page_size ≡ true = ground arith in
      rw (
        known',
        fits',
        may,
        miss,
        walk_high virtual_address (mmu_tlb_miss (switch pid this))
            ((switch pid this).page_directories pid) high,
      )
