-- ===== src/Mmu/Paging.antt =====
-- mmu.c: an access, with the page walk and the faults that it raises.
use machine_project.Prelude.{
  ℕ, ◌+◌, ◌/◌, ◌%◌, ◌^◌, ltb, leb, ◌==◌, if◌then◌else◌, true, false, List, length, Option, none,
  some, Outcome, ok, fault, ◌>>=◌, ◌>>◌, assert,
}
use machine_project.Mmu.{
  Entry, Slot, Machine, Mmu, entry_at, set_entry, copy_out, copy_in, mark, page_size, num_entries,
  page_of, permitted,
}

module _ {c : Machine} where
  unfoldable pub mmu_tlb_miss : Mmu c → Mmu c
  mmu_tlb_miss this = record this { num_tlb_misses = this.num_tlb_misses + 1 }

  unfoldable pub mmu_raise_page_fault : Mmu c → Mmu c
  mmu_raise_page_fault this = record this { num_page_faults = this.num_page_faults + 1 }

  unfoldable pub mmu_raise_segmentation_fault : Mmu c → Mmu c
  mmu_raise_segmentation_fault this = record this {
    num_segmentation_faults = this.num_segmentation_faults + 1;
  }

  abbrev pub change_entry : Slot → (Entry → Entry) → Mmu c → Mmu c
  change_entry p f this = record this {
    memory = set_entry p (f (entry_at this.memory p)) this.memory;
  }

  -- entry->base_addr = ask_kernel_for_frame(request) >> 12
  unfoldable pub take_frame : Slot → Option Slot → Mmu c → Mmu c
  take_frame p request this =
      let (address, mem) = c.ask_kernel_for_frame request this.memory in
      change_entry p (λ e. record e { base_addr = address / page_size })
        (record this { memory = mem })

  abbrev pub load_page : Slot → Mmu c → Mmu c
  load_page p this = record this { memory = c.read_page_from_disk p this.memory }

  -- The directory entry that is not present, in a read and in a write.
  unfoldable pub read_directory_fault : Slot → Mmu c → Mmu c
  unfolding mmu_raise_page_fault take_frame
  read_directory_fault p this =
      change_entry p (mark false) (load_page p (take_frame p none (mmu_raise_page_fault this)))

  unfoldable pub write_directory_fault : Slot → Mmu c → Mmu c
  unfolding mmu_raise_page_fault take_frame
  write_directory_fault p this = change_entry p (mark false) (
      take_frame p none
        (mmu_raise_page_fault (change_entry p (λ e. record e { present = true }) this)))

  -- The table entry that is not present, in a read and in a write.
  unfoldable pub read_table_fault : Slot → Mmu c → Mmu c
  unfolding mmu_raise_page_fault take_frame
  read_table_fault p this =
      change_entry p (mark true) (load_page p (take_frame p (some p) (mmu_raise_page_fault this)))

  unfoldable pub write_table_fault : Slot → Mmu c → Mmu c
  unfolding mmu_raise_page_fault take_frame
  write_table_fault p this = change_entry p (mark true) (
      load_page p (
        take_frame p (some p)
          (mmu_raise_page_fault (change_entry p (λ e. record e { present = true }) this))))

  -- A new process makes the TLB useless.
  unfoldable pub switch : ℕ → Mmu c → Mmu c
  switch pid this =
      if pid == this.curr_pid
      then this
      else record this { tlb = c.tlb_flush this.tlb; curr_pid = pid }

  -- The table entry of an address, by way of a directory, which has 1024 entries.
  unfoldable pub walk : (Slot → Mmu c → Mmu c) → ℕ → Mmu c → Option ℕ → Outcome (Slot × Mmu c)
  walk directory_fault virtual_address this none = fault
  walk directory_fault virtual_address this (some directory) =
      let p : Slot = record { table = directory; index = virtual_address / 2 ^ 20 } in
      let there = if (entry_at this.memory p).present then this else directory_fault p this in
      if ltb (virtual_address / 2 ^ 20) num_entries
      then ok (
        record {
          table = (entry_at there.memory p).base_addr;
          index = virtual_address % 2 ^ 22 / 2 ^ 12;
        },
        there,
      )
      else fault

  -- The entry, for what the TLB has for its page.
  unfoldable pub find_from :
      (Slot → Mmu c → Mmu c) → ℕ → ℕ → Mmu c → Option Slot → Outcome (Slot × Mmu c)
  unfolding mmu_tlb_miss
  find_from directory_fault virtual_address pid this (some p) = ok (p, this)
  find_from directory_fault virtual_address pid this none =
      walk directory_fault virtual_address (mmu_tlb_miss this) (this.page_directories pid)

  abbrev pub find_entry : (Slot → Mmu c → Mmu c) → ℕ → ℕ → Mmu c → Outcome (Slot × Mmu c)
  find_entry directory_fault virtual_address pid this =
      find_from directory_fault virtual_address pid this
        (c.tlb_get_pte this.tlb (page_of virtual_address))

  -- What follows when the entry is found.
  unfoldable pub read_found : ℕ → ℕ → Slot → Mmu c → List ℕ × Mmu c
  unfolding read_table_fault
  read_found virtual_address num_bytes p found =
      let there = if (entry_at found.memory p).present then found else read_table_fault p found in
      let used = change_entry p (λ e. record e { accessed = true }) there in
      (
        copy_out num_bytes (entry_at used.memory p).base_addr (virtual_address % page_size)
            used.memory.bytes,
        record used { tlb = c.tlb_add_pte used.tlb (page_of virtual_address) p },
      )

  unfoldable pub write_found : ℕ → List ℕ → Slot → Mmu c → Mmu c
  unfolding write_table_fault
  write_found virtual_address buffer p found =
      let there = if (entry_at found.memory p).present then found else write_table_fault p found in
      let used = change_entry p (λ e. record e { accessed = true; dirty = true }) there in
      record used {
        memory = record used.memory {
          bytes =
              copy_in buffer (entry_at used.memory p).base_addr (virtual_address % page_size)
                used.memory.bytes;
        };
        tlb = c.tlb_add_pte used.tlb (page_of virtual_address) p;
      }

  -- `none` stands for a return before the copy.
  unfoldable pub mmu_read_from_virtual_address :
      Mmu c → ℕ → ℕ → ℕ → Outcome (Option (List ℕ) × Mmu c)
  mmu_read_from_virtual_address this virtual_address pid num_bytes = do
    assert (ltb pid c.max_process_id)
    assert (leb (num_bytes + virtual_address % page_size) page_size)
    let here = switch pid this
    allowed ← permitted c (λ seg. seg.read) (here.segmentations pid) virtual_address
    if allowed
        then (do
          (p, found) ← find_entry read_directory_fault virtual_address pid here
          let (buffer, after) = read_found virtual_address num_bytes p found
          ok (some buffer, after))
        else ok (none, mmu_raise_segmentation_fault here)

  unfoldable pub mmu_write_to_virtual_address : Mmu c → ℕ → ℕ → List ℕ → Outcome (Mmu c)
  mmu_write_to_virtual_address this virtual_address pid buffer = do
    assert (ltb pid c.max_process_id)
    assert (leb (length buffer + virtual_address % page_size) page_size)
    let here = switch pid this
    allowed ← permitted c (λ seg. seg.write) (here.segmentations pid) virtual_address
    if allowed
        then (do
          (p, found) ← find_entry write_directory_fault virtual_address pid here
          ok (write_found virtual_address buffer p found))
        else ok (mmu_raise_segmentation_fault here)
