-- ===== src/Mmu/Process.antt =====
-- mmu.c: the tables of a process, when it is added and when it is removed.
use machine_project.Prelude.{
  ℕ, zero, suc, ◌+◌, ◌*◌, ◌/◌, ltb, ◌==◌, if◌then◌else◌, Bool, true, false, List, [], ◌∷◌, ◌++◌,
  Option, none, some, Outcome, ok, ◌>>=◌, ◌>>◌, assert,
}
use machine_project.Mmu.{
  Slot, Segment, stack, mmap, heap, bss, data_segment, text, testing, Memory, Machine, Mmu,
  entry_at, mark, page_size, num_entries,
}
use machine_project.Mmu.Paging.{change_entry, take_frame}

abbrev segment : ℕ → ℕ → Bool → Bool → Bool → Segment
segment start end write exec grows_down = record {
  start = start;
  end = end;
  read = true;
  write = write;
  exec = exec;
  grows_down = grows_down;
}

module _ (c : Machine) where
  -- The seven segments of every process.
  unfoldable pub initial_segments : c.Segments
  initial_segments = c.set_segment testing (segment page_size (3 * page_size) true false false) (
      c.set_segment text (segment 0x08048000 0x08052000 false true false) (
        c.set_segment data_segment (segment 0x08052000 0x0805A000 true false false) (
          c.set_segment bss (segment 0x0805A000 0x08072000 true false false) (
            c.set_segment heap (segment 0x08072000 0x08072000 true false false) (
              c.set_segment mmap (segment 0xC07FE000 0xC07FE000 true true true) (
                c.set_segment stack (segment 0xBFFFE000 0xC07FE000 true false true)
                  c.no_segments))))))

module _ {c : Machine} where
  -- The body of the loop over the two pages of the testing segment.
  unfoldable pub add_page : ℕ → ℕ → Mmu c → Mmu c
  unfolding take_frame
  add_page table i this =
      let p : Slot = record { table = table; index = i } in
      change_entry p (mark true) (take_frame p (some p) this)

  unfoldable pub mmu_add_process : Mmu c → ℕ → Outcome (Mmu c)
  unfolding take_frame add_page
  mmu_add_process this pid = do
    assert (ltb pid c.max_process_id)
    let (address, mem) = c.ask_kernel_for_frame none this.memory
    let directory = address / page_size
    let named : Mmu c = record this {
      memory = mem;
      page_directories = λ i. if i == pid then some directory else this.page_directories i;
      segmentations = λ i. if i == pid then some (initial_segments c) else this.segmentations i;
    }
    let p : Slot = record { table = directory; index = 0 }
    let first = change_entry p (mark true) (take_frame p none named)
    let table = (entry_at first.memory p).base_addr
    ok (add_page table 2 (add_page table 1 first))

-- What the removal gives back.
pub data Release : Type 0 where
  frame : ℕ → Release
  swap_file : Slot → Release

module _ {K : Type 0} where
  -- The inner loop, for `n` entries from `i` on.
  unfoldable pub release_pages : ℕ → ℕ → ℕ → Memory K → List Release
  release_pages zero i table mem = []
  release_pages (suc n) i table mem =
      let e = mem.entries table i in
      let swap =
        swap_file (record { table = table; index = i }) ∷ release_pages n (i + 1) table mem in
      if e.present then frame e.base_addr ∷ swap else swap

  unfoldable pub release_tables : ℕ → ℕ → ℕ → Memory K → List Release
  release_tables zero i directory mem = []
  release_tables (suc n) i directory mem =
      let e = mem.entries directory i in
      let rest = release_tables n (i + 1) directory mem in
      if e.present
      then release_pages num_entries 0 e.base_addr mem ++ frame e.base_addr ∷ rest
      else rest

module _ {c : Machine} where
  unfoldable pub released : Option ℕ → Mmu c → List Release
  released none this = []
  released (some directory) this =
      release_tables num_entries 0 directory this.memory ++ frame directory ∷ []

  unfoldable pub forget_process : ℕ → Mmu c → Mmu c
  forget_process pid this =
      let after : Mmu c = record this {
        page_directories = λ i. if i == pid then none else this.page_directories i;
        segmentations = λ i. if i == pid then none else this.segmentations i;
      } in
      if this.curr_pid == pid then record after { tlb = c.tlb_flush this.tlb } else after

  unfoldable pub mmu_remove_process : Mmu c → ℕ → Outcome (List Release × Mmu c)
  mmu_remove_process this pid = do
    assert (ltb pid c.max_process_id)
    ok (released (this.page_directories pid) this, forget_process pid this)

  -- The loop of `mmu_delete`, for `n` processes from `pid` on.
  unfoldable pub delete_from : ℕ → ℕ → Mmu c → Outcome (List Release)
  delete_from zero pid this = ok []
  delete_from (suc n) pid this = do
    (gone, after) ← mmu_remove_process this pid
    rest ← delete_from n (pid + 1) after
    ok (gone ++ rest)

  unfoldable pub mmu_delete : Mmu c → Outcome (List Release)
  mmu_delete this = delete_from c.max_process_id 0 this
