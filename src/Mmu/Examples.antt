-- ===== src/Mmu/Examples.antt =====
-- Runs of the memory management one_process with a TLB of a list of pages, and the theorems about it.
use machine_project.Prelude.{
  ℕ, ◌+◌, ◌*◌, ◌^◌, ◌≡◌, ◌⊎◌, refl, ltb, leb, ◌==◌, ◌&&◌, if◌then◌else◌, Bool, true, false, List,
  [], ◌∷◌, Option, none, some, inl, ok, fault, ◌>>=◌, arith,
}
use machine_project.Mmu.{Entry, Slot, Segment, Machine, IsCache, Mmu, mmu_create, permitted}
use machine_project.Mmu.Paging.{
  switch, walk, find_from, read_found, write_found, read_directory_fault, write_directory_fault,
  take_frame, mmu_tlb_miss, mmu_read_from_virtual_address, mmu_write_to_virtual_address,
}
use machine_project.Mmu.Process.{
  mmu_add_process, initial_segments, mmu_remove_process, Release, frame,
}
use machine_project.Mmu.Access.{mmu_read-mmu_write, Answers}
use machine_project.Mmu.Faults.{mmu_read-Counts, mmu_read_faults, Counts}
use machine_project.Mmu.Removal.{In, mmu_remove_process-In}

abbrev find_page : List (ℕ × Slot) → ℕ → Option Slot
find_page [] page = none
find_page ((q, p) ∷ t) page = if q == page then some p else find_page t page

abbrev lies_in : List Segment → ℕ → Option Segment
lies_in [] a = none
lies_in (s ∷ ss) a = if leb s.start a && ltb a s.end then some s else lies_in ss a

abbrev is_some : Option Segment → Bool
is_some none = false
is_some (some _) = true

-- Frames are handed out in order, and the disk is not read.
abbrev machine : Machine
machine = record {
  Tlb = List (ℕ × Slot);
  tlb_create = [];
  tlb_flush = λ _. [];
  tlb_get_pte = find_page;
  tlb_add_pte = λ t page p. (page, p) ∷ t;
  Segments = List Segment;
  no_segments = [];
  set_segment = λ _ s ss. s ∷ ss;
  address_in_segmentations = λ ss a. is_some (lies_in ss a);
  find_segment = lies_in;
  Kernel = ℕ;
  ask_kernel_for_frame = λ _ mem. (4096 * mem.kernel, record mem { kernel = mem.kernel + 1 });
  read_page_from_disk = λ _ mem. mem;
  max_process_id = 4;
}

abbrev absent : Entry
absent = record {
  present = false;
  read_write = false;
  user_supervisor = false;
  accessed = false;
  dirty = false;
  base_addr = 0;
}

abbrev anywhere : Segment
anywhere = record {
  start = 0;
  end = 2 ^ 32;
  read = true;
  write = true;
  exec = false;
  grows_down = false;
}

-- One process, with its directory in frame 9 and a segment of all addresses.
abbrev one_process : Mmu machine
one_process = record {
  curr_pid = 0;
  tlb = [];
  num_tlb_misses = 0;
  num_page_faults = 0;
  num_segmentation_faults = 0;
  segmentations = λ _. some (anywhere ∷ []);
  page_directories = λ _. some 9;
  memory = record { kernel = 10; entries = λ _ _. absent; bytes = λ _ _. 0 };
}

machine-IsCache : IsCache machine
machine-IsCache = record { flushed = λ t page. refl; added = λ t page p. ground arith }

-- The table and the directory entry of 0x5003 in the process 1.
abbrev table_entry : Slot
table_entry = record { table = 10; index = 5 }

abbrev directory_entry : Slot
directory_entry = record { table = 9; index = 0 }

wrote : Mmu machine
wrote =
    write_found 0x5003 (7 ∷ 8 ∷ []) table_entry
      (write_directory_fault directory_entry (mmu_tlb_miss (switch 1 one_process)))

write_runs : mmu_write_to_virtual_address one_process 0x5003 1 (7 ∷ 8 ∷ []) ≡ ok wrote
unfolding mmu_write_to_virtual_address switch permitted walk find_from wrote write_directory_fault
    take_frame mmu_tlb_miss
write_runs = refl

mmu_read-mmu_write_example : Answers wrote 0x5003 1 (7 ∷ 8 ∷ [])
unfolding permitted
mmu_read-mmu_write_example =
    mmu_read-mmu_write machine-IsCache one_process wrote 0x5003 1 (7 ∷ 8 ∷ []) write_runs refl refl

was_read : List ℕ × Mmu machine
was_read =
    read_found 0x5003 2 table_entry
      (read_directory_fault directory_entry (mmu_tlb_miss (switch 1 one_process)))

read_runs : mmu_read_from_virtual_address one_process 0x5003 1 2 ≡ ok (some was_read.0, was_read.1)
unfolding mmu_read_from_virtual_address switch permitted walk find_from was_read
    read_directory_fault take_frame mmu_tlb_miss
read_runs = refl

mmu_read-Counts_example :
    ((some was_read.0 ≡ none)
      × (was_read.1.num_segmentation_faults ≡ 1)
      × (was_read.1.num_tlb_misses ≡ 0)
      × (was_read.1.num_page_faults ≡ 0))
    ⊎ ((buffer : List ℕ) × (some was_read.0 ≡ some buffer) × Counts 1 2 one_process was_read.1)
mmu_read-Counts_example =
    mmu_read-Counts one_process was_read.1 0x5003 1 2 (some was_read.0) read_runs

mmu_read_faults_example : mmu_read_from_virtual_address one_process (2 ^ 31) 1 4 ≡ fault
unfolding permitted switch
mmu_read_faults_example =
    mmu_read_faults one_process (2 ^ 31) 1 4 (omega arith) (omega arith) refl refl (omega arith)

mmu_remove_process-In_example :
    (gone : List Release) × (after : Mmu machine) × (mmu_remove_process one_process 1
      ≡ ok (gone, after))
    × In (frame 9) gone
mmu_remove_process-In_example =
    mmu_remove_process-In one_process 1 9 9 (omega arith) refl (inl refl)

-- The stack of a new process lies where no directory entry is.
stack_faults :
    (mmu_add_process (mmu_create machine one_process.memory) 1 >>= λ m.
    mmu_read_from_virtual_address m 0xC0000000 1 1)
    ≡ fault
unfolding mmu_add_process mmu_create initial_segments mmu_read_from_virtual_address switch permitted
    walk find_from
stack_faults = refl
