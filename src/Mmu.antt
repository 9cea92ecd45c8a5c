-- ===== src/Mmu.antt =====
-- ideal_indirection/mmu.c: a memory management unit with a two-level page table and a TLB.
-- The TLB, the segments and the kernel are code that is not in the repository: a `Machine` has their
-- operations. Frames are named by their number, an address without its 12 low bits; a frame of page
-- table entries and a frame of bytes are told apart. A pointer to an entry is a `Slot`.
pub mod Paging
pub mod Process
pub mod Access
pub mod Faults
pub mod Removal
mod Examples
use machine_project.Prelude.{
  ℕ, zero, suc, ◌+◌, ◌-◌, ◌*◌, ◌/◌, ◌%◌, ◌^◌, ◌≡◌, ltb, leb, ◌==◌, ◌&&◌, not, if◌then◌else◌, Bool,
  true, false, List, [], ◌∷◌, length, Option, none, some, Outcome, ok, fault, ◌>>=◌, ◌>>◌, assert,
}

pub record Entry : Type 0 where
  pub present : Bool
  pub read_write : Bool
  pub user_supervisor : Bool
  pub accessed : Bool
  pub dirty : Bool
  pub base_addr : ℕ

pub record Slot : Type 0 where
  pub table : ℕ
  pub index : ℕ

pub record Segment : Type 0 where
  pub start : ℕ
  pub end : ℕ
  pub read : Bool
  pub write : Bool
  pub exec : Bool
  pub grows_down : Bool

pub data SegmentName : Type 0 where
  stack mmap heap bss data_segment text testing : SegmentName

-- What all processes see of the memory, with the kernel's own state.
pub record Memory (K : Type 0) : Type 0 where
  pub kernel : K
  pub entries : ℕ → ℕ → Entry
  pub bytes : ℕ → ℕ → ℕ

pub record Machine : Type 1 where
  pub Tlb : Type 0
  pub tlb_create : Tlb
  pub tlb_flush : Tlb → Tlb
  pub tlb_get_pte : Tlb → ℕ → Option Slot
  pub tlb_add_pte : Tlb → ℕ → Slot → Tlb
  pub Segments : Type 0
  pub no_segments : Segments
  pub set_segment : SegmentName → Segment → Segments → Segments
  pub address_in_segmentations : Segments → ℕ → Bool
  pub find_segment : Segments → ℕ → Option Segment
  pub Kernel : Type 0
  pub ask_kernel_for_frame : Option Slot → Memory Kernel → ℕ × Memory Kernel
  pub read_page_from_disk : Slot → Memory Kernel → Memory Kernel
  pub max_process_id : ℕ

-- What the comments of the TLB's header promise.
pub record IsCache (c : Machine) : Type 0 where
  pub flushed : (t : c.Tlb) (page : ℕ) → c.tlb_get_pte (c.tlb_flush t) page ≡ none
  pub added :
      (t : c.Tlb) (page : ℕ) (p : Slot) → c.tlb_get_pte (c.tlb_add_pte t page p) page ≡ some p

pub record Mmu (c : Machine) : Type 0 where
  pub curr_pid : ℕ
  pub tlb : c.Tlb
  pub num_tlb_misses : ℕ
  pub num_page_faults : ℕ
  pub num_segmentation_faults : ℕ
  pub segmentations : ℕ → Option c.Segments
  pub page_directories : ℕ → Option ℕ
  pub memory : Memory c.Kernel

module _ {K : Type 0} where
  abbrev pub entry_at : Memory K → Slot → Entry
  entry_at mem p = mem.entries p.table p.index

  abbrev pub set_entry : Slot → Entry → Memory K → Memory K
  set_entry p e mem = record mem {
    entries = λ t i. if t == p.table && (i == p.index) then e else mem.entries t i;
  }

-- memcpy from and to the frame `f`, from the offset `i` on
unfoldable pub copy_out : ℕ → ℕ → ℕ → (ℕ → ℕ → ℕ) → List ℕ
copy_out zero f i bytes = []
copy_out (suc n) f i bytes = bytes f i ∷ copy_out n f (i + 1) bytes

unfoldable pub copy_in : List ℕ → ℕ → ℕ → (ℕ → ℕ → ℕ) → ℕ → ℕ → ℕ
copy_in [] f i bytes = bytes
copy_in (b ∷ bs) f i bytes =
    copy_in bs f (i + 1) (λ g j. if g == f && (j == i) then b else bytes g j)

-- pde->present = true; pde->read_write = true; pde->user_supervisor = user;
abbrev pub mark : Bool → Entry → Entry
mark user e = record e { present = true; read_write = true; user_supervisor = user }

abbrev pub page_size : ℕ
page_size = 2 ^ 12

abbrev pub num_entries : ℕ
num_entries = 1024

-- virtual_address & 0xFFFFF000
abbrev pub page_of : ℕ → ℕ
page_of virtual_address = virtual_address - virtual_address % page_size

module _ (c : Machine) where
  unfoldable pub mmu_create : (Memory c.Kernel) → Mmu c
  mmu_create mem = record {
    curr_pid = 0;
    tlb = c.tlb_create;
    num_tlb_misses = 0;
    num_page_faults = 0;
    num_segmentation_faults = 0;
    segmentations = λ _. none;
    page_directories = λ _. none;
    memory = mem;
  }

  -- Whether the address lies in a segment that allows the access. The segment is read before the test
  -- whether there is one.
  unfoldable pub permitted : (Segment → Bool) → Option c.Segments → ℕ → Outcome Bool
  permitted allows none virtual_address = fault
  permitted allows (some segments) virtual_address =
      if c.address_in_segmentations segments virtual_address
      then (elim (c.find_segment segments virtual_address) [
        | none ↦ fault
        | some seg ↦ ok (allows seg)
      ])
      else ok false
