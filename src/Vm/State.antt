-- ===== src/Vm/State.antt =====
-- The state of the virtual memory system: vm/frames.h, vm/page.h and the globals of vm/frames.c.
use project.Base.{ℕ, Bool, List, get_or}
use project.Paging.{null}
use project.Paging.Pagedir.{Dirs}
use project.Vm.Swap.{Swap}

-- `IN_FRAME`, `IN_SWAP`, `IN_FILESYS`
abbrev pub in_frame : ℕ
in_frame = 1

abbrev pub in_swap : ℕ
in_swap = 2

abbrev pub in_filesys : ℕ
in_filesys = 3

-- `TOTAL_PAGES`
abbrev pub total_pages : ℕ
total_pages = 367

-- The first frame that the clock hand visits.
abbrev pub clock_start : ℕ
clock_start = 25

-- `struct frame_table_elem`
pub record Frame : Type 0 where
  pub kpage : ℕ
  pub upage : ℕ
  pub pagedir : ℕ
  pub page_pointer : ℕ

-- `struct page_t`, less its `hash_element`: a supplemental page table is a map from addresses.
pub record Page : Type 0 where
  pub upage : ℕ
  pub kpage : ℕ
  pub file : ℕ
  pub writable : Bool
  pub page_read_bytes : ℕ
  pub page_zero_bytes : ℕ
  pub location : ℕ
  pub swap_location : ℕ
  pub ofs : ℕ
  pub pagedir : ℕ

-- Page objects and the contents of page frames stand at their addresses.
pub record Vm : Type 0 where
  pub frame_table : List Frame
  pub occupancy : ℕ
  pub clock_pointer : ℕ
  pub dirs : Dirs
  pub pages : ℕ → Page
  pub swap : Swap
  pub memory : ℕ → List ℕ

abbrev pub empty_frame : ℕ → Frame
empty_frame kpage = record { kpage = kpage; upage = null; pagedir = null; page_pointer = null }

-- `frame_table[i]`
abbrev pub frame_at : Vm → ℕ → Frame
frame_at vm i = get_or vm.frame_table i (empty_frame null)
