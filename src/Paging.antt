-- ===== src/Paging.antt =====
-- threads/vaddr.h and threads/pte.h: virtual addresses, which are 32-bit words, and page table
-- entries.
pub mod Laws
pub mod Pagedir
mod Tests
use project.Base.{ℕ, ◌-◌, ◌*◌, ◌/◌, ◌%◌, Bool, true, false, ltb, leb}

-- `PGSIZE`
abbrev pub page_size : ℕ
page_size = 4096

-- `PHYS_BASE`
abbrev pub phys_base : ℕ
phys_base = 0xc000_0000

-- `NULL`
abbrev pub null : ℕ
null = 0

unfoldable pub pg_ofs : ℕ → ℕ
pg_ofs va = va % page_size

unfoldable pub pg_no : ℕ → ℕ
pg_no va = va / page_size

unfoldable pub pg_round_down : ℕ → ℕ
pg_round_down va = va - va % page_size

unfoldable pub is_user_vaddr : ℕ → Bool
is_user_vaddr vaddr = ltb vaddr phys_base

unfoldable pub is_kernel_vaddr : ℕ → Bool
is_kernel_vaddr vaddr = leb phys_base vaddr

-- bits 12 to 21 of an address
unfoldable pub pt_no : ℕ → ℕ
pt_no va = va / page_size % 1024

-- bits 22 to 31 of an address
unfoldable pub pd_no : ℕ → ℕ
pd_no va = va / (page_size * 1024)

-- A page table entry, by its fields: the page that its address bits give, as a kernel virtual
-- address, and its flags. An entry of 0 is one with `present` false.
pub record Pte : Type 0 where
  pub page : ℕ
  pub present : Bool
  pub writable : Bool
  pub user : Bool
  pub accessed : Bool
  pub dirty : Bool

unfoldable pub pte_create_kernel : ℕ → Bool → Pte
pte_create_kernel page writable = record {
  page = page;
  present = true;
  writable = writable;
  user = false;
  accessed = false;
  dirty = false;
}

unfoldable pub pte_create_user : ℕ → Bool → Pte
pte_create_user page writable = record (pte_create_kernel page writable) { user = true }

-- An entry of zeros, as `palloc_get_page (PAL_ZERO)` leaves it.
abbrev pub empty_pte : Pte
empty_pte = record {
  page = null;
  present = false;
  writable = false;
  user = false;
  accessed = false;
  dirty = false;
}
