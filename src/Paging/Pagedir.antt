-- ===== src/Paging/Pagedir.antt =====
-- userprog/pagedir.c: page directories. A directory has, for each of its 1024 entries, a page table
-- or none; all directories stand in one store, by their addresses. What the CPU keeps of them
-- (`cr3` and the TLB) is not modelled: `invalidate_pagedir` makes the CPU read the store again.
use project.Base.{
  ℕ, ◌+◌, ◌-◌, ◌/◌, Bool, true, false, not, ◌&&◌, Option, none, some, Outcome, ok, ◌>>=◌, ◌>>◌,
  assert, ltb, ◌==◌, if◌then◌else◌,
}
use project.Paging.{
  null, phys_base, page_size, pg_ofs, pd_no, pt_no, is_user_vaddr, is_kernel_vaddr, Pte, empty_pte,
  pte_create_user,
}

abbrev pub PageTable : Type 0
PageTable = ℕ → Pte

abbrev pub Directory : Type 0
Directory = ℕ → Option PageTable

abbrev pub Dirs : Type 0
Dirs = ℕ → Directory

-- the table that covers an address in a directory, replaced
unfoldable pub set_table : Dirs → (pd va : ℕ) → PageTable → Dirs
set_table ds pd va pt p i = if p == pd && i == pd_no va then some pt else ds p i

-- a write through the pointer that `lookup_page` returns, into the table `pt`
unfoldable pub set_pte : Dirs → (pd va : ℕ) → PageTable → Pte → Dirs
unfolding set_table
set_pte ds pd va pt e = set_table ds pd va (λ j. if j == pt_no va then e else pt j)

-- `lookup_page (pd, vaddr, false)`: the table that holds the entry, or a null pointer
unfoldable pub lookup_page : Dirs → (pd va : ℕ) → Outcome (Option PageTable)
lookup_page ds pd va = do assert (not (pd == null)); ok (ds pd (pd_no va))

-- `lookup_page (pd, vaddr, true)`: `room` says whether `palloc_get_page` has a page for a new table.
unfoldable pub lookup_page_create :
    Dirs → (pd va : ℕ) → (room : Bool) → Outcome (Option (PageTable × Dirs))
unfolding set_table
lookup_page_create ds pd va room = do
  assert (not (pd == null))
  assert (is_user_vaddr va)
  ok (elim (ds pd (pd_no va)) [
    | some pt ↦ some (pt, ds)
    | none ↦
        let pt : PageTable = λ _. empty_pte in
        if room then some (pt, set_table ds pd va pt) else none
  ])

unfoldable pub get_page : Dirs → (pd uaddr : ℕ) → Outcome ℕ
unfolding lookup_page
get_page ds pd uaddr = do
  assert (is_user_vaddr uaddr)
  found ← lookup_page ds pd uaddr
  ok (elim found [
    | none ↦ null
    | some pt ↦ if (pt (pt_no uaddr)).present then (pt (pt_no uaddr)).page + pg_ofs uaddr else null
  ])

unfoldable pub clear_page : Dirs → (pd upage : ℕ) → Outcome Dirs
unfolding lookup_page set_pte
clear_page ds pd upage = do
  assert (pg_ofs upage == 0)
  assert (is_user_vaddr upage)
  found ← lookup_page ds pd upage
  ok (elim found [
    | none ↦ ds
    | some pt ↦
        if (pt (pt_no upage)).present
        then set_pte ds pd upage pt (record (pt (pt_no upage)) { present = false })
        else ds
  ])

unfoldable pub is_dirty : Dirs → (pd vpage : ℕ) → Outcome Bool
unfolding lookup_page
is_dirty ds pd vpage = do
  found ← lookup_page ds pd vpage
  ok (elim found [ none ↦ false | some pt ↦ (pt (pt_no vpage)).dirty ])

unfoldable pub set_dirty : Dirs → (pd vpage : ℕ) → Bool → Outcome Dirs
unfolding lookup_page set_pte
set_dirty ds pd vpage dirty = do
  found ← lookup_page ds pd vpage
  ok (elim found [
    | none ↦ ds
    | some pt ↦ set_pte ds pd vpage pt (record (pt (pt_no vpage)) { dirty = dirty })
  ])

unfoldable pub is_accessed : Dirs → (pd vpage : ℕ) → Outcome Bool
unfolding lookup_page
is_accessed ds pd vpage = do
  found ← lookup_page ds pd vpage
  ok (elim found [ none ↦ false | some pt ↦ (pt (pt_no vpage)).accessed ])

unfoldable pub set_accessed : Dirs → (pd vpage : ℕ) → Bool → Outcome Dirs
unfolding lookup_page set_pte
set_accessed ds pd vpage accessed = do
  found ← lookup_page ds pd vpage
  ok (elim found [
    | none ↦ ds
    | some pt ↦ set_pte ds pd vpage pt (record (pt (pt_no vpage)) { accessed = accessed })
  ])

-- The machine has `init_ram_pages` pages of memory, and `init_page_dir` is the kernel's directory.
module _ (init_ram_pages init_page_dir : ℕ) where
  unfoldable pub set_page :
      Dirs → (pd upage kpage : ℕ) → (writable room : Bool) → Outcome (Bool × Dirs)
  unfolding lookup_page_create set_pte
  set_page ds pd upage kpage writable room = do
    assert (pg_ofs upage == 0)
    assert (pg_ofs kpage == 0)
    assert (is_user_vaddr upage)
    assert (is_kernel_vaddr kpage)
    assert (ltb ((kpage - phys_base) / page_size) init_ram_pages)
    assert (not (pd == init_page_dir))
    found ← lookup_page_create ds pd upage room
    elim found [
      | none ↦ ok (false, ds)
      | some (pt, ds') ↦ do
        assert (not (pt (pt_no upage)).present)
        ok (true, set_pte ds' pd upage pt (pte_create_user kpage writable))
    ]
