-- ===== src/Paging/Laws.antt =====
-- Page directories as maps from virtual pages to entries.
use project.Base.{
  ℕ, ◌+◌, ◌-◌, ◌/◌, ◌<◌, ◌≤◌, ◌≡◌, ◌≢◌, refl, Bool, true, false, ◌&&◌, none, some, ok, ◌==◌,
  if◌then◌else◌, arith, ne→==, lt→ltb, Bool-cases, Option-cases, inl, inr,
}
use project.Paging.{
  null, phys_base, page_size, pg_ofs, pg_no, pd_no, pt_no, is_user_vaddr, Pte, empty_pte,
  pte_create_user, is_kernel_vaddr,
}
use project.Paging.Pagedir.{
  Dirs, PageTable, set_pte, get_page, clear_page, is_accessed, set_accessed, set_page, set_table,
}

-- the entry for an address, which is empty where there is no table
unfoldable pub entry : Dirs → (pd va : ℕ) → Pte
entry ds pd va = elim (ds pd (pd_no va)) [ none ↦ empty_pte | some pt ↦ pt (pt_no va) ]

entry_of_table :
    (ds : Dirs) (pd va : ℕ) {pt : PageTable}
    → ds pd (pd_no va) ≡ some pt
    → entry ds pd va ≡ pt (pt_no va)
unfolding entry
entry_of_table ds pd va has = ground arith

-- one virtual page of one directory
abbrev pub same_page : (pd va p v : ℕ) → Bool
same_page pd va p v = pd == p && pg_no va == pg_no v

pub entry-same_page :
    (ds : Dirs) (pd va p v : ℕ) → same_page pd va p v ≡ true → entry ds pd va ≡ entry ds p v
unfolding entry pg_no pd_no pt_no
entry-same_page ds pd va p v h = ground arith

-- `ds'` has `e` for the page of `va`, and all else as in `ds`
abbrev pub Updates : Dirs → (pd va : ℕ) → Pte → Dirs → Type 0
Updates ds pd va e ds' =
    (p v : ℕ) → entry ds' p v ≡ (if same_page pd va p v then e else entry ds p v)

set_pte-Updates :
    (ds : Dirs) (pd va : ℕ) {pt : PageTable} (e : Pte)
    → ds pd (pd_no va) ≡ some pt
    → Updates ds pd va e (set_pte ds pd va pt e)
unfolding entry set_pte pg_no pd_no pt_no
set_pte-Updates ds pd va e has p v = ground arith

-- to write what is there changes nothing
Updates-refl : (ds : Dirs) (pd va : ℕ) {e : Pte} → e ≡ entry ds pd va → Updates ds pd va e ds
unfolding entry pg_no pd_no pt_no
Updates-refl ds pd va same p v = ground arith

entry_missing : (ds : Dirs) (pd va : ℕ) → ds pd (pd_no va) ≡ none → entry ds pd va ≡ empty_pte
unfolding entry
entry_missing ds pd va missing = ground arith

-- `pagedir_is_accessed` reads the entry's bit.
pub is_accessed-entry :
    (ds : Dirs) (pd va : ℕ) → pd ≢ null → is_accessed ds pd va ≡ ok (entry ds pd va).accessed
unfolding is_accessed entry
is_accessed-entry ds pd va h = ground arith

-- `pagedir_set_accessed (…, 0)` returns, and clears the bit of that page alone.
pub set_accessed-entry :
    (ds : Dirs) (pd va : ℕ)
    → pd ≢ null
    → (ds' : Dirs) × (set_accessed ds pd va false ≡ ok ds')
      × Updates ds pd va (record (entry ds pd va) { accessed = false }) ds'
unfolding set_accessed
set_accessed-entry ds pd va h = elim (Option-cases (ds pd (pd_no va))) [
  | inl missing ↦ (
    ds,
    rw (ne→== pd null h, missing) refl,
    Updates-refl ds pd va (rw (entry_missing ds pd va missing) refl),
  )
  | inr (pt, has) ↦ (
    set_pte ds pd va pt (record (pt (pt_no va)) { accessed = false }),
    rw (ne→== pd null h, has) refl,
    λ p v. let here = entry_of_table ds pd va has in rw here (set_pte-Updates ds pd va _ has p v),
  )
]

-- `pagedir_get_page` of a user address: the mapped page at the same offset, or `NULL`.
pub get_page-entry :
    (ds : Dirs) (pd va : ℕ)
    → pd ≢ null
    → va < phys_base
    → get_page ds pd va
      ≡ ok (if (entry ds pd va).present then (entry ds pd va).page + pg_ofs va else null)
unfolding get_page is_user_vaddr entry
get_page-entry ds pd va h k = ground arith

-- `pagedir_clear_page` returns, and clears the present bit of that page alone.
pub clear_page-entry :
    (ds : Dirs) (pd va : ℕ)
    → pd ≢ null
    → va < phys_base
    → pg_ofs va ≡ 0
    → (ds' : Dirs) × (clear_page ds pd va ≡ ok ds')
      × Updates ds pd va (record (entry ds pd va) { present = false }) ds'
unfolding clear_page is_user_vaddr
clear_page-entry ds pd va h k ofs = elim (Option-cases (ds pd (pd_no va))) [
  | inl missing ↦ (
    ds,
    rw (ofs, lt→ltb va phys_base k, ne→== pd null h, missing) refl,
    Updates-refl ds pd va (rw (entry_missing ds pd va missing) refl),
  )
  | inr (pt, has) ↦
      let here = entry_of_table ds pd va has in
      elim (Bool-cases (pt (pt_no va)).present) [
        | inl there ↦ (
          set_pte ds pd va pt (record (pt (pt_no va)) { present = false }),
          rw (ofs, lt→ltb va phys_base k, ne→== pd null h, has, there) refl,
          λ p v. rw here (set_pte-Updates ds pd va _ has p v),
        )
        | inr absent ↦ (
          ds,
          rw (ofs, lt→ltb va phys_base k, ne→== pd null h, has, absent) refl,
          Updates-refl ds pd va (rw here (ground arith)),
        )
      ]
]

abbrev empty_table : PageTable
empty_table _ = empty_pte

new_table : (ds : Dirs) (pd va : ℕ) → Dirs
new_table ds pd va = set_table ds pd va empty_table

new_table-entry :
    (ds : Dirs) (pd va p v : ℕ)
    → ds pd (pd_no va) ≡ none
    → entry (new_table ds pd va) p v ≡ entry ds p v
unfolding entry new_table set_table
new_table-entry ds pd va p v missing = ground arith

new_table-has : (ds : Dirs) (pd va : ℕ) → new_table ds pd va pd (pd_no va) ≡ some empty_table
unfolding new_table set_table
new_table-has ds pd va = ground arith

module _ (init_ram_pages init_page_dir : ℕ) where
  -- what `pagedir_set_page` asserts of its arguments
  pub record CanMap (pd upage kpage : ℕ) : Type 0 where
    pub directory : pd ≢ null
    pub own : pd ≢ init_page_dir
    pub upage_aligned : pg_ofs upage ≡ 0
    pub kpage_aligned : pg_ofs kpage ≡ 0
    pub user : upage < phys_base
    pub kernel : phys_base ≤ kpage
    pub in_ram : (kpage - phys_base) / page_size < init_ram_pages

  -- Where there is no mapping yet, and memory for a table if one is needed, `pagedir_set_page`
  -- returns true and maps that page alone.
  pub set_page-maps :
      (ds : Dirs) (pd upage kpage : ℕ) (writable : Bool)
      → CanMap pd upage kpage
      → (entry ds pd upage).present ≡ false
      → (ds' : Dirs) × (set_page init_ram_pages init_page_dir ds pd upage kpage writable true
          ≡ ok (true, ds'))
        × Updates ds pd upage (pte_create_user kpage writable) ds'
  unfolding set_page is_user_vaddr is_kernel_vaddr
  set_page-maps ds pd upage kpage writable can absent = elim (Option-cases (ds pd (pd_no upage))) [
    | inl missing ↦ (
      set_pte (new_table ds pd upage) pd upage empty_table (pte_create_user kpage writable),
      unfold new_table in ground arith,
      λ p v.
          rw (← new_table-entry ds pd upage p v missing)
            (set_pte-Updates (new_table ds pd upage) pd upage _ (new_table-has ds pd upage) p v),
    )
    | inr (pt, has) ↦
        let here = entry_of_table ds pd upage has in
        (
          set_pte ds pd upage pt (pte_create_user kpage writable),
          ground arith,
          set_pte-Updates ds pd upage _ has,
        )
  ]
