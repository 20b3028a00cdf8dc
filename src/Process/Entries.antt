-- ===== src/Process/Entries.antt =====
-- The entries of the supplemental page table that `load_segment` of userprog/process.c makes.
use project.Base.{
  ℕ, ◌+◌, ◌-◌, ◌<◌, ◌≤◌, ◌≡◌, ◌≢◌, refl, ap, Bool, true, false, arith, ok, ltb, if◌then◌else◌, mem,
  List, [], ◌∷◌, minus, eq→==, ne→==, inl, ◌⊎◌, ℕ_discrete,
}
use project.Paging.{page_size, null}
use project.Vm.State.{Page, in_filesys}
use project.Vm.Pages.{Space, page_build, page_add, find_page, set_page_at}
use project.Process.{load_page}

find_page-null :
    (pages : ℕ → Page) (spt : List ℕ) (upage : ℕ)
    → ((p : ℕ) → mem p spt ≡ true → (pages p).upage ≢ upage)
    → find_page pages spt upage ≡ null
unfolding find_page
find_page-null pages [] upage h = refl
find_page-null pages (p ∷ ps) upage h =
    rw (ne→== (pages p).upage upage (h p (ground arith)))
      (find_page-null pages ps upage (λ q m. h q (ground (arith, m))))

module _ (fresh : ℕ → ℕ) (file : ℕ) (writable : Bool) where
  -- the entry of the page at `upage`
  abbrev pub entry : Space → (ofs upage read_bytes : ℕ) → Page
  entry s ofs upage read_bytes =
      let page_read_bytes = if ltb read_bytes page_size then read_bytes else page_size in
      record {
        upage = upage;
        kpage = null;
        file = file;
        writable = writable;
        page_read_bytes = page_read_bytes;
        page_zero_bytes = page_size - page_read_bytes;
        location = in_filesys;
        swap_location = minus 1;
        ofs = ofs;
        pagedir = s.pagedir;
      }

  -- the state with that entry in the table
  abbrev pub with_entry : Space → (ofs upage read_bytes : ℕ) → Space
  with_entry s ofs upage read_bytes = record s {
    vm = set_page_at s.vm (fresh upage) (entry s ofs upage read_bytes);
    spt = fresh upage ∷ s.spt;
  }

  -- No entry of the table is for an address from `lo` up to `hi`, or stands where one will.
  pub record Room (s : Space) (lo hi : ℕ) : Type 0 where
    pub unmapped :
        (p : ℕ) → mem p s.spt ≡ true → ((s.vm.pages p).upage < lo) ⊎ (hi ≤ (s.vm.pages p).upage)
    pub unused : (a : ℕ) → lo ≤ a → a < hi → mem (fresh a) s.spt ≡ false

  -- an entry that is there already stays what it is
  with_entry-other :
      (s : Space) (ofs upage read_bytes hi p : ℕ)
      → Room s upage hi
      → upage < hi
      → mem p s.spt ≡ true
      → (with_entry s ofs upage read_bytes).vm.pages p ≡ s.vm.pages p
  with_entry-other s ofs upage read_bytes hi p r b m =
      let unused = r.unused upage (omega arith) b in
      rw (ne→== p (fresh upage) (λ e. ground (arith, e, m, unused))) refl

  pub load_page-with_entry :
      (s : Space) (ofs upage read_bytes hi : ℕ)
      → Room s upage hi
      → upage < hi
      → fresh upage ≢ null
      → load_page fresh s file ofs upage read_bytes writable
        ≡ ok (with_entry s ofs upage read_bytes)
  unfolding load_page page_build page_add
  load_page-with_entry s ofs upage read_bytes hi r b n =
      let s' = with_entry s ofs upage read_bytes in
      rw
        (
          ne→== (fresh upage) null n,
          eq→== (fresh upage) (fresh upage) refl,
          find_page-null s'.vm.pages s.spt upage (λ p m e.
              let same =
                ap (λ (x : Page). x.upage) (with_entry-other s ofs upage read_bytes hi p r b m) in
              omega (arith, r.unmapped p m, same, e, b)),
        )
        refl

  pub with_entry-Room :
      (s : Space) (ofs upage read_bytes hi : ℕ)
      → Room s upage hi
      → ((a b : ℕ) → fresh a ≡ fresh b → a ≡ b)
      → upage + page_size ≤ hi
      → Room (with_entry s ofs upage read_bytes) (upage + page_size) hi
  with_entry-Room s ofs upage read_bytes hi r inj b = record {
    unmapped = λ p m. elim (ℕ_discrete p (fresh upage)) [
      | yes e ↦ inl (rw (eq→== p (fresh upage) e) (omega arith))
      | no ne ↦
          let old : mem p s.spt ≡ true = ground (arith, m, ne) in
          let same =
            ap (λ (x : Page). x.upage)
              (with_entry-other s ofs upage read_bytes hi p r (omega (arith, b)) old) in
          omega (arith, r.unmapped p old, same)
    ];
    unused = λ a lo h.
        let old = r.unused a (omega (arith, lo)) h in
        let other = λ (e : fresh a ≡ fresh upage). inj a upage e in ground (arith, old, other, lo);
  }
