-- ===== src/Process/Loading.antt =====
-- `load_segment` of userprog/process.c: the supplemental page table after it.
use project.Base.{
  ℕ, zero, suc, ◌+◌, ◌-◌, ◌*◌, ◌%◌, ◌^◌, ◌<◌, ◌≡◌, ◌≢◌, refl, sym, ap, subst, ◌∙◌, Bool, true,
  false, ◌||◌, arith, ok, ◌==◌, ltb, if◌then◌else◌, add32, sub32, mem, slt, eq→==, ne→==,
}
use project.Paging.{page_size, null, pg_ofs}
use project.Vm.Pages.{Space}
use project.Process.{load_page, load_loop, load_segment}
use project.Filesys.{set_file}
use project.Filesys.File.{file_seek}
use project.Process.Entries.{entry, with_entry, Room, load_page-with_entry, with_entry-Room}

module _ (fresh : ℕ → ℕ) (file : ℕ) (writable : Bool) where
  -- what the loop leaves of `n` pages from `upage`: an entry for each, and all others as they were
  pub record IsLoaded (s s' : Space) (ofs upage read_bytes n : ℕ) : Type 0 where
    pub listed : (k : ℕ) → k < n → mem (fresh (upage + page_size * k)) s'.spt ≡ true
    pub entries :
        (k : ℕ)
        → k < n
        → s'.vm.pages (fresh (upage + page_size * k))
          ≡ entry fresh file writable s
              (ofs + page_size * k)
              (upage + page_size * k)
              (read_bytes - page_size * k)
    pub kept : (p : ℕ) → mem p s.spt ≡ true → mem p s'.spt ≡ true
    pub same :
        (p : ℕ)
        → ((k : ℕ) → k < n → p ≢ fresh (upage + page_size * k))
        → s'.vm.pages p ≡ s.vm.pages p

  entry_args :
      (s : Space) {o o' u u' rd rd' : ℕ}
      → o ≡ o'
      → u ≡ u'
      → rd ≡ rd'
      → entry fresh file writable s o u rd ≡ entry fresh file writable s o' u' rd'
  entry_args s a b c = λ i. entry fresh file writable s (a i) (b i) (c i)

  -- one page before `n` others
  IsLoaded-before :
      (n : ℕ) (s s' : Space) (ofs upage rd hi : ℕ)
      → Room fresh file writable s upage hi
      → ((a b : ℕ) → fresh a ≡ fresh b → a ≡ b)
      → upage < hi
      → IsLoaded
          (with_entry fresh file writable s ofs upage rd)
          s'
          (ofs + page_size)
          (upage + page_size)
          (rd - (if ltb rd page_size then rd else page_size))
          n
      → IsLoaded s s' ofs upage rd (suc n)
  IsLoaded-before n s s' ofs upage rd hi r inj b l =
      let at = λ (k : ℕ).
        let e : upage + page_size + page_size * k ≡ upage + page_size * suc k = omega arith in e in
      let at_ofs = λ (k : ℕ).
        let e : ofs + page_size + page_size * k ≡ ofs + page_size * suc k = omega arith in e in
      let at_rd = λ (k : ℕ).
        let size = if ltb rd page_size then rd else page_size in
        let e : rd - size - page_size * k ≡ rd - page_size * suc k = ground arith in e in
      let here : upage ≡ upage + page_size * 0 = omega arith in
      let first_ofs : ofs ≡ ofs + page_size * 0 = omega arith in
      let first_rd : rd ≡ rd - page_size * 0 = omega arith in
      record {
        listed = λ k.
            elim k as (λ k. k < suc n → mem (fresh (upage + page_size * k)) s'.spt ≡ true) [
              | zero ↦ λ h.
                  subst (λ a. mem (fresh a) s'.spt ≡ true) here
                    (l.kept (fresh upage) (ground arith))
              | suc k ↦ λ h.
                  subst (λ a. mem (fresh a) s'.spt ≡ true) (at k) (l.listed k (omega (arith, h)))
            ];
        entries = λ k.
            elim k
              as (λ k.
                k < suc n
                → s'.vm.pages (fresh (upage + page_size * k))
                  ≡ entry fresh file writable s (ofs + page_size * k) (upage + page_size * k)
                      (rd - page_size * k)) [
                        | zero ↦ λ h.
                            ap (λ a. s'.vm.pages (fresh a)) (sym here)
                            ∙ l.same (fresh upage) (λ j b e. omega (arith, inj upage _ e))
                            ∙ rw (eq→== (fresh upage) (fresh upage) refl)
                                (entry_args s first_ofs here first_rd)
                        | suc k ↦ λ h.
                            ap (λ a. s'.vm.pages (fresh a)) (sym (at k))
                            ∙ l.entries k (omega (arith, h))
                            ∙ entry_args s (at_ofs k) (at k) (at_rd k)
                      ];
        kept = λ p m. l.kept p (ground (arith, m));
        same = λ p o.
            l.same p (λ k h e. o (suc k) (omega (arith, h)) (e ∙ ap fresh (at k)))
            ∙ rw (ne→== p (fresh upage) (λ e. o 0 (omega arith) (e ∙ ap fresh here))) refl;
      }

  load_loop-end :
      (rounds : ℕ) (s : Space) (ofs upage rd zr : ℕ)
      → rd + zr ≡ 0
      → load_loop fresh (suc rounds) s file ofs upage rd zr writable ≡ ok s
  unfolding load_loop
  load_loop-end rounds s ofs upage rd zr e =
      let none_left : (ltb 0 rd || ltb 0 zr) ≡ false = ground (arith, e) in rw none_left refl

  load_loop-round :
      (rounds : ℕ) (s s1 : Space) (ofs upage rd zr : ℕ)
      → 0 < rd + zr
      → load_page fresh s file ofs upage rd writable ≡ ok s1
      → let size = if ltb rd page_size then rd else page_size in
        load_loop fresh (suc rounds) s file ofs upage rd zr writable
        ≡ load_loop fresh rounds s1 file
            (add32 ofs page_size)
            (add32 upage page_size)
            (sub32 rd size)
            (sub32 zr (page_size - size))
            writable
  unfolding load_loop
  load_loop-round rounds s s1 ofs upage rd zr h e =
      let some_left : (ltb 0 rd || ltb 0 zr) ≡ true = ground (arith, h) in rw (some_left, e) refl

  loop_args :
      (rounds : ℕ) (s : Space) {o o' u u' rd rd' zr zr' : ℕ}
      → o ≡ o'
      → u ≡ u'
      → rd ≡ rd'
      → zr ≡ zr'
      → load_loop fresh rounds s file o u rd zr writable
        ≡ load_loop fresh rounds s file o' u' rd' zr' writable
  loop_args rounds s a b c d = λ i. load_loop fresh rounds s file (a i) (b i) (c i) (d i) writable

  load_loop-IsLoaded :
      (n rounds : ℕ) (s : Space) (ofs upage read_bytes zero_bytes : ℕ)
      → Room fresh file writable s upage (upage + page_size * n)
      → ((a b : ℕ) → fresh a ≡ fresh b → a ≡ b)
      → ((a : ℕ) → fresh a ≢ null)
      → read_bytes + zero_bytes ≡ page_size * n
      → ofs + page_size * n < 2 ^ 32
      → upage + page_size * n < 2 ^ 32
      → n < rounds
      → (s' : Space) × (load_loop fresh rounds s file ofs upage read_bytes zero_bytes writable
          ≡ ok s')
        × IsLoaded s s' ofs upage read_bytes n
  unfolding load_loop
  load_loop-IsLoaded n zero s ofs upage rd zr r inj nn total fo fu h = absurd (omega (arith, h))
  load_loop-IsLoaded zero (suc rounds) s ofs upage rd zr r inj nn total fo fu h = (
    s,
    load_loop-end rounds s ofs upage rd zr (omega (arith, total)),
    record {
      listed = λ k b. absurd (omega (arith, b));
      entries = λ k b. absurd (omega (arith, b));
      kept = λ p m. m;
      same = λ p o. refl;
    },
  )
  load_loop-IsLoaded (suc n) (suc rounds) s ofs upage rd zr r inj nn total fo fu h =
      let size = if ltb rd page_size then rd else page_size in
      let s1 = with_entry fresh file writable s ofs upage rd in
      let end : upage + page_size + page_size * n ≡ upage + page_size * suc n = omega arith in
      let room =
        with_entry-Room fresh file writable s ofs upage rd (upage + page_size * suc n) r inj
          (omega arith) in
      let rest =
        load_loop-IsLoaded n rounds s1 (ofs + page_size) (upage + page_size) (rd - size)
          (zr - (page_size - size))
          (subst (Room fresh file writable s1 (upage + page_size)) (sym end) room) inj nn
          (ground (arith, total)) (omega (arith, fo)) (omega (arith, fu)) (omega (arith, h)) in
      (
        rest.0,
        load_loop-round rounds s s1 ofs upage rd zr (omega (arith, total)) (
              load_page-with_entry fresh file writable s ofs upage rd (upage + page_size * suc n) r
                (omega arith) (nn upage))
            ∙ loop_args rounds s1 (omega (arith, fo)) (omega (arith, fu)) (ground (arith, total))
                (ground (arith, total))
            ∙ rest.1,
        IsLoaded-before n s rest.0 ofs upage rd (upage + page_size * suc n) r inj (omega arith)
            rest.2,
      )

  -- the assertions and `file_seek`
  load_segment-start :
      (rounds : ℕ) (s : Space) (ofs upage rd zr : ℕ)
      → (rd + zr) % page_size ≡ 0
      → upage % page_size ≡ 0
      → ofs % page_size ≡ 0
      → ofs < 2 ^ 31
      → rd + zr < 2 ^ 32
      → file ≢ null
      → load_segment fresh rounds s file ofs upage rd zr writable
        ≡ load_loop fresh rounds
            (record s { fs = set_file s.fs file (record (s.fs.files file) { pos = ofs }) })
            file
            ofs
            upage
            rd
            zr
            writable
  unfolding load_segment file_seek pg_ofs
  load_segment-start rounds s ofs upage rd zr t u o small sum n =
      let seek : slt ofs 0 ≡ false = ground (arith, small) in
      let whole : (add32 rd zr % page_size == 0) ≡ true = ground (arith, t, sum) in
      rw
        (whole, eq→== (upage % page_size) 0 u, eq→== (ofs % page_size) 0 o, ne→== file null n, seek)
        refl

  -- `load_segment` of whole pages that no entry of the table has makes an entry for each of them, in
  -- as many rounds as there are pages and one more: the entry of page `k` reads what is left of
  -- `read_bytes` there, at most a page, from the offset of page `k`, and zeroes the rest. It leaves
  -- all other entries as they were.
  pub load_segment-IsLoaded :
      (n rounds : ℕ) (s : Space) (ofs upage read_bytes zero_bytes : ℕ)
      → Room fresh file writable s upage (upage + page_size * n)
      → ((a b : ℕ) → fresh a ≡ fresh b → a ≡ b)
      → ((a : ℕ) → fresh a ≢ null)
      → read_bytes + zero_bytes ≡ page_size * n
      → upage % page_size ≡ 0
      → ofs % page_size ≡ 0
      → ofs + page_size * n < 2 ^ 31
      → upage + page_size * n < 2 ^ 32
      → n < rounds
      → file ≢ null
      → (s' : Space) × (load_segment fresh rounds s file ofs upage read_bytes zero_bytes writable
          ≡ ok s')
        × IsLoaded s s' ofs upage read_bytes n
  load_segment-IsLoaded n rounds s ofs upage rd zr r inj nn total au ao fo fu h nf =
      let s0 = record s { fs = set_file s.fs file (record (s.fs.files file) { pos = ofs }) } in
      let l =
        load_loop-IsLoaded n rounds s0 ofs upage rd zr
          (record { unmapped = r.unmapped; unused = r.unused }) inj nn total (omega (arith, fo)) fu
          h in
      (
        l.0,
        load_segment-start rounds s ofs upage rd zr (omega (arith, total)) au ao (omega (arith, fo))
              (omega (arith, total, fu)) nf
            ∙ l.1,
        record { listed = l.2.listed; entries = l.2.entries; kept = l.2.kept; same = l.2.same },
      )
