-- ===== src/Process.antt =====
-- userprog/process.c: what `load` does with the program headers of an executable. A header's fields
-- and all sizes are 32-bit words.
pub mod Segments
pub mod Entries
pub mod Loading
pub mod Arguments
pub mod Parsing
pub mod Stack
pub mod Calls
pub mod Launch
mod Tests
use project.Base.{
  ℕ, zero, suc, ◌+◌, ◌-◌, ◌*◌, ◌/◌, ◌%◌, Bool, true, false, not, ◌&&◌, ◌||◌, Outcome, ok, panic,
  assert, ◌>>=◌, ◌>>◌, ◌==◌, ltb, leb, if◌then◌else◌, add32, sub32, List,
}
use project.Paging.{page_size, null, pg_ofs, pg_round_down, is_user_vaddr}
use project.Vm.State.{in_filesys}
use project.Filesys.{Fs}
use project.Filesys.File.{file_seek}
use project.Vm.Pages.{Space, page_build, page_add}

-- `struct Elf32_Phdr`
pub record Phdr : Type 0 where
  pub p_type : ℕ
  pub p_offset : ℕ
  pub p_vaddr : ℕ
  pub p_paddr : ℕ
  pub p_filesz : ℕ
  pub p_memsz : ℕ
  pub p_flags : ℕ
  pub p_align : ℕ

-- `file_length` is the length of the file.
unfoldable pub validate_segment : Phdr → (file_length : ℕ) → Bool
unfolding is_user_vaddr
validate_segment phdr file_length =
    (phdr.p_offset % page_size == phdr.p_vaddr % page_size)
    && leb phdr.p_offset file_length
    && leb phdr.p_filesz phdr.p_memsz
    && not (phdr.p_memsz == 0)
    && is_user_vaddr phdr.p_vaddr
    && is_user_vaddr (add32 phdr.p_vaddr phdr.p_memsz)
    && leb phdr.p_vaddr (add32 phdr.p_vaddr phdr.p_memsz)
    && leb page_size phdr.p_vaddr

-- `ROUND_UP` of lib/round.h
abbrev pub round_up : ℕ → ℕ → ℕ
round_up x step = sub32 (add32 x step) 1 / step * step

-- what `load` makes of a segment of type `PT_LOAD`
pub record Segment : Type 0 where
  pub file_page : ℕ
  pub mem_page : ℕ
  pub read_bytes : ℕ
  pub zero_bytes : ℕ
  pub writable : Bool

unfoldable pub segment_of : Phdr → Segment
segment_of phdr =
    let page_offset = phdr.p_vaddr % page_size in
    let read_bytes = add32 page_offset phdr.p_filesz in
    let end = round_up (add32 page_offset phdr.p_memsz) page_size in
    let normal = ltb 0 phdr.p_filesz in
    record {
      file_page = phdr.p_offset - phdr.p_offset % page_size;
      mem_page = phdr.p_vaddr - phdr.p_vaddr % page_size;
      read_bytes = (if normal then read_bytes else 0);
      zero_bytes = (if normal then sub32 end read_bytes else end);
      writable = not (phdr.p_flags / 2 % 2 == 0);
    }

module _ (fresh : ℕ → ℕ) where
  -- One round of the loop of `load_segment`: the page of `upage`, which `malloc` puts at
  -- `fresh upage`.
  unfoldable pub load_page :
      Space → (file ofs upage read_bytes : ℕ) → (writable : Bool) → Outcome Space
  load_page s file ofs upage read_bytes writable =
      let page_read_bytes = if ltb read_bytes page_size then read_bytes else page_size in
      (do
        s' ←
            page_build s (fresh upage) upage file writable page_read_bytes
              (page_size - page_read_bytes) in_filesys ofs s.pagedir
        ok (page_add s' (fresh upage)))

  -- the loop, for at most `rounds` pages
  unfoldable pub load_loop :
      (rounds : ℕ)
      → Space
      → (file ofs upage read_bytes zero_bytes : ℕ) → (writable : Bool) → Outcome Space
  load_loop zero s file ofs upage read_bytes zero_bytes writable = panic
  load_loop (suc rounds) s file ofs upage read_bytes zero_bytes writable =
      let page_read_bytes = if ltb read_bytes page_size then read_bytes else page_size in
      let round = (do
        s' ← load_page s file ofs upage read_bytes writable
        load_loop rounds s' file (add32 ofs page_size) (add32 upage page_size)
            (sub32 read_bytes page_read_bytes) (sub32 zero_bytes (page_size - page_read_bytes))
            writable) in
      if ltb 0 read_bytes || ltb 0 zero_bytes then round else ok s

  unfoldable pub load_segment :
      (rounds : ℕ)
      → Space
      → (file ofs upage read_bytes zero_bytes : ℕ) → (writable : Bool) → Outcome Space
  unfolding pg_ofs
  load_segment rounds s file ofs upage read_bytes zero_bytes writable = do
    assert (add32 read_bytes zero_bytes % page_size == 0)
    assert (pg_ofs upage == 0)
    assert (ofs % page_size == 0)
    fs ← file_seek s.fs file ofs
    load_loop rounds (record s { fs = fs }) file ofs upage read_bytes zero_bytes writable
