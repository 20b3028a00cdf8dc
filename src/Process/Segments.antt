-- ===== src/Process/Segments.antt =====
-- The segments that `load` of userprog/process.c accepts, and the pages that it makes of them.
use project.Base.{
  ℕ, ◌+◌, ◌-◌, ◌%◌, ◌^◌, ◌<◌, ◌≤◌, ◌≡◌, refl, true, arith, ltb, add32, Bool-cases, inl, inr,
}
use project.Paging.{page_size, phys_base, is_user_vaddr}
use project.Process.{Phdr, round_up, validate_segment, Segment, segment_of}

-- what a segment that is accepted satisfies
pub record Accepted (phdr : Phdr) (file_length : ℕ) : Type 0 where
  pub same_offset : phdr.p_offset % page_size ≡ phdr.p_vaddr % page_size
  pub in_file : phdr.p_offset ≤ file_length
  pub fits : phdr.p_filesz ≤ phdr.p_memsz
  pub nonempty : 0 < phdr.p_memsz
  pub above_null : page_size ≤ phdr.p_vaddr
  pub below_kernel : phdr.p_vaddr + phdr.p_memsz < phys_base

validate_segment-Accepted :
    (phdr : Phdr) (file_length : ℕ)
    → phdr.p_vaddr < 2 ^ 32
    → phdr.p_memsz < 2 ^ 32
    → validate_segment phdr file_length ≡ true
    → Accepted phdr file_length
unfolding validate_segment is_user_vaddr
validate_segment-Accepted phdr file_length v m h = record {
  same_offset = ground (arith, h);
  in_file = ground (arith, h);
  fits = ground (arith, h);
  nonempty = ground (arith, h);
  above_null = ground (arith, h);
  below_kernel = ground (arith, h, v, m);
}

-- The pages of a segment: whole pages that hold all of it, above the first page and below the
-- kernel, of which the bytes to read are those up to the end of what the file holds.
pub record IsCovered (phdr : Phdr) (s : Segment) : Type 0 where
  pub whole : (s.read_bytes + s.zero_bytes) % page_size ≡ 0
  pub aligned : s.mem_page % page_size ≡ 0
  pub file_aligned : s.file_page % page_size ≡ 0
  pub from : (page_size ≤ s.mem_page) × (s.mem_page ≤ phdr.p_vaddr)
  pub upto : phdr.p_vaddr + phdr.p_memsz ≤ s.mem_page + s.read_bytes + s.zero_bytes
  pub below : s.mem_page + s.read_bytes + s.zero_bytes ≤ phys_base
  pub reads : 0 < phdr.p_filesz → s.mem_page + s.read_bytes ≡ phdr.p_vaddr + phdr.p_filesz
  pub zeros : phdr.p_filesz ≡ 0 → s.read_bytes ≡ 0

-- The end of the last page, of which no sum wraps.
round_up-end :
    (phdr : Phdr) (file_length : ℕ)
    → Accepted phdr file_length
    → let offset = phdr.p_vaddr % page_size in
      let end = round_up (add32 offset phdr.p_memsz) page_size in
      (end % page_size ≡ 0)
      × (offset + phdr.p_memsz ≤ end)
      × (phdr.p_vaddr - offset + end ≤ phys_base)
      × (add32 offset phdr.p_filesz ≡ offset + phdr.p_filesz)
round_up-end phdr file_length a = (
  omega arith,
  omega (arith, a.below_kernel),
  omega (arith, a.below_kernel),
  omega (arith, a.below_kernel, a.fits),
)

-- A segment that `validate_segment` accepts becomes whole pages of user memory above the first one:
-- the pages hold all of the segment, end below the kernel, and are read up to what the file holds,
-- so that no size wraps.
pub segment_of-IsCovered :
    (phdr : Phdr) (file_length : ℕ)
    → phdr.p_vaddr < 2 ^ 32
    → phdr.p_memsz < 2 ^ 32
    → validate_segment phdr file_length ≡ true
    → IsCovered phdr (segment_of phdr)
unfolding segment_of
segment_of-IsCovered phdr file_length v m h =
    let a = validate_segment-Accepted phdr file_length v m h in
    let r = round_up-end phdr file_length a in
    elim (Bool-cases (ltb 0 phdr.p_filesz)) [
      | inl n ↦
          rw (n, r.3)
            (record {
              whole = omega (arith, a.fits, a.below_kernel, r.0, r.1, r.2);
              aligned = omega arith;
              file_aligned = omega arith;
              from = (omega (arith, a.above_null), omega arith);
              upto = omega (arith, a.fits, a.below_kernel, r.0, r.1, r.2);
              below = omega (arith, a.fits, a.below_kernel, r.0, r.1, r.2);
              reads = λ _. omega arith;
              zeros = λ e. ground (arith, n, e);
            })
      | inr n ↦ rw n (record {
        whole = omega (arith, r.0);
        aligned = omega arith;
        file_aligned = omega arith;
        from = (omega (arith, a.above_null), omega arith);
        upto = omega (arith, r.1);
        below = omega (arith, r.2);
        reads = λ e. ground (arith, n, e);
        zeros = λ _. refl;
      })
    ]
