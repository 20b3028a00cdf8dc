-- ===== src/Filesys/Data/Patch.antt =====
-- What one round of `inode_write_at` writes: a sector, with a chunk copied over some of its bytes.
use project.Base.{
  ℕ, zero, suc, ◌+◌, ◌-◌, ◌%◌, ◌^◌, ◌≤◌, ◌<◌, ◌≡◌, refl, ap, sym, ◌∙◌, inl, inr, true, false, ◌||◌,
  List, [], ◌∷◌, ◌++◌, arith, ok, length, get_or, take, drop, ltb, ◌==◌, if◌then◌else◌, Bool-cases,
  lt→ltb, length-append, length-take, length-drop, append-nil, get_or-take, get_or-drop,
  get_or-append_left, get_or-append_right,
}
use project.Block
use project.Block.{Block, sector_size}
use project.Filesys.Data.{is_whole, bounce, write_chunk}
use project.Filesys.Data.Reading.{read-sector, after_read, is_whole-parts}

-- a sector with a chunk copied over its bytes from `ofs` on
abbrev pub patched : (old : List ℕ) → (ofs chunk : ℕ) → (buffer : List ℕ) → List ℕ
patched old ofs chunk buffer = take ofs old ++ (take chunk buffer ++ drop (ofs + chunk) old)

module _ (old : List ℕ) (ofs chunk : ℕ) (buffer : List ℕ) (room : ofs + chunk ≤ length old)
    (given : chunk ≤ length buffer) where
  pub length-patched : length (patched old ofs chunk buffer) ≡ length old
  length-patched = omega (
    arith,
    length-append (take ofs old) (take chunk buffer ++ drop (ofs + chunk) old),
    length-append (take chunk buffer) (drop (ofs + chunk) old),
    length-take ofs old,
    length-take chunk buffer,
    length-drop (ofs + chunk) old,
  )

  front : length (take ofs old) ≡ ofs
  front = omega (arith, length-take ofs old)

  middle : length (take chunk buffer) ≡ chunk
  middle = omega (arith, length-take chunk buffer)

  pub patched-before :
      (j : ℕ) → j < ofs → get_or (patched old ofs chunk buffer) j 0 ≡ get_or old j 0
  patched-before j h =
      get_or-append_left (take ofs old) _ j 0 (omega (arith, front)) ∙ get_or-take ofs old j 0 h

  pub patched-inside :
      (i : ℕ) → i < chunk → get_or (patched old ofs chunk buffer) (ofs + i) 0 ≡ get_or buffer i 0
  patched-inside i h =
      ap (λ k. get_or (patched old ofs chunk buffer) (k + i) 0) (sym front)
      ∙ get_or-append_right (take ofs old) _ i 0
      ∙ get_or-append_left (take chunk buffer) _ i 0 (omega (arith, middle))
      ∙ get_or-take chunk buffer i 0 h

  pub patched-after :
      (i : ℕ)
      → get_or (patched old ofs chunk buffer) (ofs + (chunk + i)) 0 ≡ get_or old (ofs + chunk + i) 0
  patched-after i =
      ap (λ k. get_or (patched old ofs chunk buffer) (k + (chunk + i)) 0) (sym front)
      ∙ get_or-append_right (take ofs old) _ (chunk + i) 0
      ∙ ap (λ k. get_or (take chunk buffer ++ drop (ofs + chunk) old) (k + i) 0) (sym middle)
      ∙ get_or-append_right (take chunk buffer) _ i 0
      ∙ get_or-drop (ofs + chunk) old i 0

-- the device after a write to one sector
abbrev pub put : Block → (read_cnt sector : ℕ) → (bytes : List ℕ) → Block
put d r sector bytes = record d {
  read_cnt = r;
  write_cnt = (d.write_cnt + 1) % 2 ^ 64;
  sectors = λ u. if u == sector then bytes else d.sectors u;
}

write-put :
    (d : Block) (s : ℕ) (bytes : List ℕ)
    → s < d.size
    → d.foreign ≡ false
    → Block.write d s bytes ≡ ok (put d d.read_cnt s bytes)
unfolding Block.write Block.check_sector
write-put d s bytes h own = rw (lt→ltb s d.size h, own) refl

drop_all : (n : ℕ) (xs : List ℕ) → length xs ≤ n → drop n xs ≡ []
drop_all zero [] h = refl
drop_all zero (x ∷ xs) h = absurd (omega arith)
drop_all (suc n) [] h = refl
drop_all (suc n) (x ∷ xs) h = drop_all n xs (omega arith)

patched-whole :
    (old buffer : List ℕ)
    → length old ≡ sector_size
    → take sector_size buffer ≡ patched old 0 sector_size buffer
patched-whole old buffer h = sym (
    ap (λ r. take sector_size buffer ++ r) (drop_all sector_size old (omega (arith, h)))
    ∙ append-nil (take sector_size buffer))

pub write_chunk-put :
    (d : Block) (s offset chunk : ℕ) (buffer : List ℕ)
    → s < d.size
    → d.foreign ≡ false
    → length (d.sectors s) ≡ sector_size
    → offset % sector_size + chunk ≤ sector_size
    → (r : ℕ) × (write_chunk d s offset chunk buffer
        ≡ ok (put d r s (patched (d.sectors s) (offset % sector_size) chunk buffer)))
unfolding write_chunk bounce
write_chunk-put d s offset chunk buffer h own long fits =
    elim (Bool-cases (is_whole offset chunk)) [
      | inl whole ↦
          let (aligned, full) = is_whole-parts offset chunk whole in
          (
            d.read_cnt,
            rw (whole, write-put d s (take sector_size buffer) h own, aligned, full)
                (ap (λ r. ok (put d d.read_cnt s r)) (patched-whole (d.sectors s) buffer long)),
          )
      | inr part ↦
          let reads : (ltb 0 (offset % sector_size)
                || ltb chunk (sector_size - offset % sector_size))
              ≡ true =
            ground arith in
          (
            (d.read_cnt + 1) % 2 ^ 64,
            rw (part, reads, read-sector d s h, write-put (after_read d) s _ h own) refl,
          )
    ]
