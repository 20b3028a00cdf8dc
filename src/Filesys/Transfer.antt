-- ===== src/Filesys/Transfer.antt =====
-- Bytes that go through an open file.
use project.Base.{
  ℕ, ◌+◌, ◌-◌, ◌≤◌, ◌≡◌, ◌≢◌, refl, true, false, List, ok, length, arith, slt, add32, eq→==, ne→==,
  min,
}
use native.Mathlib.Nat.{le_refl}
use project.Paging.{null}
use project.Block.{Block}
use project.Filesys.{Fs, FileState, set_file}
use project.Filesys.Data
use project.Filesys.Data.{Inode}
use project.Filesys.Data.Reading.{IsBacked}
use project.Filesys.Data.Rounds.{write_at-Written, read_at-write_at}
use project.Filesys.File.{file_write, file_read, file_seek}

-- the file system after `n` bytes were read, with another device
abbrev after_file_read : Fs → ℕ → Block → ℕ → Fs
after_file_read fs g d n =
    set_file (record fs { device = d }) g (record (fs.files g) { pos = add32 (fs.files g).pos n })

file_read-read_at :
    (fs : Fs) (g size : ℕ) {bytes : List ℕ} {d : Block}
    → Data.read_at fs.device (fs.inodes (fs.files g).inode) true size (fs.files g).pos
      ≡ ok (bytes, d)
    → file_read fs g size true ≡ ok (bytes, after_file_read fs g d (length bytes))
unfolding file_read
file_read-read_at fs g size h = rw h refl

module _ (fs : Fs) (file : ℕ) (buffer : List ℕ) where
  abbrev f : FileState
  f = fs.files file

  -- the file system with another device, and the file at another position
  abbrev moved : Block → ℕ → Fs
  moved d pos = set_file (record fs { device = d }) file (record f { pos = pos })

  -- Bytes that `file_write` puts inside an open file to which writes are not denied are what
  -- `file_read` gives after a `file_seek` back; none of the three fails.
  pub file_read-file_write :
      IsBacked fs.device (fs.inodes f.inode)
      → (fs.inodes f.inode).deny_write_cnt ≡ 0
      → file ≢ null
      → f.pos + length buffer ≤ (fs.inodes f.inode).disk.length
      → (fs1 : Fs) × (fs2 : Fs) × (fs3 : Fs) × (file_write fs file buffer (length buffer) true
          ≡ ok (length buffer, fs1))
        × (file_seek fs1 file f.pos ≡ ok fs2)
        × (file_read fs2 file (length buffer) true ≡ ok (buffer, fs3))
  unfolding file_write file_seek
  file_read-file_write b allowed some_file fits =
      let x = fs.inodes f.inode in
      let n = length buffer in
      let all_of_it : min n (x.disk.length - f.pos) ≡ n = omega arith in
      let (d', writes, w) =
        write_at-Written fs.device x buffer n f.pos b allowed (omega (arith, b.small))
          (le_refl n) in
      let (r, reads) =
        read_at-write_at fs.device x buffer f.pos b allowed (omega (arith, b.small)) fits writes in
      let no_sign : slt f.pos 0 ≡ false = ground (arith, b.small) in
      let back = set_file (moved d' (add32 f.pos n)) file (record f { pos = f.pos }) in
      (
        moved d' (add32 f.pos n),
        back,
        after_file_read back file (record d' { read_cnt = r }) n,
        rw (writes, all_of_it) refl,
        rw (ne→== file null some_file, no_sign, eq→== file file refl) refl,
        file_read-read_at back file n (rw (eq→== file file refl) reads),
      )
