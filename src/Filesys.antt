-- ===== src/Filesys.antt =====
-- The file system of filesys/, over one block device: its state, and the table of open inodes of
-- filesys/inode.c.
pub mod Data
pub mod FreeMap
pub mod Create
pub mod File
pub mod Sharing
pub mod Denial
pub mod Transfer
mod Tests
use project.Base.{
  ℕ, ◌+◌, ◌*◌, ◌/◌, ◌%◌, ◌^◌, Bool, true, false, not, List, [], ◌∷◌, ◌++◌, Outcome, ok, assert,
  ◌>>=◌, ◌>>◌, get_or, replicate, slt, ◌==◌, if◌then◌else◌, add32, sub32, ltb,
}
use project.Bitmap.{Bitmap}
use project.Block
use project.Block.{Block}
use project.Paging.{null}
use project.Filesys.Data.{Inode, InodeDisk}

-- `struct file`
pub record FileState : Type 0 where
  pub inode : ℕ
  pub pos : ℕ
  pub deny_write : Bool

-- `fs_device`, `open_inodes`, `free_map` and `free_map_file`, with the inodes and files that stand
-- at each address.
pub record Fs : Type 0 where
  pub device : Block
  pub inodes : ℕ → Inode
  pub open_inodes : List ℕ
  pub files : ℕ → FileState
  pub free_map : Bitmap
  pub free_map_file : ℕ

abbrev pub set_inode : Fs → ℕ → Inode → Fs
set_inode fs a x = record fs { inodes = λ b. if b == a then x else fs.inodes b }

abbrev pub set_file : Fs → ℕ → FileState → Fs
set_file fs a f = record fs { files = λ b. if b == a then f else fs.files b }

-- the bytes of a 32-bit word, the lowest first, and the word at a place of a list of bytes
abbrev pub word_bytes : ℕ → List ℕ
word_bytes w = w % 256 ∷ w / 256 % 256 ∷ w / 65536 % 256 ∷ w / 2 ^ 24 % 256 ∷ []

abbrev pub word_at : List ℕ → ℕ → ℕ
word_at bytes i =
    get_or bytes i 0
    + 256 * get_or bytes (i + 1) 0
    + 65536 * get_or bytes (i + 2) 0
    + 2 ^ 24 * get_or bytes (i + 3) 0

-- A `struct inode_disk` as the bytes of a sector, and back.
abbrev pub disk_bytes : InodeDisk → List ℕ
disk_bytes x =
    word_bytes x.start ++ (word_bytes x.length ++ (word_bytes x.magic ++ replicate 500 0))

abbrev pub disk_of : List ℕ → InodeDisk
disk_of bytes = record {
  start = word_at bytes 0;
  length = word_at bytes 4;
  magic = word_at bytes 8;
}

-- the open inode of a sector, or `NULL`
unfoldable pub open_loop : (ℕ → Inode) → List ℕ → (sector : ℕ) → ℕ
open_loop inodes [] sector = null
open_loop inodes (a ∷ others) sector =
    if (inodes a).sector == sector then a else open_loop inodes others sector

unfoldable pub inode_reopen : Fs → (inode : ℕ) → ℕ × Fs
inode_reopen fs inode =
    let x = fs.inodes inode in
    if inode == null
    then (inode, fs)
    else (inode, set_inode fs inode (record x { open_cnt = add32 x.open_cnt 1 }))

-- `fresh` is what `malloc` returns.
unfoldable pub inode_open : Fs → (sector fresh : ℕ) → Outcome (ℕ × Fs)
unfolding inode_reopen open_loop
inode_open fs sector fresh =
    let already = open_loop fs.inodes fs.open_inodes sector in
    let load = (do
      (bytes, d) ← Block.read fs.device sector
      let x : Inode = record {
        sector = sector;
        open_cnt = 1;
        removed = false;
        deny_write_cnt = 0;
        disk = disk_of bytes;
      }
      ok (
        fresh,
        set_inode (record fs { device = d; open_inodes = fresh ∷ fs.open_inodes }) fresh x,
      )) in
    if not (already == null)
    then ok (inode_reopen fs already)
    else if fresh == null
    then ok (null, fs)
    else load

unfoldable pub inode_remove : Fs → (inode : ℕ) → Outcome Fs
inode_remove fs inode = do
  assert (not (inode == null))
  ok (set_inode fs inode (record (fs.inodes inode) { removed = true }))

unfoldable pub inode_deny_write : Fs → (inode : ℕ) → Outcome Fs
inode_deny_write fs inode =
    let x = fs.inodes inode in
    let x' = record x { deny_write_cnt = add32 x.deny_write_cnt 1 } in
    (do assert (not (slt x'.open_cnt x'.deny_write_cnt)); ok (set_inode fs inode x'))

unfoldable pub inode_allow_write : Fs → (inode : ℕ) → Outcome Fs
inode_allow_write fs inode =
    let x = fs.inodes inode in
    (do
      assert (slt 0 x.deny_write_cnt)
      assert (not (slt x.open_cnt x.deny_write_cnt))
      ok (set_inode fs inode (record x { deny_write_cnt = sub32 x.deny_write_cnt 1 })))

-- `list_remove`
abbrev pub without : ℕ → List ℕ → List ℕ
without a [] = []
without a (b ∷ bs) = if b == a then bs else b ∷ without a bs
