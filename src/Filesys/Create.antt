-- ===== src/Filesys/Create.antt =====
-- filesys/inode.c: `inode_create` and `inode_close`, which allocate and release sectors.
use project.Base.{
  ℕ, zero, suc, Bool, true, false, not, Option, none, some, Outcome, ok, assert, ◌>>=◌, ◌>>◌, ◌==◌,
  if◌then◌else◌, add32, sub32, replicate, slt,
}
use project.Block
use project.Block.{Block, sector_size}
use project.Paging.{null}
use project.Filesys.{Fs, set_inode, disk_bytes, without}
use project.Filesys.Data.{InodeDisk, bytes_to_sectors}
use project.Filesys.FreeMap.{free_map_allocate, free_map_release}

-- `INODE_MAGIC`
abbrev pub inode_magic : ℕ
inode_magic = 0x494e_4f44

-- `for (i = 0; i < sectors; i++)`, with the sectors left to write
unfoldable pub zero_loop : ℕ → Block → (sector : ℕ) → Outcome Block
zero_loop zero d sector = ok d
zero_loop (suc n) d sector = do
  d' ← Block.write d sector (replicate sector_size 0)
  zero_loop n d' (add32 sector 1)

-- what follows a successful allocation
unfoldable pub write_new : Fs → (sector length : ℕ) → (start : Option ℕ) → Outcome (Bool × Fs)
unfolding zero_loop bytes_to_sectors
write_new fs sector length none = ok (false, fs)
write_new fs sector length (some start) = do
  let disk_inode : InodeDisk = record { start = start; length = length; magic = inode_magic }
  d ← Block.write fs.device sector (disk_bytes disk_inode)
  d' ← zero_loop (bytes_to_sectors length) d start
  ok (true, record fs { device = d' })

-- `calloc_ok` is whether `calloc` gives the disk inode, `room` whether `malloc` gives the bounce
-- buffer with which the free map goes to its file.
unfoldable pub inode_create :
    Fs → (sector length : ℕ) → (calloc_ok room : Bool) → Outcome (Bool × Fs)
unfolding write_new bytes_to_sectors
inode_create fs sector length calloc_ok room =
    let make = (do
      (start, fs') ← free_map_allocate fs (bytes_to_sectors length) room
      write_new fs' sector length start) in
    (do assert (not (slt length 0)); if calloc_ok then make else ok (false, fs))

unfoldable pub inode_close : Fs → (inode : ℕ) → (room : Bool) → Outcome Fs
unfolding bytes_to_sectors
inode_close fs inode room =
    let x = fs.inodes inode in
    let cnt = sub32 x.open_cnt 1 in
    let lowered = set_inode fs inode (record x { open_cnt = cnt }) in
    let unlisted = record lowered { open_inodes = without inode fs.open_inodes } in
    let erase = (do
      fs' ← free_map_release unlisted x.sector 1 room
      free_map_release fs' x.disk.start (bytes_to_sectors x.disk.length) room) in
    if inode == null
    then ok fs
    else if not (cnt == 0)
    then ok lowered
    else if x.removed
    then erase
    else ok unlisted
