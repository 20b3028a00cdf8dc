-- ===== src/Filesys/File.antt =====
-- filesys/file.c: open files, which share the inodes of filesys/inode.c.
use project.Base.{
  ℕ, Bool, true, false, not, List, Outcome, ok, assert, ◌>>=◌, ◌>>◌, length, slt, ◌==◌,
  if◌then◌else◌, add32, ◌||◌,
}
use project.Paging.{null}
use project.Filesys.{Fs, set_file, inode_reopen, inode_deny_write, inode_allow_write}
use project.Filesys.Data
use project.Filesys.Data.{Inode, inode_length}
use project.Filesys.Create.{inode_close}

-- `fresh` is what `calloc` returns.
unfoldable pub file_open : Fs → (inode fresh : ℕ) → (room : Bool) → Outcome (ℕ × Fs)
file_open fs inode fresh room =
    let refuse = (do fs' ← inode_close fs inode room; ok (null, fs')) in
    if (inode == null) || (fresh == null)
    then refuse
    else ok (fresh, set_file fs fresh (record { inode = inode; pos = 0; deny_write = false }))

unfoldable pub file_reopen : Fs → (file fresh : ℕ) → (room : Bool) → Outcome (ℕ × Fs)
unfolding file_open
file_reopen fs file fresh room =
    let (inode, fs') = inode_reopen fs (fs.files file).inode in file_open fs' inode fresh room

unfoldable pub file_deny_write : Fs → (file : ℕ) → Outcome Fs
file_deny_write fs file =
    let f = fs.files file in
    (do
      assert (not (file == null))
      if f.deny_write
          then ok fs
          else inode_deny_write (set_file fs file (record f { deny_write = true })) f.inode)

unfoldable pub file_allow_write : Fs → (file : ℕ) → Outcome Fs
file_allow_write fs file =
    let f = fs.files file in
    (do
      assert (not (file == null))
      if f.deny_write
          then inode_allow_write (set_file fs file (record f { deny_write = false })) f.inode
          else ok fs)

unfoldable pub file_close : Fs → (file : ℕ) → (room : Bool) → Outcome Fs
unfolding file_allow_write
file_close fs file room =
    let close = (do fs' ← file_allow_write fs file; inode_close fs' (fs'.files file).inode room) in
    if file == null then ok fs else close

-- The bytes read; their number is the value returned.
unfoldable pub file_read : Fs → (file size : ℕ) → (room : Bool) → Outcome (List ℕ × Fs)
file_read fs file size room = do
  let f = fs.files file
  (bytes, d) ← Data.read_at fs.device (fs.inodes f.inode) room size f.pos
  ok (
    bytes,
    set_file (record fs { device = d }) file (record f { pos = add32 f.pos (length bytes) }),
  )

unfoldable pub file_write :
    Fs → (file : ℕ) → (buffer : List ℕ) → (size : ℕ) → (room : Bool) → Outcome (ℕ × Fs)
file_write fs file buffer size room = do
  let f = fs.files file
  (written, d) ← Data.write_at fs.device (fs.inodes f.inode) room buffer size f.pos
  ok (written, set_file (record fs { device = d }) file (record f { pos = add32 f.pos written }))

unfoldable pub file_read_at : Fs → (file size file_ofs : ℕ) → (room : Bool) → Outcome (List ℕ × Fs)
file_read_at fs file size file_ofs room = do
  (bytes, d) ← Data.read_at fs.device (fs.inodes (fs.files file).inode) room size file_ofs
  ok (bytes, record fs { device = d })

unfoldable pub file_write_at :
    Fs → (file : ℕ) → (buffer : List ℕ) → (size file_ofs : ℕ) → (room : Bool) → Outcome (ℕ × Fs)
file_write_at fs file buffer size file_ofs room = do
  (written, d) ← Data.write_at fs.device (fs.inodes (fs.files file).inode) room buffer size file_ofs
  ok (written, record fs { device = d })

unfoldable pub file_length : Fs → (file : ℕ) → Outcome ℕ
unfolding inode_length
file_length fs file = do
  assert (not (file == null))
  ok (inode_length (fs.inodes (fs.files file).inode))

unfoldable pub file_seek : Fs → (file new_pos : ℕ) → Outcome Fs
file_seek fs file new_pos = do
  assert (not (file == null))
  assert (not (slt new_pos 0))
  ok (set_file fs file (record (fs.files file) { pos = new_pos }))

unfoldable pub file_tell : Fs → (file : ℕ) → Outcome ℕ
file_tell fs file = do assert (not (file == null)); ok (fs.files file).pos
