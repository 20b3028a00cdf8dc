-- ===== src/Filesys/FreeMap.antt =====
-- filesys/free-map.c: the map of free sectors and its file, and `bitmap_write` of lib/kernel/bitmap.c.
use project.Base.{
  ℕ, Bool, false, List, [], ◌∷◌, ◌++◌, Option, none, some, Outcome, ok, assert, ◌>>=◌, ◌>>◌, ◌==◌,
  if◌then◌else◌,
}
use project.Bitmap
use project.Bitmap.{Bitmap, bitmap_error, byte_cnt}
use project.Paging.{null}
use project.Filesys.{Fs, word_bytes}
use project.Filesys.Data
use project.Filesys.Data.{Inode}

-- `FREE_MAP_SECTOR` and `ROOT_DIR_SECTOR`
abbrev pub free_map_sector : ℕ
free_map_sector = 0

abbrev pub root_dir_sector : ℕ
root_dir_sector = 1

-- the elements of a bitmap as the bytes that they take in memory
abbrev pub bitmap_bytes : List ℕ → List ℕ
bitmap_bytes [] = []
bitmap_bytes (w ∷ ws) = word_bytes w ++ bitmap_bytes ws

-- `bitmap_write` to an open file; `room` is whether `malloc` gives a bounce buffer.
unfoldable pub bitmap_write : Fs → Bitmap → (file : ℕ) → (room : Bool) → Outcome (Bool × Fs)
unfolding byte_cnt
bitmap_write fs b file room =
    let size = byte_cnt b.bit_cnt in
    (do
      (written, d) ←
          Data.write_at fs.device (fs.inodes (fs.files file).inode) room (bitmap_bytes b.bits) size
            0
      ok (written == size, record fs { device = d }))

-- `storage` is what `malloc` gives to `bitmap_create`.
unfoldable pub free_map_init : Fs → (storage : List ℕ) → Outcome Fs
free_map_init fs storage = do
  b ← Bitmap.create fs.device.size storage
  ok (record fs { free_map = Bitmap.mark (Bitmap.mark b free_map_sector) root_dir_sector })

-- the map goes to its file, if that is open, and is put back where that fails
unfoldable pub store_map : Fs → (sector cnt : ℕ) → (room : Bool) → Outcome (Option ℕ × Fs)
unfolding bitmap_write
store_map fs sector cnt room =
    let write = (do
      (success, fs') ← bitmap_write fs fs.free_map fs.free_map_file room
      b ← Bitmap.set_multiple fs'.free_map sector cnt false
      ok (if success then (some sector, fs') else (none, record fs' { free_map = b }))) in
    if fs.free_map_file == null then ok (some sector, fs) else write

-- The first sector, where it returns true.
unfoldable pub free_map_allocate : Fs → (cnt : ℕ) → (room : Bool) → Outcome (Option ℕ × Fs)
unfolding store_map
free_map_allocate fs cnt room = do
  (sector, b) ← Bitmap.scan_and_flip fs.free_map 0 cnt false
  let fs' = record fs { free_map = b }
  if sector == bitmap_error then ok (none, fs') else store_map fs' sector cnt room

-- The map's file is open by then.
unfoldable pub free_map_release : Fs → (sector cnt : ℕ) → (room : Bool) → Outcome Fs
unfolding bitmap_write
free_map_release fs sector cnt room = do
  taken ← Bitmap.all_set fs.free_map sector cnt
  assert taken
  b ← Bitmap.set_multiple fs.free_map sector cnt false
  (_, fs') ← bitmap_write (record fs { free_map = b }) b fs.free_map_file room
  ok fs'
