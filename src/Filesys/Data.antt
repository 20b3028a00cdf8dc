-- ===== src/Filesys/Data.antt =====
-- filesys/inode.c: the data of an inode, in consecutive sectors of the device. An `off_t` that is
-- not negative is its number; a size is the bit pattern of an `off_t`, as it comes from a caller.
pub mod Bytes
pub mod Reading
mod Patch
pub mod Writing
pub mod Rounds
mod Tests
use project.Base.{
  ℕ, zero, suc, ◌+◌, ◌-◌, ◌/◌, ◌%◌, ◌^◌, min, Bool, true, false, not, ◌&&◌, ◌||◌, List, [], ◌∷◌,
  ◌++◌, Outcome, ok, ◌>>=◌, length, take, drop, replicate, ltb, slt, ◌==◌, if◌then◌else◌, add32,
  div_round_up, minus,
}
use project.Block
use project.Block.{Block, sector_size}

-- `struct inode_disk`, less its `unused` words
pub record InodeDisk : Type 0 where
  pub start : ℕ
  pub length : ℕ
  pub magic : ℕ

-- `struct inode`, less its `elem`; `disk` is its `data`
pub record Inode : Type 0 where
  pub sector : ℕ
  pub open_cnt : ℕ
  pub removed : Bool
  pub deny_write_cnt : ℕ
  pub disk : InodeDisk

unfoldable pub bytes_to_sectors : ℕ → ℕ
bytes_to_sectors size = div_round_up size sector_size

unfoldable pub byte_to_sector : Inode → (pos : ℕ) → ℕ
byte_to_sector x pos =
    if ltb pos x.disk.length then add32 x.disk.start (pos / sector_size) else minus 1

unfoldable pub inode_length : Inode → ℕ
inode_length x = x.disk.length

-- `chunk_size`, where the remaining size is positive. What is left of the inode may be negative in
-- the source; it is 0 here, and the loop ends at both.
unfoldable pub chunk_size : Inode → (size offset : ℕ) → ℕ
unfolding inode_length
chunk_size x size offset =
    min size (min (inode_length x - offset) (sector_size - offset % sector_size))

-- whether a round goes without the bounce buffer
abbrev pub is_whole : (offset chunk : ℕ) → Bool
is_whole offset chunk = (offset % sector_size == 0) && (chunk == sector_size)

-- whether the loop has another round; `room` is whether `malloc` gives the bounce buffer
abbrev pub goes_on : (room : Bool) → (size offset chunk : ℕ) → Bool
goes_on room size offset chunk = slt 0 size && ltb 0 chunk && (is_whole offset chunk || room)

-- `while (size > 0)`, with the bytes read so far in `out`. A round reads at least one byte: `size`
-- of them, the first argument, are enough.
unfoldable pub read_loop :
    ℕ
    → Block
    → Inode
    → (room : Bool) → (size offset : ℕ) → (out : List ℕ) → Outcome (List ℕ × Block)
unfolding byte_to_sector chunk_size
read_loop zero d x room size offset out = ok (out, d)
read_loop (suc rounds) d x room size offset out =
    let chunk = chunk_size x size offset in
    let round = (do
      (bytes, d') ← Block.read d (byte_to_sector x offset)
      let piece =
          if is_whole offset chunk then bytes else take chunk (drop (offset % sector_size) bytes)
      read_loop rounds d' x room (size - chunk) (offset + chunk) (out ++ piece)) in
    if goes_on room size offset chunk then round else ok (out, d)

-- The bytes read, whose number is the value returned.
unfoldable pub read_at :
    Block → Inode → (room : Bool) → (size offset : ℕ) → Outcome (List ℕ × Block)
unfolding read_loop
read_at d x room size offset = read_loop size d x room size offset []

-- the bounce buffer before the chunk is copied to it
unfoldable pub bounce : Block → (sector offset chunk : ℕ) → Outcome (List ℕ × Block)
bounce d sector offset chunk =
    let ofs = offset % sector_size in
    if ltb 0 ofs || ltb chunk (sector_size - ofs)
    then Block.read d sector
    else ok (replicate sector_size 0, d)

-- one round's write
unfoldable pub write_chunk : Block → (sector offset chunk : ℕ) → (buffer : List ℕ) → Outcome Block
unfolding bounce
write_chunk d sector offset chunk buffer =
    let ofs = offset % sector_size in
    let patch = (do
      (old, d') ← bounce d sector offset chunk
      Block.write d' sector (take ofs old ++ (take chunk buffer ++ drop (ofs + chunk) old))) in
    if is_whole offset chunk then Block.write d sector (take sector_size buffer) else patch

-- `while (size > 0)`, with the part of the buffer that is not written yet
unfoldable pub write_loop :
    ℕ
    → Block
    → Inode
    → (room : Bool) → (size offset : ℕ) → (buffer : List ℕ) → (bytes_written : ℕ)
    → Outcome (ℕ × Block)
unfolding byte_to_sector chunk_size write_chunk
write_loop zero d x room size offset buffer bytes_written = ok (bytes_written, d)
write_loop (suc rounds) d x room size offset buffer bytes_written =
    let chunk = chunk_size x size offset in
    let round = (do
      d' ← write_chunk d (byte_to_sector x offset) offset chunk buffer
      write_loop rounds d' x room (size - chunk) (offset + chunk) (drop chunk buffer)
          (bytes_written + chunk)) in
    if goes_on room size offset chunk then round else ok (bytes_written, d)

unfoldable pub write_at :
    Block → Inode → (room : Bool) → (buffer : List ℕ) → (size offset : ℕ) → Outcome (ℕ × Block)
unfolding write_loop
write_at d x room buffer size offset =
    if x.deny_write_cnt == 0 then write_loop size d x room size offset buffer 0 else ok (0, d)
