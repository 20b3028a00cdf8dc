-- ===== src/Vm/Swap.antt =====
-- vm/swap.c: a swap device in slots of eight sectors, a page to a slot.
pub mod Slots
pub mod Transfer
use project.Base.{
  ℕ, zero, suc, ◌+◌, ◌*◌, ◌/◌, ◌%◌, true, false, List, [], ◌++◌, Outcome, ok, ◌>>=◌, ◌>>◌, take,
  drop, add32, word_mod, minus,
}
use project.Bitmap
use project.Bitmap.{Bitmap}
use project.Block
use project.Block.{Block, sector_size}
use project.Paging.{page_size}

-- `swap` and `free_bitmap`
pub record Swap : Type 0 where
  pub device : Block
  pub free_bitmap : Bitmap

-- `storage` is what `bitmap_create` gets from `malloc`; the size in bytes is a 32-bit product.
unfoldable pub init : Block → (storage : List ℕ) → Outcome Swap
init device storage = do
  b ← Bitmap.create (device.size * sector_size % word_mod / page_size) storage
  ok (record { device = device; free_bitmap = b })

-- A full map gives `BITMAP_ERROR`, at which `bitmap_set` panics.
unfoldable pub get_free : Swap → Outcome (ℕ × Swap)
get_free s = do
  i ← Bitmap.scan s.free_bitmap 0 1 false
  b ← Bitmap.set_bit s.free_bitmap i true
  ok (i * 8 % word_mod, record s { free_bitmap = b })

-- `for (i = 0; i < 8; i++)`: the first argument is the rounds left, and the bytes read so far are
-- those of `out`
unfoldable pub read_loop : ℕ → Block → (sector : ℕ) → (out : List ℕ) → Outcome (List ℕ × Block)
read_loop zero d sector out = ok (out, d)
read_loop (suc n) d sector out = do
  (bytes, d') ← Block.read d sector
  read_loop n d' (add32 sector 1) (out ++ bytes)

-- The page read, the `swap_location` that the page has afterwards, and the swap.
unfoldable pub swap_read : Swap → (swap_location : ℕ) → Outcome (List ℕ × ℕ × Swap)
swap_read s swap_location = do
  (bytes, d) ← read_loop 8 s.device swap_location []
  b ← Bitmap.set_bit s.free_bitmap (swap_location / 8) false
  ok (bytes, minus 1, record { device = d; free_bitmap = b })

unfoldable pub write_loop : ℕ → Block → (sector : ℕ) → (buffer : List ℕ) → Outcome Block
write_loop zero d sector buffer = ok d
write_loop (suc n) d sector buffer = do
  d' ← Block.write d sector (take sector_size buffer)
  write_loop n d' (add32 sector 1) (drop sector_size buffer)

-- The `swap_location` that the page gets, and the swap.
unfoldable pub swap_write : Swap → (buffer : List ℕ) → Outcome (ℕ × Swap)
swap_write s buffer = do
  (sector, s') ← get_free s
  d ← write_loop 8 s'.device sector buffer
  ok (sector, record s' { device = d })
