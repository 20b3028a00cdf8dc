-- ===== src/Bitmap.antt =====
-- lib/kernel/bitmap.c: an array of bits, packed in 32-bit elements.
pub mod Bounds
pub mod Bit
pub mod Group
pub mod Scan
mod Tests
use Prim.Native.Nat.{bit_and, bit_or, bit_xor}
use project.Base.{
  ℕ, zero, suc, ◌+◌, ◌-◌, ◌*◌, ◌/◌, ◌%◌, ◌^◌, Bool, true, false, not, List, Outcome, ok, assert,
  ◌>>=◌, ◌>>◌, ltb, leb, ◌==◌, same, if◌then◌else◌, get_or, set, replicate, word_mod, add32, sub32,
  div_round_up,
}

-- `ELEM_BITS`, for a 32-bit `unsigned long`
abbrev pub elem_bits : ℕ
elem_bits = 32

-- `BITMAP_ERROR`, which is `SIZE_MAX`
abbrev pub bitmap_error : ℕ
bitmap_error = word_mod - 1

pub record Bitmap : Type 0 where
  pub bit_cnt : ℕ
  pub bits : List ℕ

unfoldable pub elem_idx : ℕ → ℕ
elem_idx bit_idx = bit_idx / elem_bits

unfoldable pub bit_mask : ℕ → ℕ
bit_mask bit_idx = 2 ^ (bit_idx % elem_bits)

unfoldable pub elem_cnt : ℕ → ℕ
elem_cnt bit_cnt = div_round_up bit_cnt elem_bits

unfoldable pub byte_cnt : ℕ → ℕ
byte_cnt bit_cnt = 4 * elem_cnt bit_cnt

-- the element that holds a bit
abbrev pub elem_of : Bitmap → ℕ → ℕ
elem_of b bit_idx = get_or b.bits (elem_idx bit_idx) 0

-- A write past the last element is undefined in C; here it changes nothing.
abbrev pub put_elem : Bitmap → ℕ → ℕ → Bitmap
put_elem b bit_idx e = record b { bits = set b.bits (elem_idx bit_idx) e }

unfoldable pub mark : Bitmap → ℕ → Bitmap
mark b bit_idx = put_elem b bit_idx (bit_or (elem_of b bit_idx) (bit_mask bit_idx))

-- `~mask` is `mask` with all 32 bits turned over.
unfoldable pub reset : Bitmap → ℕ → Bitmap
reset b bit_idx =
    put_elem b bit_idx (bit_and (elem_of b bit_idx) (bit_xor (bit_mask bit_idx) (2 ^ 32 - 1)))

unfoldable pub flip : Bitmap → ℕ → Bitmap
flip b bit_idx = put_elem b bit_idx (bit_xor (elem_of b bit_idx) (bit_mask bit_idx))

unfoldable pub set_bit : Bitmap → ℕ → Bool → Outcome Bitmap
set_bit b idx value = do assert (ltb idx b.bit_cnt); ok (if value then mark b idx else reset b idx)

-- `(b->bits[elem_idx (idx)] & bit_mask (idx)) != 0`
unfoldable pub holds : Bitmap → ℕ → Bool
holds b idx = not (bit_and (elem_of b idx) (bit_mask idx) == 0)

unfoldable pub test : Bitmap → ℕ → Outcome Bool
test b idx = do assert (ltb idx b.bit_cnt); ok (holds b idx)

-- The three loops below count `i` up from 0 to `cnt`; their first argument is the rounds left.
unfoldable pub set_loop : ℕ → Bitmap → (start i : ℕ) → Bool → Outcome Bitmap
set_loop zero b start i value = ok b
set_loop (suc n) b start i value = do
  b' ← set_bit b (add32 start i) value
  set_loop n b' start (i + 1) value

unfoldable pub set_multiple : Bitmap → (start cnt : ℕ) → Bool → Outcome Bitmap
set_multiple b start cnt value = do
  assert (leb start b.bit_cnt)
  assert (leb (add32 start cnt) b.bit_cnt)
  set_loop cnt b start 0 value

unfoldable pub set_all : Bitmap → Bool → Outcome Bitmap
set_all b value = set_multiple b 0 b.bit_cnt value

unfoldable pub count_loop : ℕ → Bitmap → (start i value_cnt : ℕ) → Bool → Outcome ℕ
count_loop zero b start i value_cnt value = ok value_cnt
count_loop (suc n) b start i value_cnt value = do
  t ← test b (add32 start i)
  count_loop n b start (i + 1) (if same t value then add32 value_cnt 1 else value_cnt) value

unfoldable pub count : Bitmap → (start cnt : ℕ) → Bool → Outcome ℕ
count b start cnt value = do
  assert (leb start b.bit_cnt)
  assert (leb (add32 start cnt) b.bit_cnt)
  count_loop cnt b start 0 0 value

unfoldable pub contains_loop : ℕ → Bitmap → (start i : ℕ) → Bool → Outcome Bool
contains_loop zero b start i value = ok false
contains_loop (suc n) b start i value = do
  t ← test b (add32 start i)
  let rest = contains_loop n b start (i + 1) value
  if same t value then ok true else rest

unfoldable pub contains : Bitmap → (start cnt : ℕ) → Bool → Outcome Bool
contains b start cnt value = do
  assert (leb start b.bit_cnt)
  assert (leb (add32 start cnt) b.bit_cnt)
  contains_loop cnt b start 0 value

unfoldable pub any : Bitmap → (start cnt : ℕ) → Outcome Bool
any b start cnt = contains b start cnt true

unfoldable pub none_set : Bitmap → (start cnt : ℕ) → Outcome Bool
none_set b start cnt = do c ← contains b start cnt true; ok (not c)

unfoldable pub all_set : Bitmap → (start cnt : ℕ) → Outcome Bool
all_set b start cnt = do c ← contains b start cnt false; ok (not c)

-- `for (i = start; i <= last; i++)`, where the first argument is the rounds left
unfoldable pub scan_loop : ℕ → Bitmap → (i cnt : ℕ) → Bool → Outcome ℕ
scan_loop zero b i cnt value = ok bitmap_error
scan_loop (suc n) b i cnt value = do
  c ← contains b i cnt (not value)
  let rest = scan_loop n b (i + 1) cnt value
  if c then rest else ok i

unfoldable pub scan : Bitmap → (start cnt : ℕ) → Bool → Outcome ℕ
scan b start cnt value = do
  assert (leb start b.bit_cnt)
  let last = b.bit_cnt - cnt
  let found = scan_loop (last + 1 - start) b start cnt value
  if leb cnt b.bit_cnt then found else ok bitmap_error

-- The index found, and the bitmap afterwards.
unfoldable pub scan_and_flip : Bitmap → (start cnt : ℕ) → Bool → Outcome (ℕ × Bitmap)
scan_and_flip b start cnt value = do
  idx ← scan b start cnt value
  b' ← (if idx == bitmap_error then ok b else set_multiple b idx cnt (not value))
  ok (idx, b')

-- `bitmap_create` once both `malloc` calls have succeeded, over elements of any content; `storage`
-- is the array of `elem_cnt (bit_cnt)` elements that the second call returns.
unfoldable pub create : ℕ → (storage : List ℕ) → Outcome Bitmap
create bit_cnt storage = set_all (record { bit_cnt = bit_cnt; bits = storage }) false
