-- ===== src/Bitmap/Bounds.antt =====
-- When a bitmap is well formed, and what its operations leave alone.
use project.Base.{ℕ, ◌+◌, ◌<◌, ◌≤◌, ◌≡◌, refl, arith, length, length-set}
use project.Bitmap.{Bitmap, elem_idx, elem_cnt, elem_bits, bitmap_error, put_elem}

-- The elements cover the bits, and the rounding up to whole elements does not wrap.
pub record IsValid (b : Bitmap) : Type 0 where
  pub small : b.bit_cnt + elem_bits ≤ bitmap_error
  pub elements : length b.bits ≡ elem_cnt b.bit_cnt

pub elem_idx-lt : {b : Bitmap} (i : ℕ) → IsValid b → i < b.bit_cnt → elem_idx i < length b.bits
unfolding elem_idx elem_cnt
elem_idx-lt i v h = omega arith

-- the same size and as many elements
pub record SameShape (b c : Bitmap) : Type 0 where
  pub size : c.bit_cnt ≡ b.bit_cnt
  pub elements : length c.bits ≡ length b.bits

pub SameShape-refl : (b : Bitmap) → SameShape b b
SameShape-refl b = record { size = refl; elements = refl }

pub SameShape-trans : {b c d : Bitmap} → SameShape b c → SameShape c d → SameShape b d
SameShape-trans s t = omega arith

pub SameShape-IsValid : {b c : Bitmap} → SameShape b c → IsValid b → IsValid c
unfolding elem_cnt
SameShape-IsValid s v = omega arith

pub SameShape-put_elem : (b : Bitmap) (i e : ℕ) → SameShape b (put_elem b i e)
SameShape-put_elem b i e = record { size = refl; elements = length-set b.bits (elem_idx i) e }
