-- ===== src/Bitmap/Bit.antt =====
-- A single bit: what each write does to every bit of the map.
use Prim.Native.Nat.{bit_xor}
use project.Base.{
  ℕ, ◌-◌, ◌%◌, ◌^◌, ◌<◌, ◌≤◌, ◌≡◌, ◌≢◌, sym, Bool, true, false, not, ok, panic, arith, ◌==◌,
  if◌then◌else◌, get_or-set_self, get_or-set_ne, eq→==, ne→==, lt→ltb, ℕ_discrete,
}
use project.Base.Bits.{
  bit, bit-lt, bit-bit_and, bit-bit_or, bit-bit_xor, bit-two_pow_self, bit-two_pow_ne, bit-not,
  differ_one, differ_zero, bit_and-eq-zero, bit_and-ne-zero,
}
use project.Bitmap.{
  Bitmap, elem_idx, elem_bits, bit_mask, elem_of, put_elem, mark, reset, flip, set_bit, holds, test,
}
use project.Bitmap.Bounds.{IsValid, elem_idx-lt, SameShape, SameShape-put_elem}

-- the bit of its element that a bit of the map is
abbrev pub raw : Bitmap → ℕ → ℕ
raw b i = bit (elem_of b i) (i % elem_bits)

pub holds_of_raw : (b : Bitmap) (i : ℕ) → holds b i ≡ (raw b i == 1)
unfolding holds bit_mask
holds_of_raw b i = elim (ℕ_discrete (raw b i) 1) [
  | yes e ↦ rw (ne→== _ 0 (bit_and-ne-zero (elem_of b i) (i % 32) e), eq→== _ 1 e)
  | no ne ↦ rw (
    eq→== _ 0
        (bit_and-eq-zero (elem_of b i) (i % 32) (omega (arith, bit-lt (elem_of b i) (i % 32)))),
    ne→== _ 1 ne,
  )
]

-- An element `e` that differs from bit `i`'s element at most in that bit, written in its place.
module _ {b : Bitmap} (i : ℕ) (v : IsValid b) (h : i < b.bit_cnt) (e x : ℕ) where
  raw-put_elem_ne :
      (j : ℕ)
      → i ≢ j
      → (i % elem_bits ≢ j % elem_bits → bit e (j % elem_bits) ≡ bit (elem_of b i) (j % elem_bits))
      → raw (put_elem b i e) j ≡ raw b j
  unfolding elem_idx
  raw-put_elem_ne j ne keep = elim (ℕ_discrete (elem_idx i) (elem_idx j)) [
    | yes same ↦
        rw (← same, get_or-set_self b.bits (elem_idx i) e 0 (elem_idx-lt i v h))
          (keep (omega arith))
    | no apart ↦ rw (get_or-set_ne b.bits (elem_idx i) (elem_idx j) e 0 apart)
  ]

  raw-put_elem :
      bit e (i % elem_bits) ≡ x
      → ((k : ℕ) → k < elem_bits → k ≢ i % elem_bits → bit e k ≡ bit (elem_of b i) k)
      → (j : ℕ) → raw (put_elem b i e) j ≡ (if i == j then x else raw b j)
  raw-put_elem new old j = elim (ℕ_discrete i j) [
    | yes eq ↦
        rw (eq→== i j eq, ← eq, get_or-set_self b.bits (elem_idx i) e 0 (elem_idx-lt i v h)) new
    | no ne ↦
        rw (ne→== i j ne)
          (raw-put_elem_ne j ne (λ apart. old (j % 32) (omega arith) (λ s. apart (sym s))))
  ]

module _ {b : Bitmap} (i : ℕ) (v : IsValid b) (h : i < b.bit_cnt) where
  raw-mark : (j : ℕ) → raw (mark b i) j ≡ (if i == j then 1 else raw b j)
  unfolding mark bit_mask
  raw-mark =
      let k : ℕ = i % 32 in
      let w = elem_of b i in
      raw-put_elem i v h _ 1 (omega (arith, bit-bit_or w (2 ^ k) k, bit-two_pow_self k, bit-lt w k))
        (λ j _ ne. omega (arith, bit-bit_or w (2 ^ k) j, bit-two_pow_ne k j ne, bit-lt w j))

  raw-reset : (j : ℕ) → raw (reset b i) j ≡ (if i == j then 0 else raw b j)
  unfolding reset bit_mask
  raw-reset =
      let k : ℕ = i % 32 in
      let w = elem_of b i in
      let m : ℕ = bit_xor (2 ^ k) (2 ^ 32 - 1) in
      raw-put_elem i v h _ 0
        (omega (arith, bit-bit_and w m k, bit-not (2 ^ k) k (omega arith), bit-two_pow_self k))
        (λ j lt ne.
          omega (arith, bit-bit_and w m j, bit-not (2 ^ k) j lt, bit-two_pow_ne k j ne, bit-lt w j))

  raw-flip : (j : ℕ) → raw (flip b i) j ≡ (if i == j then 1 - raw b i else raw b j)
  unfolding flip bit_mask
  raw-flip =
      let k : ℕ = i % 32 in
      let w = elem_of b i in
      raw-put_elem i v h _ (1 - raw b i)
        (rw (bit-bit_xor, bit-two_pow_self k) (differ_one (bit w k) (bit-lt w k)))
        (λ j _ ne. rw (bit-bit_xor, bit-two_pow_ne k j ne) (differ_zero (bit w j)))

  -- After `bitmap_mark` the bit is set; all others are as they were.
  pub holds-mark : (j : ℕ) → holds (mark b i) j ≡ (if i == j then true else holds b j)
  holds-mark j = ground (arith, holds_of_raw (mark b i) j, holds_of_raw b j, raw-mark j)

  -- After `bitmap_reset` the bit is clear; all others are as they were.
  pub holds-reset : (j : ℕ) → holds (reset b i) j ≡ (if i == j then false else holds b j)
  holds-reset j = ground (arith, holds_of_raw (reset b i) j, holds_of_raw b j, raw-reset j)

  -- After `bitmap_flip` the bit is the other one; all others are as they were.
  pub holds-flip : (j : ℕ) → holds (flip b i) j ≡ (if i == j then not (holds b i) else holds b j)
  holds-flip j = ground (
    arith,
    holds_of_raw (flip b i) j,
    holds_of_raw b j,
    holds_of_raw b i,
    raw-flip j,
    bit-lt (elem_of b i) (i % 32),
  )

-- what `bitmap_set` leaves behind
pub record WasSet (b : Bitmap) (i : ℕ) (value : Bool) (c : Bitmap) : Type 0 where
  pub shape : SameShape b c
  pub bits : (j : ℕ) → holds c j ≡ (if i == j then value else holds b j)

pub SameShape-mark : (b : Bitmap) (i : ℕ) → SameShape b (mark b i)
unfolding mark
SameShape-mark b i = SameShape-put_elem b i _

pub SameShape-reset : (b : Bitmap) (i : ℕ) → SameShape b (reset b i)
unfolding reset
SameShape-reset b i = SameShape-put_elem b i _

-- Inside a valid map `bitmap_set` returns, with that bit equal to `value` and no other changed.
pub set_bit-WasSet :
    {b : Bitmap} (i : ℕ) (value : Bool)
    → IsValid b
    → i < b.bit_cnt
    → (c : Bitmap) × (set_bit b i value ≡ ok c) × WasSet b i value c
unfolding set_bit
set_bit-WasSet {b} i true v h = (
  mark b i,
  rw (lt→ltb i b.bit_cnt h),
  record { shape = SameShape-mark b i; bits = holds-mark i v h },
)
set_bit-WasSet {b} i false v h = (
  reset b i,
  rw (lt→ltb i b.bit_cnt h),
  record { shape = SameShape-reset b i; bits = holds-reset i v h },
)

-- `bitmap_set` at an index outside the map fails its assertion.
pub set_bit-panic : (b : Bitmap) (i : ℕ) (value : Bool) → b.bit_cnt ≤ i → set_bit b i value ≡ panic
unfolding set_bit
set_bit-panic b i value h = ground arith

pub test-ok : (b : Bitmap) (i : ℕ) → i < b.bit_cnt → test b i ≡ ok (holds b i)
unfolding test
test-ok b i h = rw (lt→ltb i b.bit_cnt h)
