-- ===== src/Bitmap/Group.antt =====
-- Groups of bits: writing, testing and counting the bits from `start` up to `start + cnt`.
use project.Base.{
  ℕ, zero, suc, ◌+◌, ◌<◌, ◌≤◌, ◌≡◌, refl, ◌∙◌, ap, inl, inr, Bool, true, false, not, ◌&&◌, List, ok,
  arith, if◌then◌else◌, ltb, leb, same, add32, Bool-cases, le→leb, ℕ_discrete,
}
use project.Bitmap.{
  Bitmap, bitmap_error, holds, set_loop, set_multiple, set_all, create, contains_loop, contains,
  count_loop, count,
}
use project.Bitmap.Bounds.{IsValid, SameShape, SameShape-refl, SameShape-trans, SameShape-IsValid}
use project.Bitmap.Bit.{set_bit-WasSet, test-ok}

-- `lo ≤ j` and `j < hi`
abbrev pub within : ℕ → ℕ → ℕ → Bool
within lo hi j = leb lo j && ltb j hi

-- the bits from `lo` up to `hi` have become `value`, and no other has changed
pub record Filled (b : Bitmap) (lo hi : ℕ) (value : Bool) (c : Bitmap) : Type 0 where
  pub shape : SameShape b c
  pub bits : (j : ℕ) → holds c j ≡ (if within lo hi j then value else holds b j)

-- no sum of the loops wraps
in_word : (b : Bitmap) (s i : ℕ) → IsValid b → s + i ≤ b.bit_cnt → add32 s i ≡ s + i
in_word b s i v h = omega arith

set_loop-Filled :
    (n : ℕ) (b : Bitmap) (s i : ℕ) (value : Bool)
    → IsValid b
    → s + i + n ≤ b.bit_cnt
    → (c : Bitmap) × (set_loop n b s i value ≡ ok c) × Filled b (s + i) (s + i + n) value c
unfolding set_loop
set_loop-Filled zero b s i value v h =
    (b, refl, record { shape = SameShape-refl b; bits = λ j. ground arith })
set_loop-Filled (suc n) b s i value v h =
    let (c, e, w) = set_bit-WasSet (s + i) value v (omega arith) in
    let (d, e', f) =
      set_loop-Filled n c s (i + 1) value (SameShape-IsValid w.shape v)
        (omega (arith, w.shape.size)) in
    (
      d,
      rw (in_word b s i v (omega arith), e) e',
      record {
        shape = SameShape-trans w.shape f.shape;
        bits = λ j. ground (arith, f.bits j, w.bits j);
      },
    )

-- `bitmap_set_multiple` inside a valid map returns, with exactly the group changed.
pub set_multiple-Filled :
    {b : Bitmap} (start cnt : ℕ) (value : Bool)
    → IsValid b
    → start + cnt ≤ b.bit_cnt
    → (c : Bitmap) × (set_multiple b start cnt value ≡ ok c) × Filled b start (start + cnt) value c
unfolding set_multiple
set_multiple-Filled {b} start cnt value v h =
    let (c, e, f) = set_loop-Filled cnt b start 0 value v (omega arith) in
    (
      c,
      rw
          (
            le→leb start b.bit_cnt (omega arith),
            in_word b start cnt v h,
            le→leb (start + cnt) b.bit_cnt h,
          )
          e,
      record { shape = f.shape; bits = λ j. ground (arith, f.bits j) },
    )

-- `bitmap_create` over any storage of the right length gives a valid map with every bit clear.
pub create-clear :
    (n : ℕ) (storage : List ℕ)
    → n + 32 ≤ bitmap_error
    → IsValid (record { bit_cnt = n; bits = storage })
    → (c : Bitmap) × (create n storage ≡ ok c)
      × IsValid c
      × (c.bit_cnt ≡ n)
      × ((j : ℕ) → j < n → holds c j ≡ false)
unfolding create set_all
create-clear n storage small v =
    let (c, e, f) = set_multiple-Filled 0 n false v (omega arith) in
    (c, e, SameShape-IsValid f.shape v, f.shape.size, λ j h. ground (arith, f.bits j))

-- What `bitmap_contains` answers: a bit of the range has the value, or none has.
abbrev pub Answer : Bitmap → (lo hi : ℕ) → Bool → Bool → Type 0
Answer b lo hi value true = (j : ℕ) × (lo ≤ j) × (j < hi) × (holds b j ≡ value)
Answer b lo hi value false = (j : ℕ) → lo ≤ j → j < hi → holds b j ≡ not value

Answer-cons :
    (b : Bitmap) (lo hi : ℕ) (value r : Bool)
    → holds b lo ≡ not value
    → Answer b (lo + 1) hi value r
    → Answer b lo hi value r
Answer-cons b lo hi value true e (j, p, q, f) = (j, omega arith, q, f)
Answer-cons b lo hi value false e a =
    λ j p q. elim (ℕ_discrete lo j) [ yes eq ↦ rw (← eq) e | no ne ↦ a j (omega arith) q ]

contains_loop-Answer :
    (n : ℕ) (b : Bitmap) (s i : ℕ) (value : Bool)
    → IsValid b
    → s + i + n ≤ b.bit_cnt
    → (r : Bool) × (contains_loop n b s i value ≡ ok r) × Answer b (s + i) (s + i + n) value r
unfolding contains_loop
contains_loop-Answer zero b s i value v h = (false, refl, λ j p q. absurd (omega arith))
contains_loop-Answer (suc n) b s i value v h =
    rw (in_word b s i v (omega arith), test-ok b (s + i) (omega arith))
      (elim (Bool-cases (same (holds b (s + i)) value)) [
        | inl hit ↦ (true, rw hit, (s + i, omega arith, omega arith, ground arith))
        | inr miss ↦ rw miss (
            let (r, e, a) = contains_loop-Answer n b s (i + 1) value v (omega arith) in
            let lo : s + (i + 1) ≡ s + i + 1 = omega arith in
            let hi : s + (i + 1) + n ≡ s + i + suc n = omega arith in
            (
              r,
              e,
              Answer-cons b (s + i) (s + i + suc n) value r (ground arith) (rw lo at (rw hi at a)),
            ))
      ])

-- `bitmap_contains` inside a valid map returns, and says whether a bit of the group has the value.
pub contains-Answer :
    {b : Bitmap} (start cnt : ℕ) (value : Bool)
    → IsValid b
    → start + cnt ≤ b.bit_cnt
    → (r : Bool) × (contains b start cnt value ≡ ok r) × Answer b start (start + cnt) value r
unfolding contains
contains-Answer {b} start cnt value v h =
    let (r, e, a) = contains_loop-Answer cnt b start 0 value v (omega arith) in
    let lo : start + 0 ≡ start = omega arith in
    (
      r,
      rw
          (
            le→leb start b.bit_cnt (omega arith),
            in_word b start cnt v h,
            le→leb (start + cnt) b.bit_cnt h,
          )
          e,
      rw lo at a,
    )

-- the number of bits in a range that have the value
pub number : Bitmap → ℕ → ℕ → Bool → ℕ
number b lo zero value = 0
number b lo (suc n) value = (if same (holds b lo) value then 1 else 0) + number b (lo + 1) n value

count_loop-number :
    (n : ℕ) (b : Bitmap) (s i acc : ℕ) (value : Bool)
    → IsValid b
    → s + i + n ≤ b.bit_cnt
    → acc + n ≤ b.bit_cnt
    → count_loop n b s i acc value ≡ ok (acc + number b (s + i) n value)
unfolding count_loop number
count_loop-number zero b s i acc value v h k = ap ok (omega arith)
count_loop-number (suc n) b s i acc value v h k =
    let next : s + (i + 1) ≡ s + i + 1 = omega arith in
    rw (in_word b s i v (omega arith), test-ok b (s + i) (omega arith))
      (elim (Bool-cases (same (holds b (s + i)) value)) [
        | inl hit ↦
            rw (hit, in_word b acc 1 v (omega arith))
              (count_loop-number n b s (i + 1) (acc + 1) value v (omega arith) (omega arith)
                ∙ rw next (ap ok (omega arith)))
        | inr miss ↦ rw miss (
            count_loop-number n b s (i + 1) acc value v (omega arith) (omega arith)
            ∙ rw next (ap ok (omega arith)))
      ])

-- `bitmap_count` inside a valid map returns the number of bits of the group with the value.
pub count-number :
    {b : Bitmap} (start cnt : ℕ) (value : Bool)
    → IsValid b
    → start + cnt ≤ b.bit_cnt
    → count b start cnt value ≡ ok (number b start cnt value)
unfolding count
count-number {b} start cnt value v h =
    let lo : start + 0 ≡ start = omega arith in
    rw
      (
        le→leb start b.bit_cnt (omega arith),
        in_word b start cnt v h,
        le→leb (start + cnt) b.bit_cnt h,
      )
      (count_loop-number cnt b start 0 0 value v (omega arith) (omega arith)
        ∙ rw lo (ap ok (omega arith)))
