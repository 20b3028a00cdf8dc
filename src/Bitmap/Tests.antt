-- ===== src/Bitmap/Tests.antt =====
-- Concrete bitmaps, and the theorems at them.
use project.Base.{ℕ, ◌≡◌, refl, Bool, true, false, [], ◌∷◌, ok, arith}
use project.Bitmap.{
  Bitmap, elem_cnt, elem_idx, bit_mask, holds, test, mark, set_bit, set_loop, set_multiple,
  contains, contains_loop, scan, scan_loop, scan_and_flip, count, count_loop,
}
use project.Bitmap.Bounds.{IsValid}
use project.Bitmap.Group.{
  Filled, set_multiple-Filled, Answer, contains-Answer, number, count-number,
}
use project.Bitmap.Scan.{Taken, scan_and_flip-Taken}

-- 40 bits, of which 0, 1, 2, 4 and 31 are set
abbrev sample : Bitmap
sample = record { bit_cnt = 40; bits = 0x8000_0017 ∷ 0 ∷ [] }

sample-IsValid : IsValid sample
unfolding elem_cnt
sample-IsValid = record { small = omega arith; elements = refl }

-- the first three clear bits in a row are 5, 6 and 7
scan_and_flip-sample :
    scan_and_flip sample 0 3 false ≡ ok (5, record { bit_cnt = 40; bits = 0x8000_00f7 ∷ 0 ∷ [] })
unfolding scan_and_flip scan scan_loop contains contains_loop test holds set_multiple set_loop
    set_bit mark elem_idx bit_mask
scan_and_flip-sample = refl

count-sample : count sample 1 39 true ≡ ok 4
unfolding count count_loop test holds elem_idx bit_mask
count-sample = refl

scan_and_flip-Taken_example :
    (idx : ℕ) × (c : Bitmap) × (scan_and_flip sample 0 3 false ≡ ok (idx, c))
    × Taken sample 0 3 false idx c
scan_and_flip-Taken_example = scan_and_flip-Taken 0 3 false sample-IsValid (omega arith)

set_multiple-Filled_example :
    (c : Bitmap) × (set_multiple sample 30 4 true ≡ ok c) × Filled sample 30 34 true c
set_multiple-Filled_example = set_multiple-Filled 30 4 true sample-IsValid (omega arith)

contains-Answer_example :
    (r : Bool) × (contains sample 5 20 true ≡ ok r) × Answer sample 5 25 true r
contains-Answer_example = contains-Answer 5 20 true sample-IsValid (omega arith)

count-number_example : count sample 1 39 true ≡ ok (number sample 1 39 true)
count-number_example = count-number 1 39 true sample-IsValid (omega arith)
