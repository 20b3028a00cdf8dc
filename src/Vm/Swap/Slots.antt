-- ===== src/Vm/Swap/Slots.antt =====
-- Which slots of the swap device are taken.
use project.Base.{
  ℕ, ◌+◌, ◌*◌, ◌%◌, ◌<◌, ◌≤◌, ◌≡◌, refl, ◌⊎◌, inl, inr, Bool, true, false, ok, panic, arith,
  word_mod,
}
use project.Bitmap.{Bitmap, holds, scan}
use project.Bitmap.Bounds
use project.Bitmap.Bounds.{SameShape-IsValid}
use project.Bitmap.Bit.{WasSet, set_bit-WasSet, set_bit-panic}
use project.Bitmap.Scan.{Found, scan-Found}
use project.Vm.Swap.{Swap, get_free}

-- The map is valid, and every slot that it has lies on the device.
pub record IsValid (s : Swap) : Type 0 where
  pub bitmap : Bounds.IsValid s.free_bitmap
  pub room : s.free_bitmap.bit_cnt * 8 ≤ s.device.size
  pub word : s.device.size < word_mod
  pub own : s.device.foreign ≡ false

abbrev pub used : Swap → ℕ → Bool
used s i = holds s.free_bitmap i

-- `i` is the lowest free slot.
pub record IsLowest (s : Swap) (i : ℕ) : Type 0 where
  pub inside : i < s.free_bitmap.bit_cnt
  pub free : used s i ≡ false
  pub lowest : (j : ℕ) → j < i → used s j ≡ true

-- A swap that differs at most in whether slot `i` is taken.
pub record Marks (s : Swap) (i : ℕ) (value : Bool) (s' : Swap) : Type 0 where
  pub bitmap : WasSet s.free_bitmap i value s'.free_bitmap
  pub device : s'.device ≡ s.device

-- What a run of one bit is.
run_of_one :
    (b : Bitmap) (i : ℕ) (x : Bool) → holds b i ≡ x → (j : ℕ) → i ≤ j → j < i + 1 → holds b j ≡ x
run_of_one b i x e j p q = let same : i ≡ j = omega arith in rw (← same) e

true_of : (x : Bool) → ¬ (x ≡ false) → x ≡ true
true_of true h = refl
true_of false h = absurd (h refl)

-- With a slot free, `swap_get_free` takes the lowest one and returns its first sector; with none it
-- panics.
pub get_free_lem :
    (s : Swap)
    → IsValid s
    → ((i : ℕ) × (s' : Swap) × (get_free s ≡ ok (i * 8, s')) × IsLowest s i × Marks s i true s')
      ⊎ ((get_free s ≡ panic) × ((j : ℕ) → j < s.free_bitmap.bit_cnt → used s j ≡ true))
unfolding get_free
get_free_lem s v = step (scan-Found 0 1 false v.bitmap (omega arith))
  where
    open s use {free_bitmap}

    step :
        ((i : ℕ) × (scan free_bitmap 0 1 false ≡ ok i) × Found free_bitmap 0 1 false i)
        → ((i : ℕ) × (s' : Swap) × (get_free s ≡ ok (i * 8, s')) × IsLowest s i × Marks s i true s')
          ⊎ ((get_free s ≡ panic) × ((j : ℕ) → j < free_bitmap.bit_cnt → used s j ≡ true))
    step (i, e, inl f) =
        let (b, e', w) = set_bit-WasSet i true v.bitmap (omega (arith, f.inside)) in
        let word : i * 8 % word_mod ≡ i * 8 = omega (arith, f.inside, v.room, v.word) in
        inl (
          i,
          record s { free_bitmap = b },
          rw (e, e', word) refl,
          record {
            inside = omega (arith, f.inside);
            free = f.run i (omega arith) (omega arith);
            lowest = λ j lt.
                true_of _
                  (λ clear. f.first j (omega arith) lt (run_of_one free_bitmap j false clear));
          },
          record { bitmap = w; device = refl },
        )
    step (i, e, inr (bad, full)) = inr (
      rw (e, set_bit-panic free_bitmap i true (rw bad (omega (arith, v.bitmap.small)))) refl,
      λ j lt.
          true_of _
            (λ clear. full j (omega arith) (omega arith) (run_of_one free_bitmap j false clear)),
    )
