-- ===== src/Bitmap/Scan.antt =====
-- Searching for a group: `bitmap_scan` finds the first one, and `bitmap_scan_and_flip` takes it.
use project.Base.{
  ℕ, zero, suc, ◌+◌, ◌-◌, ◌<◌, ◌≤◌, ◌≡◌, ◌≢◌, refl, ◌⊎◌, inl, inr, Bool, true, false, not, ok,
  arith, le→leb, ℕ_discrete, ne→==, eq→==, dec_lt,
}
use project.Bitmap.{Bitmap, bitmap_error, holds, scan_loop, scan, scan_and_flip, contains}
use project.Bitmap.Bounds.{IsValid, SameShape-IsValid}
use project.Bitmap.Group.{Answer, contains-Answer, Filled, set_multiple-Filled}

-- The `cnt` bits from `i` on all have the value.
abbrev pub Run : Bitmap → (i cnt : ℕ) → Bool → Type 0
Run b i cnt value = (j : ℕ) → i ≤ j → j < i + cnt → holds b j ≡ value

-- `idx` is the first place at or after `start` with a run of `cnt` bits.
pub record IsFirst (b : Bitmap) (start cnt : ℕ) (value : Bool) (idx : ℕ) : Type 0 where
  pub after : start ≤ idx
  pub inside : idx + cnt ≤ b.bit_cnt
  pub run : Run b idx cnt value
  pub first : (i : ℕ) → start ≤ i → i < idx → ¬ Run b i cnt value

abbrev pub NoRun : Bitmap → (start cnt : ℕ) → Bool → Type 0
NoRun b start cnt value = (i : ℕ) → start ≤ i → i + cnt ≤ b.bit_cnt → ¬ Run b i cnt value

-- what a search from `start` may answer
abbrev pub Found : Bitmap → (start cnt : ℕ) → Bool → ℕ → Type 0
Found b start cnt value idx =
    IsFirst b start cnt value idx ⊎ ((idx ≡ bitmap_error) × NoRun b start cnt value)

not-ne : (x : Bool) → x ≢ not x
not-ne true e = cc
not-ne false e = cc

not-not : (x : Bool) → not (not x) ≡ x
not-not true = refl
not-not false = refl

-- A bit with the other value breaks the run, and no such bit makes it.
Run-of_Answer :
    (b : Bitmap) (i cnt : ℕ) (value : Bool)
    → Answer b i (i + cnt) (not value) false
    → Run b i cnt value
Run-of_Answer b i cnt value a j p q = rw (a j p q) (not-not value)

no-Run-of_Answer :
    (b : Bitmap) (i cnt : ℕ) (value : Bool)
    → Answer b i (i + cnt) (not value) true
    → ¬ Run b i cnt value
no-Run-of_Answer b i cnt value (j, p, q, e) run = not-ne value (cc (run j p q))

-- A search that starts one later, where there is no run here.
Found-later :
    (b : Bitmap) (i cnt : ℕ) (value : Bool) {idx : ℕ}
    → ¬ Run b i cnt value
    → Found b (i + 1) cnt value idx
    → Found b i cnt value idx
Found-later b i cnt value {idx} none_here (inl f) =
    inl (record { after = omega (arith, f.after); inside = f.inside; run = f.run; first = earlier })
  where
    earlier : (k : ℕ) → i ≤ k → k < idx → ¬ Run b k cnt value
    earlier k p q = elim (ℕ_discrete i k) [
      | yes e ↦ rw (← e) none_here
      | no ne ↦ f.first k (omega arith) q
    ]
Found-later b i cnt value none_here (inr (e, none_later)) = inr (
  e,
  λ k p q. elim (ℕ_discrete i k) [
    | yes e ↦ rw (← e) none_here
    | no ne ↦ none_later k (omega arith) q
  ],
)

scan_loop-Found :
    (n : ℕ) (b : Bitmap) (i cnt : ℕ) (value : Bool)
    → IsValid b
    → cnt ≤ b.bit_cnt
    → i + n ≡ b.bit_cnt - cnt + 1
    → (idx : ℕ) × (scan_loop n b i cnt value ≡ ok idx) × Found b i cnt value idx
unfolding scan_loop
scan_loop-Found zero b i cnt value v h e =
    (bitmap_error, refl, inr (refl, λ k p q. absurd (omega arith)))
scan_loop-Found (suc n) b i cnt value v h e =
    step (contains-Answer i cnt (not value) v (omega arith))
      (scan_loop-Found n b (i + 1) cnt value v h (omega arith))
  where
    step :
        ((r : Bool) × (contains b i cnt (not value) ≡ ok r) × Answer b i (i + cnt) (not value) r)
        → ((idx : ℕ) × (scan_loop n b (i + 1) cnt value ≡ ok idx) × Found b (i + 1) cnt value idx)
        → (idx : ℕ) × (scan_loop (suc n) b i cnt value ≡ ok idx) × Found b i cnt value idx
    step (true, c, a) (idx, e', f) =
        (idx, rw (c, e') refl, Found-later b i cnt value (no-Run-of_Answer b i cnt value a) f)
    step (false, c, a) rest = (
      i,
      rw c refl,
      inl (record {
        after = omega arith;
        inside = omega arith;
        run = Run-of_Answer b i cnt value a;
        first = λ k p q. absurd (omega arith);
      }),
    )

-- `bitmap_scan` returns the first group of `cnt` bits with the value at or after `start`, and
-- `BITMAP_ERROR` only where there is none.
pub scan-Found :
    {b : Bitmap} (start cnt : ℕ) (value : Bool)
    → IsValid b
    → start ≤ b.bit_cnt
    → (idx : ℕ) × (scan b start cnt value ≡ ok idx) × Found b start cnt value idx
unfolding scan
scan-Found {b} start cnt value v h = rw (le→leb start b.bit_cnt h) (elim (dec_lt b.bit_cnt cnt) [
  | yes big ↦ (bitmap_error, ground arith, inr (refl, λ k p q. absurd (omega arith)))
  | no fits ↦ rw (le→leb cnt b.bit_cnt (omega arith)) (elim (dec_lt (b.bit_cnt - cnt + 1) start) [
    | yes past ↦
        let rounds : b.bit_cnt - cnt + 1 - start ≡ 0 = omega arith in
        rw rounds
          (unfold scan_loop in (bitmap_error, refl, inr (refl, λ k p q. absurd (omega arith))))
    | no near ↦
        scan_loop-Found (b.bit_cnt - cnt + 1 - start) b start cnt value v (omega arith)
          (omega arith)
  ])
])

-- what a search that takes the group leaves behind
abbrev pub Taken : Bitmap → (start cnt : ℕ) → Bool → ℕ → Bitmap → Type 0
Taken b start cnt value idx c =
    (IsFirst b start cnt value idx × Filled b idx (idx + cnt) (not value) c)
    ⊎ ((idx ≡ bitmap_error) × (c ≡ b) × NoRun b start cnt value)

-- `bitmap_scan_and_flip` turns over exactly the first such group, and changes nothing where there
-- is none.
pub scan_and_flip-Taken :
    {b : Bitmap} (start cnt : ℕ) (value : Bool)
    → IsValid b
    → start ≤ b.bit_cnt
    → (idx : ℕ) × (c : Bitmap) × (scan_and_flip b start cnt value ≡ ok (idx, c))
      × Taken b start cnt value idx c
unfolding scan_and_flip
scan_and_flip-Taken {b} start cnt value v h = step (scan-Found start cnt value v h)
  where
    step :
        ((idx : ℕ) × (scan b start cnt value ≡ ok idx) × Found b start cnt value idx)
        → (idx : ℕ) × (c : Bitmap) × (scan_and_flip b start cnt value ≡ ok (idx, c))
          × Taken b start cnt value idx c
    step (idx, e, inl f) =
        let (c, e', filled) = set_multiple-Filled idx cnt (not value) v f.inside in
        (
          idx,
          c,
          rw (e, ne→== idx bitmap_error (omega (arith, v.small, f.inside)), e') refl,
          inl (f, filled),
        )
    step (idx, e, inr (bad, none_fits)) =
        (idx, b, rw (e, eq→== idx bitmap_error bad) refl, inr (bad, refl, none_fits))

-- Both keep the map valid.
pub Taken-IsValid :
    (b : Bitmap) (start cnt : ℕ) (value : Bool) (idx : ℕ) {c : Bitmap}
    → Taken b start cnt value idx c
    → IsValid b
    → IsValid c
Taken-IsValid b start cnt value idx (inl (f, filled)) v = SameShape-IsValid filled.shape v
Taken-IsValid b start cnt value idx (inr (bad, same, none_fits)) v = rw same v
