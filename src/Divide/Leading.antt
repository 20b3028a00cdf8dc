-- ===== src/Divide/Leading.antt =====
-- The number of leading zeros of a word, by `nlz` of lib/arithmetic.c.
use project.Base.{
  ℕ, zero, suc, ◌+◌, ◌*◌, ◌%◌, ◌^◌, ◌<◌, ◌≤◌, ◌≡◌, refl, sym, ap, ◌∙◌, arith, leb, Bool-cases, inl,
  inr,
}
use native.Mathlib.Nat.{mul_assoc, mul-le-mul_right, pow-suc}
use project.Divide.{nlz_step, nlz}

pub pow-add : (n k : ℕ) → 2 ^ (n + k) ≡ 2 ^ n * 2 ^ k
pow-add n zero = let here : n + 0 ≡ n = omega arith in ap (λ m. 2 ^ m) here ∙ omega arith
pow-add n (suc k) =
    let next : n + suc k ≡ suc (n + k) = omega arith in
    ap (λ m. 2 ^ m) next
    ∙ pow-suc 2 (n + k)
    ∙ ap (λ m. m * 2) (pow-add n k)
    ∙ mul_assoc (2 ^ n) (2 ^ k) 2
    ∙ ap (λ m. 2 ^ n * m) (sym (pow-suc 2 k))

-- `st` has found `st.0` zeros, at most `most`, and what is left is at least `low`.
pub record IsShifted (x most low : ℕ) (st : ℕ × ℕ) : Type 0 where
  pub shifted : st.1 ≡ x * 2 ^ st.0
  pub few : st.0 ≤ most
  pub word : st.1 < 2 ^ 32
  pub large : low ≤ st.1

-- `bits` more, which multiply by `p`
nlz_step-IsShifted :
    (x most low bits p limit : ℕ) (st : ℕ × ℕ)
    → IsShifted x most low st
    → 2 ^ bits ≡ p
    → 0 < p
    → limit * p + p ≡ 2 ^ 32
    → limit + 1 ≡ low * p
    → IsShifted x (most + bits) (limit + 1) (nlz_step bits limit st)
unfolding nlz_step
nlz_step-IsShifted x most low bits p limit (n, y) i pow pos e f = elim (Bool-cases (leb y limit)) [
  | inl c ↦
      let small : y ≤ limit = ground (arith, c) in
      let fits : y * p < 2 ^ 32 = omega (arith, mul-le-mul_right p small, pos, e) in
      let same : y * 2 ^ bits % 2 ^ 32 ≡ y * p =
        ap (λ q. y * q % 2 ^ 32) pow ∙ omega (arith, fits) in
      rw (c, same)
        (record {
          shifted =
              ap (λ z. z * p) i.shifted
              ∙ mul_assoc x (2 ^ n) p
              ∙ ap (λ q. x * (2 ^ n * q)) (sym pow)
              ∙ ap (λ q. x * q) (sym (pow-add n bits));
          few = omega (arith, i.few);
          word = fits;
          large = omega (arith, f, mul-le-mul_right p i.large);
        })
  | inr c ↦ rw c (record {
    shifted = i.shifted;
    few = omega (arith, i.few);
    word = i.word;
    large = ground (arith, c);
  })
]

-- A word that is not zero has fewer than 32 leading zeros, and without them its highest bit is set.
pub nlz-IsShifted :
    (x : ℕ)
    → 0 < x
    → x < 2 ^ 32
    → (nlz x ≤ 31) × (2 ^ 31 ≤ x * 2 ^ nlz x) × (x * 2 ^ nlz x < 2 ^ 32)
unfolding nlz
nlz-IsShifted x pos word =
    let i0 : IsShifted x 0 1 (0, x) = record {
      shifted = omega arith;
      few = omega arith;
      word = word;
      large = pos;
    } in
    let i1 = nlz_step-IsShifted x 0 1 16 (2 ^ 16) 0x0000_ffff _ i0 refl (omega arith) refl refl in
    let i2 =
      nlz_step-IsShifted x 16 (2 ^ 16) 8 (2 ^ 8) 0x00ff_ffff _ i1 refl (omega arith) refl refl in
    let i3 =
      nlz_step-IsShifted x 24 (2 ^ 24) 4 (2 ^ 4) 0x0fff_ffff _ i2 refl (omega arith) refl refl in
    let i4 =
      nlz_step-IsShifted x 28 (2 ^ 28) 2 (2 ^ 2) 0x3fff_ffff _ i3 refl (omega arith) refl refl in
    let i5 =
      nlz_step-IsShifted x 30 (2 ^ 30) 1 (2 ^ 1) 0x7fff_ffff _ i4 refl (omega arith) refl refl in
    (i5.few, omega (arith, i5.shifted, i5.large), omega (arith, i5.shifted, i5.word))
