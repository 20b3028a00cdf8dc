-- ===== src/Divide/Estimate.antt =====
-- How near the quotient is that `udiv64` of lib/arithmetic.c takes of a long divisor: the divisor of
-- `divl` is the upper half of the shifted one.
use project.Base.{
  ℕ, ◌+◌, ◌-◌, ◌*◌, ◌/◌, ◌%◌, ◌^◌, ◌<◌, ◌≤◌, ◌≡◌, sym, ap, ◌∙◌, true, false, arith, ltb,
  if◌then◌else◌, ℕ_discrete,
}
use native.Mathlib.Nat.{
  mul_assoc, mul_comm, mul_left_comm, mul-add, lt_of_mul-lt-mul_left, mul-le-mul_right,
  mul-le-mul_left, add-mul, div-add-mod, mod-lt, div-lt_iff_lt-mul, le-div_iff_mul-le, div-le_self,
}
use project.Divide.{sub64}

-- The quotient by a divisor that is at most `2 * k - 1` too small is right, or one too large.
module _ (n d m k p : ℕ) (pk : p * k ≡ 2 ^ 31) (pos : 0 < k) where
  module _ (below : m ≤ d) (above : d < m + 2 * k) (large : 2 ^ 32 * k ≤ m) (w : n < 2 ^ 64) where
    m_pos : 0 < m
    m_pos = omega (arith, large, pos)

    lower : n / d * m ≤ n
    lower = omega (arith, mul-le-mul_left (n / d) below, mul_comm (n / d) d, div-add-mod n d)

    quotient_bound : n / d < 2 * p
    quotient_bound =
        let q = n / d in
        let scaled : q * (2 ^ 32 * k) ≡ 2 ^ 32 * (q * k) = mul_left_comm q (2 ^ 32) k in
        let product : q * k < 2 ^ 32 = omega (arith, mul-le-mul_left q large, lower, w, scaled) in
        let double : k * (2 * p) ≡ 2 ^ 32 =
          mul_left_comm k 2 p ∙ ap (λ z. 2 * z) (mul_comm k p ∙ pk) in
        lt_of_mul-lt-mul_left k (omega (arith, product, double, mul_comm q k))

    -- what the error of the divisor can add
    slack : (n / d + 1) * (2 * k - 1) ≤ m
    slack =
        let e = 2 * k - 1 in
        let grown : (n / d + 1) * e ≤ 2 * p * e =
          mul-le-mul_right e (omega (arith, quotient_bound)) in
        let whole : 2 * p * (e + 1) ≡ 2 ^ 33 =
          ap (λ z. 2 * p * z) (omega (arith, pos))
          ∙ mul_assoc 2 p (2 * k)
          ∙ ap (λ z. 2 * z) (mul_left_comm p 2 k ∙ ap (λ z. 2 * z) pk) in
        let split : 2 * p * (e + 1) ≡ 2 * p * e + 2 * p * 1 = mul-add (2 * p) e 1 in
        elim (ℕ_discrete k 1) [
          | yes one ↦
              let whole_p : p ≡ 2 ^ 31 = omega (arith, sym (ap (λ z. p * z) one) ∙ pk) in
              omega (arith, grown, whole, split, whole_p, large, one)
          | no more ↦ omega (arith, grown, whole, split, large, pos, more)
        ]

    upper : n < (n / d + 2) * m
    upper =
        let q = n / d in
        let e = 2 * k - 1 in
        let reach : (q + 1) * d ≤ (q + 1) * (m + e) =
          mul-le-mul_left (q + 1) (omega (arith, above, pos)) in
        let parts : (q + 1) * (m + e) ≡ (q + 1) * m + (q + 1) * e = mul-add (q + 1) m e in
        let d_pos : 0 < d = omega (arith, below, m_pos) in
        omega (
          arith,
          reach,
          parts,
          slack,
          div-add-mod n d,
          mod-lt n d_pos,
          add-mul q 1 d,
          add-mul q 1 m,
          add-mul q 2 m,
          mul_comm q d,
        )

    pub near-div : (n / d ≤ n / m) × (n / m ≤ n / d + 1)
    near-div =
        let b : n / m < n / d + 2 = (div-lt_iff_lt-mul m_pos).1 upper in
        ((le-div_iff_mul-le m_pos).1 lower, omega (arith, b))

-- The divisor of `divl`, times what the shifts undo, is `d` less at most `2 * k - 1`.
module _ (d p k : ℕ) (pk : p * k ≡ 2 ^ 31) (pos : 0 < k) where
  abbrev pub top : ℕ
  top = d * p / 2 ^ 32

  abbrev pub near : ℕ
  near = 2 * (top * k)

  pub near-bounds : (near ≤ d) × (d < near + 2 * k)
  near-bounds =
      let r = d * p % 2 ^ 32 in
      let parts : d * p ≡ top * 2 ^ 32 + r = omega arith in
      let swap : top * 2 ^ 32 * k ≡ top * k * 2 ^ 32 =
        mul_assoc top (2 ^ 32) k
        ∙ ap (λ z. top * z) (mul_comm (2 ^ 32) k)
        ∙ sym (mul_assoc top k (2 ^ 32)) in
      let times : d * 2 ^ 31 ≡ near * 2 ^ 31 + r * k =
        ap (λ z. d * z) (sym pk)
        ∙ sym (mul_assoc d p k)
        ∙ ap (λ z. z * k) parts
        ∙ add-mul (top * 2 ^ 32) r k
        ∙ omega (arith, swap) in
      let less : r + 1 ≤ 2 ^ 32 = omega arith in
      let small : r * k < 2 ^ 32 * k = omega (arith, mul-le-mul_right k less, add-mul r 1 k, pos) in
      (omega (arith, times), omega (arith, times, small))

-- The last test takes one off where the quotient is too large.
pub adjusted :
    (n d q : ℕ)
    → 0 < d
    → d ≤ n
    → n < 2 ^ 64
    → n / d ≤ q
    → q ≤ n / d + 1
    → (if ltb (sub64 n (sub64 q 1 * d % 2 ^ 64)) d then sub64 q 1 else q) ≡ n / d
adjusted n d q pos le w low high =
    let split = div-add-mod n d in
    let rest = mod-lt n pos in
    let flip = mul_comm d (n / d) in
    let one : 1 ≤ n / d = (le-div_iff_mul-le pos).1 (omega (arith, le)) in
    let q_word : q < 2 ^ 64 + 1 = omega (arith, div-le_self n d, high, w) in
    let less : sub64 q 1 ≡ q - 1 = omega (arith, low, one, q_word) in
    elim (ℕ_discrete q (n / d)) [
      | yes e ↦
          let product : n / d * d ≡ (q - 1) * d + 1 * d =
            ap (λ z. z * d) (omega (arith, e, one)) ∙ add-mul (q - 1) 1 d in
          let test : ltb (sub64 n ((q - 1) * d % 2 ^ 64)) d ≡ false =
            ground (arith, product, split, rest, flip, w, pos) in
          rw (less, test) e
      | no ne ↦
          let product : (q - 1) * d ≡ n / d * d = ap (λ z. z * d) (omega (arith, low, high, ne)) in
          let test : ltb (sub64 n ((q - 1) * d % 2 ^ 64)) d ≡ true =
            ground (arith, product, split, rest, flip, w) in
          rw (less, test) (omega (arith, low, high, ne))
    ]
