-- ===== src/Divide/Quotient.antt =====
-- `udiv64` of lib/arithmetic.c is the division of natural numbers.
use project.Base.{
  ℕ, ◌+◌, ◌-◌, ◌*◌, ◌/◌, ◌%◌, ◌^◌, ◌<◌, ◌≤◌, ◌≡◌, refl, sym, ap, ◌∙◌, arith, ltb, if◌then◌else◌,
  Bool-cases, inl, inr, ok, ◌>>=◌, eq→==, ne→==, lt→ltb, ℕ_discrete,
}
use native.Mathlib.Nat.{
  one-le-pow, mul_assoc, mul_comm, mul_left_comm, mul-add, lt_of_mul-lt-mul_left, mul-le-mul_right,
  mul-le-mul_left, div-add-mod, mod-lt, div-lt_iff_lt-mul, div-le_self, add-mul-div_right,
  div-div-eq-div-mul, div-eq_of_lt,
}
use project.Divide.{divl, nlz, sub64, udiv64_short, udiv64_long, udiv64, umod64}
use project.Divide.Leading.{pow-add, nlz-IsShifted}
use project.Divide.Estimate.{near-div, top, near, near-bounds, adjusted}

divl-div : (n d : ℕ) → 0 < d → n < 2 ^ 32 * d → divl n d ≡ ok (n / d)
unfolding divl
divl-div n d p h =
    let fits : n / d < 2 ^ 32 = (div-lt_iff_lt-mul p).1 h in
    rw (ne→== d 0 (λ e. omega (arith, e, p)), lt→ltb (n / d) (2 ^ 32) fits) refl

udiv64_short-div : (n d : ℕ) → 0 < d → d < 2 ^ 32 → n < 2 ^ 64 → udiv64_short n d ≡ ok (n / d)
unfolding udiv64_short
udiv64_short-div n d p small w =
    let b = 2 ^ 32 in
    let n1 = n / b in
    let n0 = n % b in
    let x = b * (n1 % d) + n0 in
    let below = mod-lt n1 p in
    let xs : x < b * d = omega (arith, below) in
    let keep : x % 2 ^ 64 ≡ x = omega (arith, xs, small) in
    let whole : x + b * (n1 / d) * d ≡ n =
      omega
        (arith, ap (λ z. b * z) (div-add-mod n1 d), mul_assoc b (n1 / d) d, mul_comm d (n1 / d)) in
    let sum : x / d + b * (n1 / d) ≡ n / d =
      sym (add-mul-div_right x (b * (n1 / d)) p) ∙ ap (λ z. z / d) whole in
    let in_word : n / d < 2 ^ 64 = omega (arith, div-le_self n d, w) in
    ap (λ z. divl z d >>= (λ q. ok ((q + b * (n1 / d)) % 2 ^ 64))) keep
    ∙ ap (λ o. o >>= (λ q. ok ((q + b * (n1 / d)) % 2 ^ 64))) (divl-div x d p xs)
    ∙ ap (λ z. ok (z % 2 ^ 64)) sum
    ∙ ap ok (omega (arith, in_word))

-- the shift of a divisor of more than 32 bits brings its highest bit to the top
module _ (d : ℕ) (big : 2 ^ 32 ≤ d) (word : d < 2 ^ 64) where
  abbrev zeros : ℕ
  zeros = nlz (d / 2 ^ 32)

  shift-bounds :
      (zeros ≤ 31)
      × (2 ^ zeros * 2 ^ (31 - zeros) ≡ 2 ^ 31)
      × (d * 2 ^ zeros < 2 ^ 64)
      × (2 ^ 31 ≤ d * 2 ^ zeros / 2 ^ 32)
  shift-bounds =
      let x = d / 2 ^ 32 in
      let p = 2 ^ zeros in
      let k = 2 ^ (31 - zeros) in
      let t = nlz-IsShifted x (omega (arith, big)) (omega (arith, word)) in
      let sum : zeros + (31 - zeros) ≡ 31 = omega (arith, t.0) in
      let pk : p * k ≡ 2 ^ 31 = sym (pow-add zeros (31 - zeros)) ∙ ap (λ z. 2 ^ z) sum in
      let p_pos : 1 ≤ p = one-le-pow zeros 2 (omega arith) in
      let double : p * (2 * k) ≡ 2 ^ 32 = mul_left_comm p 2 k ∙ ap (λ z. 2 * z) pk in
      let less : x < 2 * k = lt_of_mul-lt-mul_left p (omega (arith, t.2, double, mul_comm x p)) in
      let full : p * (x + 1) ≤ 2 ^ 32 = omega (arith, mul-le-mul_left p less, double) in
      let above : p * (d + 1) ≤ p * ((x + 1) * 2 ^ 32) = mul-le-mul_left p (omega arith) in
      let scaled : p * ((x + 1) * 2 ^ 32) ≡ p * (x + 1) * 2 ^ 32 =
        sym (mul_assoc p (x + 1) (2 ^ 32)) in
      let parts : p * (d + 1) ≡ p * d + p * 1 = mul-add p d 1 in
      let below : x * 2 ^ 32 * p ≤ d * p = mul-le-mul_right p (omega arith) in
      let moved : x * 2 ^ 32 * p ≡ x * p * 2 ^ 32 =
        mul_assoc x (2 ^ 32) p
        ∙ ap (λ z. x * z) (mul_comm (2 ^ 32) p)
        ∙ sym (mul_assoc x p (2 ^ 32)) in
      (
        t.0,
        pk,
        omega (arith, above, scaled, full, parts, p_pos, mul_comm d p),
        omega (arith, below, moved, t.1),
      )

  udiv64_long-div : (n : ℕ) → n < 2 ^ 64 → udiv64_long n d ≡ ok (n / d)
  unfolding udiv64_long
  udiv64_long-div n w = elim (Bool-cases (ltb n d)) [
    | inl c ↦ rw c (ap ok (sym (div-eq_of_lt (ground (arith, c)))))
    | inr c ↦
        let t = shift-bounds in
        let p = 2 ^ zeros in
        let k = 2 ^ (31 - zeros) in
        let k_pos : 0 < k = one-le-pow (31 - zeros) 2 (omega arith) in
        let b = near-bounds d p k t.1 k_pos in
        let large : 2 ^ 32 * k ≤ near d p k t.1 k_pos = omega (arith, mul-le-mul_right k t.3) in
        let q = near-div n d (near d p k t.1 k_pos) k p t.1 k_pos b.0 b.1 large w in
        let high = top d p k t.1 k_pos in
        let m = near d p k t.1 k_pos in
        let answer = λ (z : ℕ). if ltb (sub64 n (sub64 z 1 * d % 2 ^ 64)) d then sub64 z 1 else z in
        let keep : d * p % 2 ^ 64 ≡ d * p = omega (arith, t.2) in
        let high_pos : 0 < high = omega (arith, t.3) in
        let fits : n / 2 < 2 ^ 32 * high = omega (arith, t.3, w) in
        let shifted : n / 2 / high / k ≡ n / m =
          ap (λ z. z / k) (div-div-eq-div-mul n 2 high)
          ∙ div-div-eq-div-mul n (2 * high) k
          ∙ ap (λ z. n / z) (mul_assoc 2 high k) in
        let d_pos : 0 < d = omega (arith, big) in
        rw c (
          ap (λ z. divl (n / 2) (z / 2 ^ 32) >>= (λ r. ok (answer (r / k)))) keep
          ∙ ap (λ o. o >>= (λ r. ok (answer (r / k)))) (divl-div (n / 2) high high_pos fits)
          ∙ ap (λ z. ok (answer z)) shifted
          ∙ ap ok (adjusted n d (n / m) d_pos (ground (arith, c)) w q.0 q.1))
  ]

udiv64-div : (n d : ℕ) → n < 2 ^ 64 → 0 < d → d < 2 ^ 64 → udiv64 n d ≡ ok (n / d)
unfolding udiv64
udiv64-div n d w pos word = elim (ℕ_discrete (d / 2 ^ 32) 0) [
  | yes e ↦ rw (eq→== (d / 2 ^ 32) 0 e) (udiv64_short-div n d pos (omega (arith, e)) w)
  | no ne ↦ rw (ne→== (d / 2 ^ 32) 0 ne) (udiv64_long-div d (omega (arith, ne)) word n w)
]

umod64-mod : (n d : ℕ) → n < 2 ^ 64 → 0 < d → d < 2 ^ 64 → umod64 n d ≡ ok (n % d % 2 ^ 32)
unfolding umod64
umod64-mod n d w pos word =
    rw (udiv64-div n d w pos word) (ap (λ r. ok (r % 2 ^ 32)) (omega (arith, div-add-mod n d, w)))

-- For 64-bit integers and a divisor that is not zero, `udiv64` returns the quotient of natural numbers
-- without a trap, and `umod64` the remainder modulo 2^32: all of it for a divisor of at most 32 bits,
-- and only its lower half for a larger one.
pub udiv64-umod64 :
    (n d : ℕ)
    → n < 2 ^ 64
    → 0 < d
    → d < 2 ^ 64
    → (udiv64 n d ≡ ok (n / d)) × (umod64 n d ≡ ok (n % d % 2 ^ 32))
udiv64-umod64 n d w pos word = (udiv64-div n d w pos word, umod64-mod n d w pos word)
