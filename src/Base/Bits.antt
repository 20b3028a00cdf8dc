-- ===== src/Base/Bits.antt =====
-- The bits of a word, and what `&`, `|` and `^` do to each of them.
use Prim.Native.Nat.{
  ℕ, zero, suc, ◌+◌, ◌-◌, ◌*◌, ◌/◌, ◌%◌, ◌^◌, ◌≤◌, ◌<◌, min, max, bit_and, bit_or, bit_xor,
}
use Prim.Native.Nat.{digits, differ, bit_and-bitwise, bit_or-bitwise, bit_xor-bitwise}
use mathlib.Core.Path.{◌≡◌, refl}
use mathlib.Core.Logic.{◌≢◌}
use native.Mathlib.Nat.{pow-suc, le_refl, one-le-pow}
use native.Mathlib.Decide.{ℕ_discrete}
use native.Mathlib.Omega.{arith}

-- bit `k` of `w`, as 0 or 1
abbrev pub bit : ℕ → ℕ → ℕ
bit w zero = w % 2
bit w (suc k) = bit (w / 2) k

pub bit-lt : (w k : ℕ) → bit w k < 2
bit-lt w zero = omega arith
bit-lt w (suc k) = bit-lt (w / 2) k

pub bit-zero : (k : ℕ) → bit 0 k ≡ 0
bit-zero zero = refl
bit-zero (suc k) = bit-zero k

-- An operation on binary digits acts on each bit by itself.
module _ (z : ℕ → ℕ) (f : ℕ → ℕ → ℕ) (low : (b : ℕ) → z b % 2 ≡ f 0 (b % 2))
    (high : (b : ℕ) → z b / 2 ≡ z (b / 2)) (small : (x y : ℕ) → x < 2 → y < 2 → f x y < 2) where
  bit_rest : (b k : ℕ) → bit (z b) k ≡ f (bit 0 k) (bit b k)
  bit_rest b zero = low b
  bit_rest b (suc k) = rw (high b) (bit_rest (b / 2) k)

  bit-digits : (k n a b : ℕ) → a ≤ n → bit (digits z f n a b) k ≡ f (bit a k) (bit b k)
  bit-digits k zero zero b h = bit_rest b k
  bit-digits k zero (suc a) b h = absurd (omega arith)
  bit-digits k (suc n) zero b h = bit_rest b k
  bit-digits zero (suc n) (suc a) b h =
      omega (arith, small (suc a % 2) (b % 2) (omega arith) (omega arith))
  bit-digits (suc k) (suc n) (suc a) b h =
      let half : (digits z f n (suc a / 2) (b / 2) * 2 + f (suc a % 2) (b % 2)) / 2
          ≡ digits z f n (suc a / 2) (b / 2) =
        omega (arith, small (suc a % 2) (b % 2) (omega arith) (omega arith)) in
      rw half (bit-digits k n (suc a / 2) (b / 2) (omega arith))

differ-lt : (x y : ℕ) → x < 2 → y < 2 → differ x y < 2
differ-lt zero y p q = q
differ-lt (suc x) zero p q = p
differ-lt (suc zero) (suc y) p q = omega arith
differ-lt (suc (suc x)) (suc y) p q = absurd (omega arith)

pub bit-bit_and : (a b k : ℕ) → bit (bit_and a b) k ≡ min (bit a k) (bit b k)
bit-bit_and a b k = rw bit_and-bitwise (
    bit-digits (λ _. 0) min (λ b. omega arith) (λ b. refl) (λ x y p q. omega arith) k a a b
      (le_refl a))

pub bit-bit_or : (a b k : ℕ) → bit (bit_or a b) k ≡ max (bit a k) (bit b k)
bit-bit_or a b k = rw bit_or-bitwise (
    bit-digits (λ b. b) max (λ b. omega arith) (λ b. refl) (λ x y p q. omega arith) k a a b
      (le_refl a))

pub bit-bit_xor : (a b k : ℕ) → bit (bit_xor a b) k ≡ differ (bit a k) (bit b k)
bit-bit_xor a b k =
    rw bit_xor-bitwise
      (bit-digits (λ b. b) differ (λ b. refl) (λ b. refl) differ-lt k a a b (le_refl a))

two-pow-half : (k : ℕ) → (2 ^ suc k % 2 ≡ 0) × (2 ^ suc k / 2 ≡ 2 ^ k)
two-pow-half k = omega (arith, pow-suc 2 k)

-- `1 << k` has bit `k` alone
pub bit-two_pow_self : (k : ℕ) → bit (2 ^ k) k ≡ 1
bit-two_pow_self zero = refl
bit-two_pow_self (suc k) = rw ((two-pow-half k).1) (bit-two_pow_self k)

pub bit-two_pow_ne : (k j : ℕ) → j ≢ k → bit (2 ^ k) j ≡ 0
bit-two_pow_ne zero zero h = absurd (h refl)
bit-two_pow_ne zero (suc j) h = bit-zero j
bit-two_pow_ne (suc k) zero h = (two-pow-half k).0
bit-two_pow_ne (suc k) (suc j) h = rw ((two-pow-half k).1) (bit-two_pow_ne k j (omega arith))

-- all ones below `n`
pub bit-ones : (n j : ℕ) → j < n → bit (2 ^ n - 1) j ≡ 1
bit-ones zero j h = elim h [ ]
bit-ones (suc n) zero h = omega (arith, pow-suc 2 n, one-le-pow n 2 (omega arith))
bit-ones (suc n) (suc j) h =
    let half : (2 ^ suc n - 1) / 2 ≡ 2 ^ n - 1 = omega (arith, pow-suc 2 n) in
    rw half (bit-ones n j (omega arith))

-- a word with no bit set is 0
zero_of_bits : (n w : ℕ) → w ≤ n → ((k : ℕ) → bit w k ≡ 0) → w ≡ 0
zero_of_bits zero w h none_set = omega arith
zero_of_bits (suc n) zero h none_set = refl
zero_of_bits (suc n) (suc w) h none_set =
    omega (arith, none_set 0, zero_of_bits n (suc w / 2) (omega arith) (λ k. none_set (suc k)))

-- `w & (1 << k)` is 0 exactly when bit `k` is.
module _ (w k : ℕ) where
  masked_bit : (j : ℕ) → bit w k ≡ 0 → bit (bit_and w (2 ^ k)) j ≡ 0
  masked_bit j h = elim (ℕ_discrete j k) [
    | yes e ↦ rw (e, bit-bit_and, h) (omega arith)
    | no ne ↦ rw (bit-bit_and, bit-two_pow_ne k j ne) (omega arith)
  ]

  pub bit_and-eq-zero : bit w k ≡ 0 → bit_and w (2 ^ k) ≡ 0
  bit_and-eq-zero h = zero_of_bits _ _ (le_refl _) (λ j. masked_bit j h)

  pub bit_and-ne-zero : bit w k ≡ 1 → bit_and w (2 ^ k) ≢ 0
  bit_and-ne-zero h e =
      let clear : bit (bit_and w (2 ^ k)) k ≡ 0 = rw e (bit-zero k) in
      omega (arith, clear, bit-bit_and w (2 ^ k) k, bit-two_pow_self k)

pub differ_one : (x : ℕ) → x < 2 → differ x 1 ≡ 1 - x
differ_one zero h = refl
differ_one (suc zero) h = refl
differ_one (suc (suc x)) h = absurd (omega arith)

pub differ_zero : (x : ℕ) → differ x 0 ≡ x
differ_zero zero = refl
differ_zero (suc x) = refl

-- `~m`, for a word `m`
pub bit-not : (m j : ℕ) → j < 32 → bit (bit_xor m (2 ^ 32 - 1)) j ≡ 1 - bit m j
bit-not m j h = rw (bit-bit_xor, bit-ones 32 j h) (differ_one (bit m j) (bit-lt m j))
