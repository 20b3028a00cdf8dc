-- ===== src/Divide.antt =====
-- lib/arithmetic.c: division of 64-bit integers by the 32-bit division of the processor. A signed
-- integer is its bit pattern.
pub mod Leading
pub mod Estimate
pub mod Quotient
mod Tests
use project.Base.{
  ℕ, ◌+◌, ◌-◌, ◌*◌, ◌/◌, ◌%◌, ◌^◌, Bool, true, false, not, ◌||◌, Outcome, ok, panic, ◌>>=◌, ◌==◌,
  ltb, leb, if◌then◌else◌, same,
}

-- `divl`: the instruction traps where the divisor is zero or the quotient does not fit in 32 bits.
unfoldable pub divl : (n d : ℕ) → Outcome ℕ
divl n d = if (d == 0) || not (ltb (n / d) (2 ^ 32)) then panic else ok (n / d)

-- one test of `nlz`, with the zeros counted so far and what is left of the word
unfoldable pub nlz_step : (bits limit : ℕ) → ℕ × ℕ → ℕ × ℕ
nlz_step bits limit (n, x) = if leb x limit then (n + bits, x * 2 ^ bits % 2 ^ 32) else (n, x)

unfoldable pub nlz : (x : ℕ) → ℕ
nlz x =
    (nlz_step 1 0x7fff_ffff (
      nlz_step 2 0x3fff_ffff
        (nlz_step 4 0x0fff_ffff (nlz_step 8 0x00ff_ffff (nlz_step 16 0x0000_ffff (0, x)))))).0

abbrev pub sub64 : ℕ → ℕ → ℕ
sub64 a b = (a + 2 ^ 64 - b) % 2 ^ 64

-- a divisor of 32 bits
unfoldable pub udiv64_short : (n d : ℕ) → Outcome ℕ
udiv64_short n d =
    let b = 2 ^ 32 in
    let n1 = n / b in
    let n0 = n % b in
    (do q ← divl ((b * (n1 % d) + n0) % 2 ^ 64) d; ok ((q + b * (n1 / d)) % 2 ^ 64))

-- a larger divisor
unfoldable pub udiv64_long : (n d : ℕ) → Outcome ℕ
udiv64_long n d =
    let s = nlz (d / 2 ^ 32) in
    let divide = (do
      r ← divl (n / 2) (d * 2 ^ s % 2 ^ 64 / 2 ^ 32)
      let q = r / 2 ^ (31 - s)
      ok (if ltb (sub64 n (sub64 q 1 * d % 2 ^ 64)) d then sub64 q 1 else q)) in
    if ltb n d then ok 0 else divide

unfoldable pub udiv64 : (n d : ℕ) → Outcome ℕ
udiv64 n d = if d / 2 ^ 32 == 0 then udiv64_short n d else udiv64_long n d

-- The result is an `uint32_t`.
unfoldable pub umod64 : (n d : ℕ) → Outcome ℕ
umod64 n d = do q ← udiv64 n d; ok (sub64 n (d * q % 2 ^ 64) % 2 ^ 32)

-- `n >= 0` of a bit pattern, and its absolute value
abbrev pub negative : ℕ → Bool
negative n = leb (2 ^ 63) n

abbrev pub absolute : ℕ → ℕ
absolute n = if negative n then sub64 0 n else n

unfoldable pub sdiv64 : (n d : ℕ) → Outcome ℕ
sdiv64 n d = do
  q ← udiv64 (absolute n) (absolute d)
  ok (if same (negative n) (negative d) then q else sub64 0 q)

-- The result is an `int32_t`.
unfoldable pub smod64 : (n d : ℕ) → Outcome ℕ
smod64 n d = do q ← sdiv64 n d; ok (sub64 n (d * q % 2 ^ 64) % 2 ^ 32)
