-- ===== src/Divide/Tests.antt =====
-- A division by a long divisor.
use project.Base.{◌+◌, ◌^◌, ◌≡◌, ok, arith}
use project.Divide.{udiv64, umod64}
use project.Divide.Quotient.{udiv64-umod64}

-- a remainder of 2^33 + 9, of which the result keeps the 9
udiv64-umod64_example :
    (udiv64 (2 ^ 33 + 9) (2 ^ 34) ≡ ok 0) × (umod64 (2 ^ 33 + 9) (2 ^ 34) ≡ ok 9)
udiv64-umod64_example =
    udiv64-umod64 (2 ^ 33 + 9) (2 ^ 34) (omega arith) (omega arith) (omega arith)
