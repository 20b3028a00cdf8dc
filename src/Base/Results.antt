-- ===== src/Base/Results.antt =====
-- What a kernel function does when it returns, and when it does not.
use Prim.Native.Nat.{ℕ}
use mathlib.Core.Bool.{Bool, true, false}

-- `exit` is a call of `system_exit_helper`, which ends the running process with a status (a 32-bit
-- pattern) and does not return; `panic` is a failed `ASSERT`, `NOT_REACHED` or `PANIC`: the kernel
-- stops.
pub data Outcome {ℓ} (A : Type ℓ) : Type ℓ where
  ok : A → Outcome A
  exit : ℕ → Outcome A
  panic : Outcome A

module _ {ℓ κ} {A : Type ℓ} {B : Type κ} where
  infixl 5 ◌>>=◌
  abbrev pub ◌>>=◌ : Outcome A → (A → Outcome B) → Outcome B
  m >>= next = elim m [ ok a ↦ next a | exit status ↦ exit status | panic ↦ panic ]

-- `ASSERT (b)`
abbrev pub assert : Bool → Outcome (Unit {0})
assert holds = elim holds [ true ↦ ok tt | false ↦ panic ]

module _ {ℓ} {B : Type ℓ} where
  infixl 5 ◌>>◌
  abbrev pub ◌>>◌ : Outcome (Unit {0}) → Outcome B → Outcome B
  m >> next = elim m [ ok _ ↦ next | exit status ↦ exit status | panic ↦ panic ]
