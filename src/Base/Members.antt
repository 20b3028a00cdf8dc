-- ===== src/Base/Members.antt =====
-- Members of a list of addresses, and lists that hold each address once.
use Prim.Native.Nat.{ℕ}
use mathlib.Core.Path.{◌≡◌, refl}
use mathlib.Core.Logic.{◌⊎◌, inl, inr}
use mathlib.Core.Bool.{Bool, true, false, ◌||◌}
use mathlib.Core.List.{List, [], ◌∷◌, ◌++◌}
use native.Mathlib.Omega.{arith}
use project.Base.Tests.{◌==◌}

-- `t` is one of `ts`
abbrev pub mem : ℕ → List ℕ → Bool
mem t [] = false
mem t (u ∷ us) = (t == u) || mem t us

abbrev pub Nodup : List ℕ → Type 0
Nodup [] = Unit
Nodup (t ∷ ts) = (mem t ts ≡ false) × Nodup ts

pub mem-append : (t u : ℕ) (ts : List ℕ) → mem t (ts ++ (u ∷ [])) ≡ (mem t ts || (t == u))
mem-append t u [] = ground arith
mem-append t u (x ∷ xs) = ground (arith, mem-append t u xs)

pub mem-append_both : (t : ℕ) (xs ys : List ℕ) → mem t (xs ++ ys) ≡ (mem t xs || mem t ys)
mem-append_both t [] ys = refl
mem-append_both t (x ∷ xs) ys = ground (arith, mem-append_both t xs ys)

pub Nodup-append : (u : ℕ) (ts : List ℕ) → Nodup ts → mem u ts ≡ false → Nodup (ts ++ (u ∷ []))
Nodup-append u [] n h = (refl, tt)
Nodup-append u (x ∷ xs) n h =
    (ground (arith, mem-append x u xs), Nodup-append u xs n.1 (ground arith))

pub List-cases : (ts : List ℕ) → (ts ≡ []) ⊎ ((x : ℕ) × (xs : List ℕ) × (ts ≡ x ∷ xs))
List-cases [] = inl refl
List-cases (x ∷ xs) = inr (x, xs, refl)

-- the two parts of a list that holds each address once share no address
pub Nodup-append_apart :
    (xs ys : List ℕ) → Nodup (xs ++ ys) → (t : ℕ) → mem t xs ≡ true → mem t ys ≡ false
Nodup-append_apart [] ys n t m = ground arith
Nodup-append_apart (x ∷ xs) ys n t m =
    ground (arith, mem-append_both x xs ys, n.0, Nodup-append_apart xs ys n.1 t)

pub Nodup-append_left : (xs ys : List ℕ) → Nodup (xs ++ ys) → Nodup xs
Nodup-append_left [] ys n = tt
Nodup-append_left (x ∷ xs) ys n =
    (ground (arith, mem-append_both x xs ys, n.0), Nodup-append_left xs ys n.1)

pub Nodup-append_right : (xs ys : List ℕ) → Nodup (xs ++ ys) → Nodup ys
Nodup-append_right [] ys n = n
Nodup-append_right (x ∷ xs) ys n = Nodup-append_right xs ys n.1

pub Nodup-insert :
    (e : ℕ) (xs ys : List ℕ) → Nodup (xs ++ ys) → mem e (xs ++ ys) ≡ false → Nodup (xs ++ (e ∷ ys))
Nodup-insert e [] ys n m = (m, n)
Nodup-insert e (x ∷ xs) ys n m = (
  ground (arith, mem-append_both x xs ys, mem-append_both x xs (e ∷ ys), n.0),
  Nodup-insert e xs ys n.1 (ground arith),
)

pub Nodup-remove :
    (e : ℕ) (xs ys : List ℕ)
    → Nodup (xs ++ (e ∷ ys))
    → Nodup (xs ++ ys) × (mem e (xs ++ ys) ≡ false)
Nodup-remove e [] ys n = (n.1, n.0)
Nodup-remove e (x ∷ xs) ys n = (
  (
    ground (arith, mem-append_both x xs ys, mem-append_both x xs (e ∷ ys), n.0),
    (Nodup-remove e xs ys n.1).0,
  ),
  ground (arith, mem-append_both x xs (e ∷ ys), n.0, (Nodup-remove e xs ys n.1).1),
)

pub mem_insert :
    (t e : ℕ) (xs ys : List ℕ) → mem t (xs ++ (e ∷ ys)) ≡ ((t == e) || mem t (xs ++ ys))
mem_insert t e xs ys = ground (arith, mem-append_both t xs (e ∷ ys), mem-append_both t xs ys)
