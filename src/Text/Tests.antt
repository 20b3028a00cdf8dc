-- ===== src/Text/Tests.antt =====
-- Runs of lib/string.c on short blocks and strings.
use project.Base.{
  ℕ, ◌+◌, ◌<◌, ◌≤◌, ◌≡◌, ◌⊎◌, ◌↔◌, inl, inr, refl, arith, List, [], ◌∷◌, ok, ◌==◌, if◌then◌else◌,
  minus,
}
use project.Text.{Memory, memmove, strchr_loop, strcmp}
use project.Text.Blocks.{moved, memmove-moved}
use project.Text.Strings.{IsString, order, strchr_loop-find, strcmp-order}
use project.Text.Copies.{strlcpy, strlcat, strlcpy-IsString, strlcat-IsString}

-- `ab` at 10, `ad` at 20, and zeros
abbrev text : Memory
text = λ a.
    if a == 10
    then 97
    else if a == 11
    then 98
    else if a == 20
    then 97
    else if a == 21
    then 100
    else 0

abbrev ab : List ℕ
ab = 97 ∷ 98 ∷ []

abbrev ad : List ℕ
ad = 97 ∷ 100 ∷ []

ab-IsString : IsString text 10 ab
ab-IsString = (refl, omega arith, (refl, omega arith, refl))

ad-IsString : IsString text 20 ad
ad-IsString = (refl, omega arith, (refl, omega arith, refl))

memmove-moved_example :
    (m' : Memory) × (memmove text 11 10 2 ≡ ok (11, m')) × ((a : ℕ) → m' a ≡ moved text 11 10 2 a)
memmove-moved_example = memmove-moved text 11 10 2 (inl (omega arith)) (inl (omega arith))

strcmp_run : (strcmp 3 text 10 20 ≡ ok (minus 1)) × ((order ab ad ≡ 0) ↔ (ab ≡ ad))
strcmp_run =
    strcmp-order 3 text 10 20 ab ad (omega arith) (omega arith) ab-IsString ad-IsString
      (omega arith)

strlcpy-IsString_example :
    (m' : Memory) × (strlcpy 3 text 30 10 2 ≡ ok (2, m'))
    × (0 < 2 → IsString m' 30 (97 ∷ []))
    × ((a : ℕ) → (a < 30) ⊎ (30 + 2 ≤ a) → m' a ≡ text a)
strlcpy-IsString_example =
    strlcpy-IsString 3 text 30 10 2 ab (omega arith) (omega arith) ab-IsString (omega arith)
      (inr (omega arith))

strlcat_run :
    (m' : Memory) × (strlcat 3 text 20 10 4 ≡ ok (4, m'))
    × IsString m' 20 (97 ∷ 100 ∷ 97 ∷ [])
    × ((a : ℕ) → (a < 22) ⊎ (24 ≤ a) → m' a ≡ text a)
strlcat_run =
    strlcat-IsString 3 text 20 10 4 ad ab (omega arith) (omega arith) ab-IsString ad-IsString
      (omega arith) (omega arith) (omega arith) (inr (omega arith))

-- a search for the zero at the end of a string
strchr_loop_run : strchr_loop 3 text 10 0 ≡ ok 12
strchr_loop_run = strchr_loop-find 3 text 10 ab 0 ab-IsString (omega arith)
