-- ===== src/Text/Strings.antt =====
-- Strings of lib/string.c: bytes up to the first zero, and `strlen`, `strchr` and `strcmp` on them.
use project.Base.{
  ℕ, zero, suc, ◌+◌, ◌<◌, ◌≡◌, ◌≢◌, ◌↔◌, inl, inr, refl, sym, ap, ◌∙◌, Bool, true, false, arith,
  List, [], ◌∷◌, length, ok, ◌==◌, ltb, if◌then◌else◌, minus, Bool-cases, eq→==, ne→==, ==→eq,
}
use project.Paging.{null}
use project.Text.{Memory, strcmp_loop, strcmp, strchr_loop, strlen_loop, strlen}

-- At `p` stands the string of the characters `xs`.
abbrev pub IsString : Memory → (p : ℕ) → List ℕ → Type 0
IsString m p [] = m p ≡ 0
IsString m p (x ∷ xs) = (m p ≡ x) × (x ≢ 0) × IsString m (p + 1) xs

strlen_loop-length :
    (rounds : ℕ) (m : Memory) (p : ℕ) (xs : List ℕ)
    → IsString m p xs
    → length xs < rounds
    → strlen_loop rounds m p ≡ ok (p + length xs)
unfolding strlen_loop
strlen_loop-length zero m p xs s f = absurd (omega (arith, f))
strlen_loop-length (suc rounds) m p [] s f = rw (eq→== (m p) 0 s) (ap ok (omega arith))
strlen_loop-length (suc rounds) m p (x ∷ xs) s f =
    rw (ne→== (m p) 0 (λ e. s.1 (sym s.0 ∙ e)))
      (strlen_loop-length rounds m (p + 1) xs s.2 (omega (arith, f)) ∙ ap ok (omega arith))

-- `strlen` returns the number of characters of a string, after one round more than that.
pub strlen-length :
    (rounds : ℕ) (m : Memory) (p : ℕ) (xs : List ℕ)
    → p ≢ null
    → IsString m p xs
    → length xs < rounds
    → strlen rounds m p ≡ ok (length xs)
unfolding strlen
strlen-length rounds m p xs n s f =
    rw (ne→== p null n, strlen_loop-length rounds m p xs s f) (ap ok (omega arith))

ok_if : (b : Bool) (p q : ℕ) → (if b then ok p else ok q) ≡ ok (if b then p else q)
ok_if true p q = refl
ok_if false p q = refl

-- where `c` stands first in a string at `p`, its end counting as a zero
abbrev pub find : (p : ℕ) → List ℕ → (c : ℕ) → ℕ
find p [] c = if 0 == c then p else null
find p (x ∷ xs) c = if x == c then p else find (p + 1) xs c

-- `strchr` returns where a character stands first in a string, the zero at its end included, and
-- `NULL` if it is not in it, after at most one round more than the string has characters.
pub strchr_loop-find :
    (rounds : ℕ) (m : Memory) (p : ℕ) (xs : List ℕ) (c : ℕ)
    → IsString m p xs
    → length xs < rounds
    → strchr_loop rounds m p c ≡ ok (find p xs c)
unfolding strchr_loop
strchr_loop-find zero m p xs c s f = absurd (omega (arith, f))
strchr_loop-find (suc rounds) m p [] c s f = rw s (ok_if (0 == c) p null)
strchr_loop-find (suc rounds) m p (x ∷ xs) c s f =
    rw (s.0, ne→== x 0 s.1, strchr_loop-find rounds m (p + 1) xs c s.2 (omega (arith, f)))
      (ok_if (x == c) p (find (p + 1) xs c))

-- the order of two strings: below zero, zero or above zero
abbrev pub order : List ℕ → List ℕ → ℕ
order [] [] = 0
order [] (y ∷ ys) = minus 1
order (x ∷ xs) [] = 1
order (x ∷ xs) (y ∷ ys) = if x == y then order xs ys else if ltb x y then minus 1 else 1

strcmp_loop-order :
    (rounds : ℕ) (m : Memory) (a b : ℕ) (xs ys : List ℕ)
    → IsString m a xs
    → IsString m b ys
    → length xs < rounds
    → strcmp_loop rounds m a b ≡ ok (order xs ys)
unfolding strcmp_loop
strcmp_loop-order zero m a b xs ys s t f = absurd (omega (arith, f))
strcmp_loop-order (suc rounds) m a b [] [] s t f = rw (s, t) refl
strcmp_loop-order (suc rounds) m a b [] (y ∷ ys) s t f = rw (s, t.0) (ap ok (ground (arith, t.1)))
strcmp_loop-order (suc rounds) m a b (x ∷ xs) [] s t f =
    rw (s.0, t, ne→== x 0 s.1) (ap ok (ground (arith, s.1)))
strcmp_loop-order (suc rounds) m a b (x ∷ xs) (y ∷ ys) s t f =
    let step = strcmp_loop-order rounds m (a + 1) (b + 1) xs ys s.2 t.2 (omega (arith, f)) in
    elim (Bool-cases (x == y)) [
      | inl e ↦ rw (s.0, t.0, ne→== x 0 s.1, e) step
      | inr e ↦ rw (s.0, t.0, ne→== x 0 s.1, e) (ap ok (ground (arith, e)))
    ]

order-eq : (xs ys : List ℕ) → (order xs ys ≡ 0) ↔ (xs ≡ ys)
order-eq [] [] = (λ e. refl, λ e. refl)
order-eq [] (y ∷ ys) = (λ e. absurd (omega (arith, e)), λ e. absurd (cc e))
order-eq (x ∷ xs) [] = (λ e. absurd (omega (arith, e)), λ e. absurd (cc e))
order-eq (x ∷ xs) (y ∷ ys) = elim (Bool-cases (x == y)) [
  | inl e ↦ let r = order-eq xs ys in rw e (λ p. cc (r.0 p, ==→eq x y e), λ q. r.1 (cc q))
  | inr e ↦
      rw e (
        λ p. absurd (ground (arith, p)),
        λ q. let h : x ≡ y = cc q in absurd (ground (arith, h, e)),
      )
]

-- `strcmp` returns the order of two strings by their first characters that differ, which is zero for
-- equal strings alone, after at most one round more than the first has characters.
pub strcmp-order :
    (rounds : ℕ) (m : Memory) (a b : ℕ) (xs ys : List ℕ)
    → a ≢ null
    → b ≢ null
    → IsString m a xs
    → IsString m b ys
    → length xs < rounds
    → (strcmp rounds m a b ≡ ok (order xs ys)) × ((order xs ys ≡ 0) ↔ (xs ≡ ys))
unfolding strcmp
strcmp-order rounds m a b xs ys na nb s t f = (
  rw (ne→== a null na, ne→== b null nb) (strcmp_loop-order rounds m a b xs ys s t f),
  order-eq xs ys,
)
