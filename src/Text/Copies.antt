-- ===== src/Text/Copies.antt =====
-- `strlcpy` and `strlcat` of lib/string.c: copies of strings into buffers of bounded size.
use project.Base.{
  ℕ, zero, suc, ◌+◌, ◌-◌, ◌<◌, ◌≤◌, ◌≡◌, ◌≢◌, ◌⊎◌, inl, inr, refl, sym, ap, subst, ◌∙◌, not, ◌&&◌,
  arith, List, [], ◌∷◌, ◌++◌, length, take, Outcome, ok, panic, assert, ◌>>=◌, ◌>>◌, ◌==◌, ltb, leb,
  if◌then◌else◌, Bool-cases, ne→==, lt→ltb,
}
use project.Paging.{null}
use project.Text.{Memory, store, memcpy, memcmp, strlen}
use project.Text.Blocks.{memcpy-moved}
use project.Text.Strings.{IsString, strlen-length}

-- the loop of `strnlen`
unfoldable pub strnlen_loop : (rounds : ℕ) → Memory → (string maxlen length : ℕ) → Outcome ℕ
strnlen_loop zero m string maxlen length = panic
strnlen_loop (suc rounds) m string maxlen length =
    let rest = strnlen_loop rounds m string maxlen (length + 1) in
    if not (m (string + length) == 0) && ltb length maxlen then rest else ok length

unfoldable pub strnlen : (rounds : ℕ) → Memory → (string maxlen : ℕ) → Outcome ℕ
unfolding strnlen_loop
strnlen rounds m string maxlen = strnlen_loop rounds m string maxlen 0

-- The block under `if (size > 0)`: `memcpy` of as much as there is room for, and a zero.
unfoldable pub copy_within : Memory → (dst src src_len room : ℕ) → Outcome Memory
unfolding memcpy
copy_within m dst src src_len room = do
  let dst_len = if ltb src_len room then src_len else room
  (_, m') ← memcpy m dst src dst_len
  ok (store m' (dst + dst_len) 0)

unfoldable pub strlcpy : (rounds : ℕ) → Memory → (dst src size : ℕ) → Outcome (ℕ × Memory)
strlcpy rounds m dst src size = do
  assert (not (dst == null))
  assert (not (src == null))
  src_len ← strlen rounds m src
  let copy = (do m' ← copy_within m dst src src_len (size - 1); ok (src_len, m'))
  if ltb 0 size then copy else ok (src_len, m)

unfoldable pub strlcat : (rounds : ℕ) → Memory → (dst src size : ℕ) → Outcome (ℕ × Memory)
strlcat rounds m dst src size = do
  assert (not (dst == null))
  assert (not (src == null))
  src_len ← strlen rounds m src
  dst_len ← strlen rounds m dst
  let copy = (do
    m' ← copy_within m (dst + dst_len) src src_len (size - dst_len - 1)
    ok (src_len + dst_len, m'))
  if ltb 0 size && ltb dst_len size then copy else ok (src_len + dst_len, m)

unfoldable pub strstr_loop : (rounds : ℕ) → Memory → (haystack needle needle_len i : ℕ) → Outcome ℕ
unfolding memcmp
strstr_loop zero m haystack needle needle_len i = ok null
strstr_loop (suc rounds) m haystack needle needle_len i = do
  differs ← memcmp m (haystack + i) needle needle_len
  let rest = strstr_loop rounds m haystack needle needle_len (i + 1)
  if differs == 0 then ok (haystack + i) else rest

-- `strstr`, whose own loop runs from 0 to the difference of the lengths
unfoldable pub strstr : (rounds : ℕ) → Memory → (haystack needle : ℕ) → Outcome ℕ
strstr rounds m haystack needle = do
  haystack_len ← strlen rounds m haystack
  needle_len ← strlen rounds m needle
  let search = strstr_loop (suc (haystack_len - needle_len)) m haystack needle needle_len 0
  if leb needle_len haystack_len then search else ok null

-- the start of a string is a string once a zero ends it
prefix-IsString :
    (m m' : Memory) (src dst : ℕ) (xs : List ℕ) (n : ℕ)
    → IsString m src xs
    → n ≤ length xs
    → ((k : ℕ) → k < n → m' (dst + k) ≡ m (src + k))
    → m' (dst + n) ≡ 0
    → IsString m' dst (take n xs)
prefix-IsString m m' src dst xs zero s h c z = ap m' (omega arith) ∙ z
prefix-IsString m m' src dst [] (suc n) s h c z = absurd (omega (arith, h))
prefix-IsString m m' src dst (x ∷ xs) (suc n) s h c z = (
  ap m' (omega arith) ∙ c 0 (omega arith) ∙ ap m (omega arith) ∙ s.0,
  s.1,
  prefix-IsString m m' (src + 1) (dst + 1) xs n s.2 (omega (arith, h))
      (λ k b. ap m' (omega arith) ∙ c (k + 1) (omega (arith, b)) ∙ ap m (omega arith))
      (ap m' (omega arith) ∙ z),
)

take_all : (xs : List ℕ) (n : ℕ) → length xs ≤ n → take n xs ≡ take (length xs) xs
take_all [] zero h = refl
take_all [] (suc n) h = refl
take_all (x ∷ xs) zero h = absurd (omega (arith, h))
take_all (x ∷ xs) (suc n) h = ap (λ r. x ∷ r) (take_all xs n (omega (arith, h)))

take_short :
    (room : ℕ) (xs : List ℕ)
    → take (if ltb (length xs) room then length xs else room) xs ≡ take room xs
take_short room xs = elim (Bool-cases (ltb (length xs) room)) [
  | inl c ↦ rw c (sym (take_all xs room (ground (arith, c))))
  | inr c ↦ rw c refl
]

-- As much of a string as there is room for, with a zero behind it, and nothing else is written.
copy_within-IsString :
    (m : Memory) (dst src room : ℕ) (xs : List ℕ)
    → dst ≢ null
    → src ≢ null
    → IsString m src xs
    → (dst + room < src) ⊎ (src + length xs < dst)
    → (m' : Memory) × (copy_within m dst src (length xs) room ≡ ok m')
      × IsString m' dst (take room xs)
      × ((a : ℕ) → (a < dst) ⊎ (dst + room < a) → m' a ≡ m a)
unfolding copy_within
copy_within-IsString m dst src room xs nd ns s apart =
    let n = if ltb (length xs) room then length xs else room in
    let r =
      memcpy-moved m dst src n (inl nd) (inl ns)
        (elim apart [ inl b ↦ inl (ground (arith, b)) | inr b ↦ inr (ground (arith, b)) ]) in
    (
      store r.0 (dst + n) 0,
      rw r.1 refl,
      subst (IsString (store r.0 (dst + n) 0) dst) (take_short room xs) (
          prefix-IsString m (store r.0 (dst + n) 0) src dst xs n s (ground (arith))
            (λ k b. ground (arith, b, r.2 (dst + k))) (ground arith)),
      λ a h. ground (arith, h, r.2 a),
    )

-- `strlcpy` returns the length of the string at `src`, leaves as many of its characters at `dst` as
-- fit into `size` bytes with a zero behind them (nothing for a size of 0), and writes no byte
-- outside these, where the two blocks do not overlap.
pub strlcpy-IsString :
    (rounds : ℕ) (m : Memory) (dst src size : ℕ) (xs : List ℕ)
    → dst ≢ null
    → src ≢ null
    → IsString m src xs
    → length xs < rounds
    → (dst + size ≤ src) ⊎ (src + length xs < dst)
    → (m' : Memory) × (strlcpy rounds m dst src size ≡ ok (length xs, m'))
      × (0 < size → IsString m' dst (take (size - 1) xs))
      × ((a : ℕ) → (a < dst) ⊎ (dst + size ≤ a) → m' a ≡ m a)
unfolding strlcpy
strlcpy-IsString rounds m dst src zero xs nd ns s f apart = (
  m,
  rw (ne→== dst null nd, ne→== src null ns, strlen-length rounds m src xs ns s f) refl,
  λ h. absurd (omega (arith, h)),
  λ a h. refl,
)
strlcpy-IsString rounds m dst src (suc size) xs nd ns s f apart =
    let r =
      copy_within-IsString m dst src (suc size - 1) xs nd ns s
        (elim apart [ inl b ↦ inl (omega (arith, b)) | inr b ↦ inr b ]) in
    (
      r.0,
      rw
          (
            ne→== dst null nd,
            ne→== src null ns,
            strlen-length rounds m src xs ns s f,
            lt→ltb 0 (suc size) (omega arith),
            r.1,
          )
          refl,
      λ h. r.2,
      λ a h. r.3 a (elim h [ inl b ↦ inl b | inr b ↦ inr (omega (arith, b)) ]),
    )

append-IsString :
    (m m' : Memory) (dst : ℕ) (ys xs : List ℕ)
    → IsString m dst ys
    → ((a : ℕ) → a < dst + length ys → m' a ≡ m a)
    → IsString m' (dst + length ys) xs
    → IsString m' dst (ys ++ xs)
append-IsString m m' dst [] xs s c t = subst (λ p. IsString m' p xs) (omega arith) t
append-IsString m m' dst (y ∷ ys) xs s c t = (
  c dst (omega arith) ∙ s.0,
  s.1,
  append-IsString m m' (dst + 1) ys xs s.2 (λ a h. c a (omega (arith, h)))
      (subst (λ p. IsString m' p xs) (omega arith) t),
)

-- `strlcat` returns the sum of the two lengths and, if the string at `dst` is shorter than `size`,
-- leaves behind it as many characters of the other as fit into `size` bytes with a zero behind them;
-- it writes no byte outside these, where the two blocks do not overlap.
pub strlcat-IsString :
    (rounds : ℕ) (m : Memory) (dst src size : ℕ) (ys xs : List ℕ)
    → dst ≢ null
    → src ≢ null
    → IsString m src xs
    → IsString m dst ys
    → length xs < rounds
    → length ys < rounds
    → length ys < size
    → (dst + size ≤ src) ⊎ (src + length xs < dst + length ys)
    → (m' : Memory) × (strlcat rounds m dst src size ≡ ok (length xs + length ys, m'))
      × IsString m' dst (ys ++ take (size - length ys - 1) xs)
      × ((a : ℕ) → (a < dst + length ys) ⊎ (dst + size ≤ a) → m' a ≡ m a)
unfolding strlcat
strlcat-IsString rounds m dst src size ys xs nd ns s t f g b apart =
    let n = length ys in
    let r =
      copy_within-IsString m (dst + n) src (size - n - 1) xs (omega (arith, nd)) ns s
        (elim apart [ inl c ↦ inl (omega (arith, b, c)) | inr c ↦ inr c ]) in
    (
      r.0,
      rw
          (
            ne→== dst null nd,
            ne→== src null ns,
            strlen-length rounds m src xs ns s f,
            strlen-length rounds m dst ys nd t g,
            lt→ltb 0 size (omega (arith, b)),
            lt→ltb n size b,
            r.1,
          )
          refl,
      append-IsString m r.0 dst ys (take (size - n - 1) xs) t (λ a h. r.3 a (inl h)) r.2,
      λ a h. r.3 a (elim h [ inl c ↦ inl c | inr c ↦ inr (omega (arith, b, c)) ]),
    )
