-- ===== src/Process/Parsing.antt =====
-- The loop of `setup_stack` in userprog/process.c that splits a command line into arguments.
use project.Base.{
  ℕ, zero, suc, ◌+◌, ◌-◌, ◌<◌, ◌≤◌, ◌≡◌, ◌≢◌, refl, sym, ap, subst, ◌∙◌, false, arith, List, [],
  ◌∷◌, ◌++◌, length, replicate, ok, ◌==◌, ltb, if◌then◌else◌, eq→==, ne→==, lt→ltb, length-append,
  length-replicate, ℕ_discrete,
}
use project.Paging.{phys_base}
use project.Text.{Memory, store}
use project.Text.Strings.{IsString}
use project.Process.Arguments.{space, array_size, skip_spaces, Args, split_here, split_loop}

-- the characters of a word: none a space, none the end of a string
abbrev pub IsWord : List ℕ → Type 0
IsWord [] = Unit
IsWord (x ∷ xs) = (x ≢ space) × (x ≢ 0) × IsWord xs

-- what follows the first word of a command line: words, each behind one space and `gap` more
abbrev pub Words : Type 0
Words = List (ℕ × List ℕ)

abbrev pub line : Words → List ℕ
line [] = []
line ((gap, word) ∷ rest) = space ∷ (replicate gap space ++ (word ++ line rest))

abbrev pub IsLine : Words → Type 0
IsLine [] = Unit
IsLine ((gap, word) ∷ rest) = IsWord word × (0 < length word) × IsLine rest

-- the words stand as strings at the addresses from index `i` on
abbrev pub Placed : Memory → (addresses : ℕ → ℕ) → (i : ℕ) → Words → Type 0
Placed m addresses i [] = Unit
Placed m addresses i ((gap, word) ∷ rest) =
    IsString m (addresses i) word × Placed m addresses (i + 1) rest

-- The string at `p` without its first characters.
IsString-append :
    (m : Memory) (p : ℕ) (xs ys : List ℕ) → IsString m p (xs ++ ys) → IsString m (p + length xs) ys
IsString-append m p [] ys s = subst (λ q. IsString m q ys) (omega arith) s
IsString-append m p (x ∷ xs) ys s =
    subst (λ q. IsString m q ys) (omega arith) (IsString-append m (p + 1) xs ys s.2)

-- a string where the memory is the same up to its end
pub IsString-frame :
    (m m' : Memory) (p : ℕ) (xs : List ℕ)
    → ((a : ℕ) → p ≤ a → m' a ≡ m a)
    → IsString m p xs
    → IsString m' p xs
IsString-frame m m' p [] h s = h p (omega arith) ∙ s
IsString-frame m m' p (x ∷ xs) h s = (
  h p (omega arith) ∙ s.0,
  s.1,
  IsString-frame m m' (p + 1) xs (λ a b. h a (omega (arith, b))) s.2,
)

-- `skip_spaces` stops behind the spaces.
skip_spaces-replicate :
    (gap rounds : ℕ) (m : Memory) (p : ℕ) (ys : List ℕ)
    → IsString m p (replicate gap space ++ ys)
    → m (p + gap) ≢ space
    → gap < rounds
    → skip_spaces rounds m p ≡ ok (p + gap)
unfolding skip_spaces
skip_spaces-replicate gap zero m p ys s n f = absurd (omega (arith, f))
skip_spaces-replicate zero (suc rounds) m p ys s n f =
    let here : p + 0 ≡ p = omega arith in
    rw (ne→== (m p) space (λ e. n (ap m here ∙ e))) (ap ok (sym here))
skip_spaces-replicate (suc gap) (suc rounds) m p ys s n f =
    let next : p + 1 + gap ≡ p + suc gap = omega arith in
    rw (eq→== (m p) space s.0) (
      skip_spaces-replicate gap rounds m (p + 1) ys s.2 (λ e. n (ap m (sym next) ∙ e))
        (omega (arith, f))
      ∙ ap ok next)

ltb_end : (p q : ℕ) → p ≡ q → ltb p q ≡ false
ltb_end p q e = ground (arith, e)

-- what the loop leaves from the word at `p` on
pub record IsSplit (st st' : Args) (p : ℕ) (word : List ℕ) (rest : Words) : Type 0 where
  pub count : st'.argc ≡ st.argc + length rest
  pub first : IsString st'.memory p word
  pub others : Placed st'.memory st'.addresses st.argc rest
  pub earlier : (i : ℕ) → i < st.argc → st'.addresses i ≡ st.addresses i
  pub below : (a : ℕ) → a < p → st'.memory a ≡ st.memory a
  pub within :
      (low : ℕ)
      → low ≤ p
      → ((i : ℕ) → (low ≤ st.addresses i) × (st.addresses i < phys_base))
      → (i : ℕ) → (low ≤ st'.addresses i) × (st'.addresses i < phys_base)

-- the state behind a space at `p`, with the next word at `q`
abbrev pub next_word : Args → (p q : ℕ) → Args
next_word st p q = record {
  argc = st.argc + 1;
  addresses = λ i. if i == st.argc then q else st.addresses i;
  memory = store st.memory p 0;
}

-- the string behind the spaces at `p`, once a zero is there
later :
    (m : Memory) (p gap : ℕ) (ys : List ℕ)
    → IsString m p (space ∷ (replicate gap space ++ ys))
    → IsString (store m p 0) (p + 1 + gap) ys
later m p gap ys s =
    IsString-frame m (store m p 0) (p + 1 + gap) ys (λ a h. ground (arith, h))
      (subst (λ n. IsString m (p + 1 + n) ys) (length-replicate gap space)
        (IsString-append m (p + 1) (replicate gap space) ys s.2))

split_here-next_word :
    (rounds : ℕ) (st : Args) (p gap y : ℕ) (ys : List ℕ)
    → IsString st.memory p (space ∷ (replicate gap space ++ (y ∷ ys)))
    → y ≢ space
    → y ≢ 0
    → st.argc < array_size
    → gap < rounds
    → split_here rounds st p ≡ ok (p + 1 + gap, next_word st p (p + 1 + gap))
unfolding split_here
split_here-next_word rounds st p gap y ys s n z b f =
    let q = p + 1 + gap in
    let m = store st.memory p 0 in
    let at : m q ≡ y = (later st.memory p gap (y ∷ ys) s).0 in
    let spaces =
      IsString-frame st.memory m (p + 1) (replicate gap space ++ (y ∷ ys))
        (λ a h. ground (arith, h)) s.2 in
    let count : st.argc + 1 - 1 ≡ st.argc = omega arith in
    rw
      (
        skip_spaces-replicate gap rounds m (p + 1) (y ∷ ys) spaces (λ e. n (sym at ∙ e)) f,
        ne→== (m q) 0 (λ e. z (sym at ∙ e)),
        count,
        lt→ltb st.argc array_size b,
      )
      refl

split_loop-step :
    (rounds : ℕ) (st st1 : Args) (p q : ℕ)
    → p < phys_base
    → st.memory p ≡ space
    → split_here rounds st p ≡ ok (q, st1)
    → split_loop (suc rounds) st p ≡ split_loop rounds st1 q
unfolding split_loop
split_loop-step rounds st st1 p q h e r =
    rw (lt→ltb p phys_base h, eq→== (st.memory p) space e, r) refl

gap_length : (gap : ℕ) (ys : List ℕ) → length (replicate gap space ++ ys) ≡ gap + length ys
gap_length gap ys =
    length-append (replicate gap space) ys ∙ ap (λ n. n + length ys) (length-replicate gap space)

pub split_loop-IsSplit :
    (rounds : ℕ) (st : Args) (p : ℕ) (word : List ℕ) (rest : Words)
    → IsWord word
    → IsLine rest
    → IsString st.memory p (word ++ line rest)
    → p + length (word ++ line rest) + 1 ≡ phys_base
    → 0 < st.argc
    → st.argc + length rest ≤ array_size
    → length (word ++ line rest) + 1 < rounds
    → (st' : Args) × (split_loop rounds st p ≡ ok st') × IsSplit st st' p word rest
unfolding split_loop
split_loop-IsSplit zero st p word rest w l s e a b f = absurd (omega (arith, f))
split_loop-IsSplit (suc zero) st p [] [] w l s e a b f = absurd (omega (arith, f))
split_loop-IsSplit (suc (suc rounds)) st p [] [] w l s e a b f = (
  st,
  rw
      (
        lt→ltb p phys_base (omega (arith, e)),
        ne→== (st.memory p) space (λ z. ground (arith, s, z)),
        ltb_end (p + 1) phys_base (omega (arith, e)),
      )
      refl,
  record {
    count = omega arith;
    first = s;
    others = tt;
    earlier = λ i h. refl;
    below = λ i h. refl;
    within = λ low b h. h;
  },
)
split_loop-IsSplit (suc rounds) st p (x ∷ word) rest w l s e a b f =
    let r =
      split_loop-IsSplit rounds st (p + 1) word rest w.2 l s.2 (omega (arith, e)) a b
        (omega (arith, f)) in
    (
      r.0,
      rw (lt→ltb p phys_base (omega (arith, e)), ne→== (st.memory p) space (λ z. w.0 (sym s.0 ∙ z)))
          r.1,
      record {
        count = r.2.count;
        first = (r.2.below p (omega arith) ∙ s.0, w.1, r.2.first);
        others = r.2.others;
        earlier = r.2.earlier;
        below = λ i h. r.2.below i (omega (arith, h));
        within = λ low c h. r.2.within low (omega (arith, c)) h;
      },
    )
split_loop-IsSplit (suc rounds) st p [] ((gap, []) ∷ rest) w l s e a b f =
    absurd (omega (arith, l.1))
split_loop-IsSplit (suc rounds) st p [] ((gap, y ∷ ys) ∷ rest) w l s e a b f =
    let q = p + 1 + gap in
    let word = y ∷ ys in
    let st1 = next_word st p q in
    let tail = later st.memory p gap (word ++ line rest) s in
    let long = gap_length gap (word ++ line rest) in
    let r =
      split_loop-IsSplit rounds st1 q word rest l.0 l.2 tail (omega (arith, e, long)) (omega arith)
        (omega (arith, b)) (omega (arith, f, long)) in
    let index : st.argc < st.argc + 1 = omega arith in
    (
      r.0,
      split_loop-step rounds st st1 p q (omega (arith, e)) s.0 (
            split_here-next_word rounds st p gap y (ys ++ line rest) s l.0.0 l.0.1
              (omega (arith, b)) (omega (arith, f, long)))
          ∙ r.1,
      record {
        count = omega (arith, r.2.count);
        first = r.2.below p (omega arith) ∙ ground arith;
        others = (
          subst (λ z. IsString r.0.memory z word) (sym (r.2.earlier st.argc index ∙ ground arith))
              r.2.first,
          r.2.others,
        );
        earlier = λ i h. r.2.earlier i (omega (arith, h)) ∙ ground (arith, h);
        below = λ i h. r.2.below i (omega (arith, h)) ∙ ground (arith, h);
        within = λ low c h. r.2.within low (omega (arith, c)) (λ i. elim (ℕ_discrete i st.argc) [
          | yes e' ↦ rw (eq→== i st.argc e') (omega (arith, c), omega (arith, e, long))
          | no n ↦ rw (ne→== i st.argc n) (h i)
        ]);
      },
    )
