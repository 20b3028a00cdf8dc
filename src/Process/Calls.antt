-- ===== src/Process/Calls.antt =====
-- The calls of `setup_stack` in userprog/process.c, one after the other, and strings where other memory
-- changes.
use project.Base.{
  ℕ, zero, suc, ◌+◌, ◌-◌, ◌*◌, ◌<◌, ◌≤◌, ◌≡◌, ◌≢◌, refl, sym, ap, ◌∙◌, true, false, arith, List, [],
  ◌∷◌, length, take, none, some, ok, exit, minus, ltb, ne→==, lt→ltb,
}
use project.Palloc.{Pools, palloc_free_page}
use project.Paging.{phys_base}
use project.Text.{Memory, strlen}
use project.Text.Strings.{IsString}
use project.Text.Copies.{strlcpy}
use project.Process.Arguments.{
  space, array_size, avail_stack_space, stack_page, Args, skip_spaces, split_loop, push_all,
  start_arguments, setup_arguments,
}
use project.Process.Parsing.{Words, Placed, IsString-frame}

pub Placed-frame :
    (m m' : Memory) (addresses : ℕ → ℕ) (low i : ℕ) (rest : Words)
    → ((a : ℕ) → low ≤ a → m' a ≡ m a)
    → ((j : ℕ) → low ≤ addresses j)
    → Placed m addresses i rest
    → Placed m' addresses i rest
Placed-frame m m' addresses low i [] h b p = tt
Placed-frame m m' addresses low i ((gap, word) ∷ rest) h b p = (
  IsString-frame m m' (addresses i) word (λ a c. h a (omega (arith, c, b i))) p.0,
  Placed-frame m m' addresses low (i + 1) rest h b p.1,
)

pub take_length : (xs : List ℕ) → take (length xs + 1 - 1) xs ≡ xs
take_length xs = ap (λ n. take n xs) (omega arith) ∙ all xs
  where
    all : (xs : List ℕ) → take (length xs) xs ≡ xs
    all [] = refl
    all (x ∷ xs) = ap (λ r. x ∷ r) (all xs)

-- The first word stands at the start of a line.
pub skip_spaces-word :
    (rounds : ℕ) (m : Memory) (p x : ℕ)
    → m p ≡ x
    → x ≢ space
    → 0 < rounds
    → skip_spaces rounds m p ≡ ok p
unfolding skip_spaces
skip_spaces-word zero m p x e n f = absurd (omega (arith, f))
skip_spaces-word (suc rounds) m p x e n f = rw (ne→== (m p) space (λ z. n (sym e ∙ z))) refl

-- a string below `limit`, where the memory there is the same
pub IsString-below :
    (m m' : Memory) (p limit : ℕ) (xs : List ℕ)
    → p + length xs < limit
    → ((a : ℕ) → a < limit → m' a ≡ m a)
    → IsString m p xs
    → IsString m' p xs
IsString-below m m' p limit [] b h s = h p (omega (arith, b)) ∙ s
IsString-below m m' p limit (x ∷ xs) b h s = (
  h p (omega (arith, b)) ∙ s.0,
  s.1,
  IsString-below m m' (p + 1) limit xs (omega (arith, b)) h s.2,
)

-- the calls of `setup_stack`, one after the other
pub setup_arguments-run :
    (rounds : ℕ) (p p1 : Pools) (m1 : Memory) (fn_copy n : ℕ) (st : Args)
    → let top = phys_base - (n + 1) in
      strlen rounds p.memory fn_copy ≡ ok n
      → strlcpy rounds p.memory top fn_copy (n + 1) ≡ ok (n, m1)
      → palloc_free_page (record p { memory = m1 }) fn_copy ≡ ok p1
      → skip_spaces rounds p1.memory top ≡ ok top
      → split_loop rounds (record { argc = 1; addresses = λ _. top; memory = p1.memory }) top
        ≡ ok st
      → n + 1 ≤ avail_stack_space
      → setup_arguments rounds p fn_copy ≡ start_arguments p1 st top (n + 1)
unfolding setup_arguments
setup_arguments-run rounds p p1 m1 fn_copy n st len copy free skip split fit =
    let short : ltb avail_stack_space (n + 1) ≡ false = ground (arith, fit) in
    rw (len, short, copy, free, skip, split) refl

pub setup_arguments-long :
    (rounds : ℕ) (p : Pools) (fn_copy n : ℕ)
    → strlen rounds p.memory fn_copy ≡ ok n
    → avail_stack_space < n + 1
    → setup_arguments rounds p fn_copy ≡ ok none
unfolding setup_arguments
setup_arguments-long rounds p fn_copy n len long =
    let too_long : ltb avail_stack_space (n + 1) ≡ true = ground (arith, long) in
    rw (len, too_long) refl

module _ (p : Pools) (st : Args) (top n : ℕ) where
  pub start_arguments-none :
      n ≤ avail_stack_space
      → avail_stack_space < n + 4 * st.argc
      → start_arguments p st top n ≡ ok none
  unfolding start_arguments
  start_arguments-none short long =
      let full : ltb (avail_stack_space - n) (st.argc * 4) ≡ true = ground (arith, short, long) in
      rw full refl

  module _ (few : st.argc < array_size) (fit : n + 4 * st.argc ≤ avail_stack_space) where
    room : ltb (avail_stack_space - n) (st.argc * 4) ≡ false
    room = ground (arith, fit)

    pub start_arguments-exit :
        (push_all st top).0 < stack_page → start_arguments p st top n ≡ exit (minus 1)
    unfolding start_arguments
    start_arguments-exit below =
        rw (room, lt→ltb st.argc array_size few, lt→ltb (push_all st top).0 stack_page below) refl

    pub start_arguments-ok :
        stack_page ≤ (push_all st top).0
        → start_arguments p st top n
          ≡ ok (some ((push_all st top).0, record p { memory = (push_all st top).1 }))
    unfolding start_arguments
    start_arguments-ok above =
        let inside : ltb (push_all st top).0 stack_page ≡ false = ground (arith, above) in
        rw (room, lt→ltb st.argc array_size few, inside) refl
