-- ===== src/Process/Stack.antt =====
-- The words that `setup_stack` of userprog/process.c puts below the command line.
use project.Base.{
  ℕ, zero, suc, ◌+◌, ◌-◌, ◌*◌, ◌/◌, ◌%◌, ◌^◌, ◌<◌, ◌≤◌, ◌≡◌, ◌⊎◌, inl, inr, refl, sym, ap, ◌∙◌,
  arith, ◌==◌, if◌then◌else◌, Bool-cases, ℕ_discrete,
}
use project.Text.{Memory, store}
use project.Process.Arguments.{Args, put_int, align_loop, push_loop, push_header, push_all}

-- the `int` at an address
abbrev pub get_int : Memory → (at : ℕ) → ℕ
get_int m at = m at + 2 ^ 8 * m (at + 1) + 2 ^ 16 * m (at + 2) + 2 ^ 24 * m (at + 3)

put_int-other : (m : Memory) (at value b : ℕ) → (b < at) ⊎ (at + 4 ≤ b) → put_int m at value b ≡ m b
unfolding put_int
put_int-other m at value b h = ground (arith, h)

get_int-put_int :
    (m : Memory) (at value : ℕ) → value < 2 ^ 32 → get_int (put_int m at value) at ≡ value
unfolding put_int
get_int-put_int m at value h =
    let p0 : put_int m at value at ≡ value % 256 = ground arith in
    let p1 : put_int m at value (at + 1) ≡ value / 2 ^ 8 % 256 = ground arith in
    let p2 : put_int m at value (at + 2) ≡ value / 2 ^ 16 % 256 = ground arith in
    let p3 : put_int m at value (at + 3) ≡ value / 2 ^ 24 % 256 = ground arith in
    omega (arith, h, p0, p1, p2, p3)

get_int_frame :
    (m m' : Memory) (at : ℕ)
    → ((b : ℕ) → at ≤ b → b < at + 4 → m' b ≡ m b)
    → get_int m' at ≡ get_int m at
get_int_frame m m' at h = omega (
  arith,
  h at (omega arith) (omega arith),
  h (at + 1) (omega arith) (omega arith),
  h (at + 2) (omega arith) (omega arith),
  h (at + 3) (omega arith) (omega arith),
)

align_loop-esp : (m : Memory) (esp : ℕ) → (align_loop 3 m esp).0 ≡ esp - esp % 4
unfolding align_loop
align_loop-esp m esp = ground arith

align_loop-above :
    (rounds : ℕ) (m : Memory) (esp a : ℕ) → esp ≤ a → (align_loop rounds m esp).1 a ≡ m a
unfolding align_loop
align_loop-above zero m esp a h = refl
align_loop-above (suc rounds) m esp a h = elim (Bool-cases (esp % 4 == 0)) [
  | inl e ↦ rw e refl
  | inr e ↦ rw e (
      align_loop-above rounds (store m (esp - 1) 0) (esp - 1) a (omega (arith, h))
      ∙ ground (arith, e, h))
]

-- what the loop that pushes the addresses leaves
pub record IsPushed (m m' : Memory) (addresses : ℕ → ℕ) (count esp : ℕ) : Type 0 where
  pub ints : (i : ℕ) → i < count → get_int m' (esp - 4 * count + 4 * i) ≡ addresses i
  pub others : (a : ℕ) → (a < esp - 4 * count) ⊎ (esp ≤ a) → m' a ≡ m a

push_loop-IsPushed :
    (count : ℕ) (addresses : ℕ → ℕ) (m : Memory) (esp : ℕ)
    → ((i : ℕ) → addresses i < 2 ^ 32)
    → 4 * count ≤ esp
    → ((push_loop count addresses m esp).0 ≡ esp - 4 * count)
      × IsPushed m (push_loop count addresses m esp).1 addresses count esp
unfolding push_loop
push_loop-IsPushed zero addresses m esp w h =
    (omega arith, record { ints = λ i b. absurd (omega (arith, b)); others = λ a b. refl })
push_loop-IsPushed (suc index) addresses m esp w h =
    let m1 = put_int m (esp - 4) (addresses index) in
    let r = push_loop-IsPushed index addresses m1 (esp - 4) w (omega (arith, h)) in
    (
      r.0 ∙ omega (arith, h),
      record {
        ints = λ i b. elim (ℕ_discrete i index) [
          | yes e ↦
              let at : esp - 4 * suc index + 4 * i ≡ esp - 4 = omega (arith, e, h) in
              let m' = (push_loop index addresses m1 (esp - 4)).1 in
              ap (get_int m') at
              ∙ get_int_frame m1 m' (esp - 4) (λ a c d. r.1.others a (inr c))
              ∙ get_int-put_int m (esp - 4) (addresses index) (w index)
              ∙ ap addresses (sym e)
          | no n ↦
              let at : esp - 4 * suc index + 4 * i ≡ esp - 4 - 4 * index + 4 * i = omega arith in
              ap (get_int (push_loop index addresses m1 (esp - 4)).1) at
              ∙ r.1.ints i (omega (arith, b, n))
        ];
        others = λ a b.
            r.1.others a
              (elim b [ inl c ↦ inl (omega (arith, c, h)) | inr c ↦ inr (omega (arith, c, h)) ])
            ∙ put_int-other m (esp - 4) (addresses index) a
                (elim b [ inl c ↦ inl (omega (arith, c, h)) | inr c ↦ inr (omega (arith, c, h)) ]);
      },
    )

-- The stack as a program finds it at `esp`: a return address, `argc`, `argv` and the words of `argv`,
-- which end in a null pointer, all on a boundary of 4 bytes below `top`.
pub record IsStack (m : Memory) (esp top argc : ℕ) (addresses : ℕ → ℕ) : Type 0 where
  pub place : esp ≡ top - top % 4 - 4 * (argc + 1) - 12
  pub aligned : esp % 4 ≡ 0
  pub return_address : get_int m esp ≡ 0
  pub count : get_int m (esp + 4) ≡ argc
  pub argv : get_int m (esp + 8) ≡ esp + 12
  pub args : (i : ℕ) → i < argc → get_int m (esp + 12 + 4 * i) ≡ addresses i
  pub end : get_int m (esp + 12 + 4 * argc) ≡ 0

-- the three words below `argv`
push_header-ints :
    (m : Memory) (argv argc : ℕ)
    → 12 ≤ argv
    → argv < 2 ^ 32
    → argc < 2 ^ 32
    → let m' = push_header m argv argc in
      (get_int m' (argv - 12) ≡ 0)
      × (get_int m' (argv - 8) ≡ argc)
      × (get_int m' (argv - 4) ≡ argv)
      × ((a : ℕ) → argv ≤ a → m' a ≡ m a)
unfolding push_header
push_header-ints m argv argc h w c =
    let m1 = put_int m (argv - 4) argv in
    let m2 = put_int m1 (argv - 8) argc in
    let m3 = put_int m2 (argv - 12) 0 in
    let o2 = λ (a : ℕ) (b : argv - 4 ≤ a).
      put_int-other m1 (argv - 8) argc a (inr (omega (arith, b, h))) in
    let o3 =
      λ (a : ℕ) (b : argv - 8 ≤ a). put_int-other m2 (argv - 12) 0 a (inr (omega (arith, b, h))) in
    (
      get_int-put_int m2 (argv - 12) 0 (omega arith),
      get_int_frame m2 m3 (argv - 8) (λ a b _. o3 a b) ∙ get_int-put_int m1 (argv - 8) argc c,
      get_int_frame m1 m3 (argv - 4) (λ a b _. o3 a (omega (arith, b)) ∙ o2 a b)
          ∙ get_int-put_int m (argv - 4) argv w,
      λ a b.
          o3 a (omega (arith, b))
          ∙ o2 a (omega (arith, b))
          ∙ put_int-other m (argv - 4) argv a (inr (omega (arith, b, h))),
    )

-- Below the command line at `esp` go the addresses of the arguments, `argv`, `argc` and a return
-- address, and nothing above `esp` changes.
pub push_all-IsStack :
    (st : Args) (esp : ℕ)
    → ((i : ℕ) → st.addresses i < 2 ^ 32)
    → st.argc < 2 ^ 32
    → esp < 2 ^ 32
    → 4 * st.argc + 20 ≤ esp
    → let r = push_all st esp in
      IsStack r.1 r.0 esp st.argc st.addresses × ((a : ℕ) → esp ≤ a → r.1 a ≡ st.memory a)
unfolding push_all
push_all-IsStack st esp w c e h =
    let addresses : ℕ → ℕ = λ i. if i == st.argc then 0 else st.addresses i in
    let al = align_loop 3 st.memory esp in
    let same = align_loop-esp st.memory esp in
    let p =
      push_loop-IsPushed (suc st.argc) addresses al.1 al.0 (λ i. ground (arith, w i))
        (omega (arith, same, h)) in
    let pushed = push_loop (suc st.argc) addresses al.1 al.0 in
    let argv = pushed.0 in
    let k =
      push_header-ints pushed.1 argv st.argc (omega (arith, p.0, same, h))
        (omega (arith, p.0, same, e)) c in
    let r = push_header pushed.1 argv st.argc in
    let at1 : argv - 12 + 4 ≡ argv - 8 = omega (arith, p.0, same, h) in
    let at2 : argv - 12 + 8 ≡ argv - 4 = omega (arith, p.0, same, h) in
    let back : argv - 12 + 12 ≡ argv = omega (arith, p.0, same, h) in
    let word = λ (i : ℕ) (b : i < suc st.argc).
      let at : argv - 12 + 12 + 4 * i ≡ al.0 - 4 * suc st.argc + 4 * i =
        omega (arith, p.0, same, h) in
      ap (get_int r) at
      ∙ get_int_frame pushed.1 r _ (λ a c _. k.3 a (omega (arith, c, p.0)))
      ∙ p.1.ints i b in
    (
      record {
        place = omega (arith, p.0, same);
        aligned = omega (arith, p.0, same, h);
        return_address = k.0;
        count = ap (get_int r) at1 ∙ k.1;
        argv = ap (get_int r) at2 ∙ k.2 ∙ sym back;
        args = λ i b. word i (omega (arith, b)) ∙ ground (arith, b);
        end = word st.argc (omega arith) ∙ ground arith;
      },
      λ a b.
          k.3 a (omega (arith, b, p.0, same))
          ∙ p.1.others a (inr (omega (arith, b, same)))
          ∙ align_loop-above 3 st.memory esp a b,
    )
