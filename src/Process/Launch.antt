-- ===== src/Process/Launch.antt =====
-- `setup_stack` of userprog/process.c from its copy of the command line on.
use project.Base.{
  ℕ, ◌+◌, ◌-◌, ◌*◌, ◌%◌, ◌<◌, ◌≤◌, ◌≡◌, ◌⊎◌, inl, inr, subst, ◌∙◌, true, arith, List, ◌∷◌, ◌++◌,
  length, none, some, ok, exit, minus, ltb, Bool-cases,
}
use project.Bitmap.{holds}
use project.Palloc.{Pools}
use project.Palloc.Groups.{IsPools, page_of}
use project.Palloc.Roundtrip.{palloc_free_page-kernel}
use project.Paging.{phys_base}
use project.Text.{Memory}
use project.Text.Strings.{IsString, strlen-length}
use project.Text.Copies.{strlcpy-IsString}
use project.Process.Arguments.{
  array_size, avail_stack_space, stack_page, Args, push_all, start_arguments, setup_arguments,
}
use project.Process.Parsing.{
  IsWord, Words, line, IsLine, Placed, IsString-frame, IsSplit, split_loop-IsSplit,
}
use project.Process.Stack.{IsStack, push_all-IsStack}
use project.Process.Calls.{
  Placed-frame, take_length, skip_spaces-word, IsString-below, setup_arguments-run,
  setup_arguments-long, start_arguments-none, start_arguments-exit, start_arguments-ok,
}

-- What a program finds: the words of its command line stand as strings from `top` on, and the stack
-- pointer is inside the page of the stack, with `argc`, `argv` and the addresses of the words.
pub record IsStarted (m : Memory) (esp top : ℕ) (word : List ℕ) (rest : Words) : Type 0 where
  pub addresses : ℕ → ℕ
  pub in_page : stack_page ≤ esp
  pub stack : IsStack m esp top (1 + length rest) addresses
  pub name_at : addresses 0 ≡ top
  pub name : IsString m top word
  pub others : Placed m addresses 1 rest

-- what the command line and the addresses of its words may take of the page of the stack
abbrev pub page_room : ℕ
page_room = 4080

module _ (rounds : ℕ) (p : Pools) (idx x : ℕ) (word : List ℕ) (rest : Words) where
  abbrev fn_copy : ℕ
  fn_copy = page_of p.kernel_pool idx

  abbrev xs : List ℕ
  xs = (x ∷ word) ++ line rest

  abbrev top : ℕ
  top = phys_base - (length xs + 1)

  abbrev argc : ℕ
  argc = 1 + length rest

  module _ (v : IsPools p) (inside : idx < p.kernel_pool.used_map.bit_cnt)
      (used : holds p.kernel_pool.used_map idx ≡ true) (kernel : phys_base ≤ p.kernel_pool.base)
      (s : IsString p.memory fn_copy xs) (w : IsWord (x ∷ word)) (l : IsLine rest)
      (few : argc < array_size) (f : length xs + 1 < rounds) where
    -- what `setup_stack` has when it comes to the second check
    splits :
        length xs + 1 ≤ avail_stack_space
        → (p1 : Pools) × (st : Args) × (setup_arguments rounds p fn_copy
            ≡ start_arguments p1 st top (length xs + 1))
          × IsSplit
              (record { argc = 1; addresses = λ _. top; memory = p1.memory })
              st
              top
              (x ∷ word)
              rest
    splits fit =
        let copy =
          strlcpy-IsString rounds p.memory top fn_copy (length xs + 1) xs (omega (arith, fit))
            (omega (arith, kernel)) s (omega (arith, f)) (inl (omega (arith, fit, kernel))) in
        let copied : IsString copy.0 top xs =
          subst (IsString copy.0 top) (take_length xs) (copy.2 (omega arith)) in
        let (p1, free, below) =
          palloc_free_page-kernel (record p { memory = copy.0 }) idx
            (record { kernel = v.kernel; user = v.user; apart = v.apart }) inside used in
        let here : IsString p1.memory top xs =
          IsString-below copy.0 p1.memory top phys_base xs (omega (arith, fit))
            (λ a b. below a (omega (arith, b, kernel))) copied in
        let start : Args = record { argc = 1; addresses = λ _. top; memory = p1.memory } in
        let (st, split, is_split) =
          split_loop-IsSplit rounds start top (x ∷ word) rest w l here (omega (arith, fit))
            (omega arith) (omega (arith, few)) f in
        (
          p1,
          st,
          setup_arguments-run rounds p p1 copy.0 fn_copy (length xs) st
              (strlen-length rounds p.memory fn_copy xs (omega (arith, kernel)) s
                (omega (arith, f)))
              copy.1 free (skip_spaces-word rounds p1.memory top x here.0 w.0 (omega (arith, f)))
              split fit,
          is_split,
        )

    -- the stack of the program, where it fits
    started :
        (p1 : Pools) (st : Args)
        → length xs + 1 ≤ avail_stack_space
        → IsSplit
            (record { argc = 1; addresses = λ _. top; memory = p1.memory })
            st
            top
            (x ∷ word)
            rest
        → ((push_all st top).0 ≡ top - top % 4 - 4 * (argc + 1) - 12)
          × (stack_page ≤ (push_all st top).0
              → IsStarted (push_all st top).1 (push_all st top).0 top (x ∷ word) rest)
    started p1 st fit split =
        let within = split.within top (omega arith) (λ _. (omega arith, omega (arith, fit))) in
        let r = push_all st top in
        let (stack, above) =
          push_all-IsStack st top (λ i. omega (arith, within i)) (omega (arith, split.count, few))
            (omega arith) (omega (arith, split.count, few, fit)) in
        let now : IsStack r.1 r.0 top argc st.addresses =
          subst (λ c. IsStack r.1 r.0 top c st.addresses) split.count stack in
        (
          now.place,
          λ in_page. record {
            addresses = st.addresses;
            in_page = in_page;
            stack = now;
            name_at = split.earlier 0 (omega arith);
            name = IsString-frame st.memory r.1 top (x ∷ word) above split.first;
            others =
                Placed-frame st.memory r.1 st.addresses top 1 rest above (λ j. (within j).0)
                  split.others;
          },
        )

    -- A command line of less than 128 words with spaces between them, but none before the first or
    -- behind the last, in a page of the kernel pool that is in use; the executable has no segment in
    -- the page below the stack. Where the bytes of the line and four for each word are at most 4080,
    -- it starts a program with its words as the arguments: inside the page of the stack stand the
    -- return address, `argc`, `argv` and the addresses of the words, at which these stand as strings.
    -- Up to 4084, it passes the checks of the space but a store misses that page, and the process
    -- ends with -1. Above, `setup_stack` returns false.
    pub setup_arguments-IsStack :
        ((esp : ℕ) × (p' : Pools) × (length xs + 1 + 4 * argc ≤ page_room)
          × (setup_arguments rounds p fn_copy ≡ ok (some (esp, p')))
          × IsStarted p'.memory esp top (x ∷ word) rest)
        ⊎ (((page_room < length xs + 1 + 4 * argc)
              × (length xs + 1 + 4 * argc ≤ avail_stack_space)
              × (setup_arguments rounds p fn_copy ≡ exit (minus 1)))
            ⊎ ((avail_stack_space < length xs + 1 + 4 * argc)
                × (setup_arguments rounds p fn_copy ≡ ok none)))
    setup_arguments-IsStack = elim (Bool-cases (ltb avail_stack_space (length xs + 1))) [
      | inl long ↦
          let over : avail_stack_space < length xs + 1 = ground (arith, long) in
          let len =
            strlen-length rounds p.memory fn_copy xs (omega (arith, kernel)) s (omega (arith, f)) in
          inr
            (inr (omega (arith, over), setup_arguments-long rounds p fn_copy (length xs) len over))
      | inr short ↦
          let fit : length xs + 1 ≤ avail_stack_space = ground (arith, short) in
          let (p1, st, run, split) = splits fit in
          let (place, is_started) = started p1 st fit split in
          let count : st.argc ≡ argc = split.count in
          let n = length xs + 1 in
          elim (Bool-cases (ltb avail_stack_space (n + 4 * argc))) [
            | inl full ↦
                let over : avail_stack_space < n + 4 * argc = ground (arith, full) in
                inr (
                  inr
                    (over, run ∙ start_arguments-none p1 st top n fit (omega (arith, over, count))))
            | inr room ↦
                let both : n + 4 * argc ≤ avail_stack_space = ground (arith, room) in
                let few' : st.argc < array_size = omega (arith, few, count) in
                let fit' : n + 4 * st.argc ≤ avail_stack_space = omega (arith, both, count) in
                elim (Bool-cases (ltb page_room (n + 4 * argc))) [
                  | inl tight ↦
                      let more : page_room < n + 4 * argc = ground (arith, tight) in
                      inr (
                        inl (
                          more,
                          both,
                          run
                              ∙ start_arguments-exit p1 st top n few' fit'
                                  (omega (arith, place, more, both)),
                        ))
                  | inr loose ↦
                      let less : n + 4 * argc ≤ page_room = ground (arith, loose) in
                      let in_page : stack_page ≤ (push_all st top).0 = omega (arith, place, less) in
                      inl (
                        (push_all st top).0,
                        record p1 { memory = (push_all st top).1 },
                        less,
                        run ∙ start_arguments-ok p1 st top n few' fit' in_page,
                        is_started in_page,
                      )
                ]
          ]
    ]
