-- ===== src/Process/Arguments.antt =====
-- userprog/process.c: how `load` reads the name of the executable from a command line, and how
-- `setup_stack` puts the arguments on the user stack. The memory is the byte at each address; an
-- index outside a local array is a failed assertion, as are rounds of a loop that run out.
use project.Base.{
  ℕ, zero, suc, ◌+◌, ◌-◌, ◌*◌, ◌/◌, ◌%◌, ◌^◌, not, ◌&&◌, List, [], ◌∷◌, Option, none, some, Outcome,
  ok, exit, panic, assert, minus, ◌>>=◌, ◌>>◌, ◌==◌, ltb, if◌then◌else◌,
}
use project.Palloc.{Pools, palloc_free_page}
use project.Paging.{page_size, phys_base}
use project.Text.{Memory, store, strlen}
use project.Text.Copies.{strlcpy}

abbrev pub space : ℕ
space = 32

-- `AVAIL_STACK_SPACE`
abbrev pub avail_stack_space : ℕ
avail_stack_space = 4084

-- the size of `fileArg0` and of `dataAddresses`
abbrev pub array_size : ℕ
array_size = 128

-- `while (*p == ' ') p++;`
unfoldable pub skip_spaces : (rounds : ℕ) → Memory → (p : ℕ) → Outcome ℕ
skip_spaces zero m p = panic
skip_spaces (suc rounds) m p =
    let rest = skip_spaces rounds m (p + 1) in if m p == space then rest else ok p

-- the loop that copies the first word to `fileArg0` from index `i` on, with its zero
unfoldable pub word_loop : (rounds : ℕ) → Memory → (p i : ℕ) → Outcome (List ℕ)
word_loop zero m p i = panic
word_loop (suc rounds) m p i = do
  assert (ltb i array_size)
  let round = (do cs ← word_loop rounds m (p + 1) (i + 1); ok (m p ∷ cs))
  if not (m p == space) && not (m p == 0) then round else ok []

-- the characters of `fileArg0`, which `load` opens
unfoldable pub first_word : (rounds : ℕ) → Memory → (file_name : ℕ) → Outcome (List ℕ)
unfolding skip_spaces word_loop
first_word rounds m file_name = do p ← skip_spaces rounds m file_name; word_loop rounds m p 0

-- What the loop over the command line leaves: `argc`, `dataAddresses` and the memory.
pub record Args : Type 0 where
  pub argc : ℕ
  pub addresses : ℕ → ℕ
  pub memory : Memory

-- the round at a space, which returns where the loop goes on
unfoldable pub split_here : (rounds : ℕ) → Args → (p : ℕ) → Outcome (ℕ × Args)
unfolding skip_spaces
split_here rounds st p = do
  let m = store st.memory p 0
  q ← skip_spaces rounds m (p + 1)
  let argc = if not (m q == 0) then st.argc + 1 else st.argc
  assert (ltb (argc - 1) array_size)
  ok (
    q,
    record {
      argc = argc;
      addresses = λ i. if i == argc - 1 then q else st.addresses i;
      memory = m;
    },
  )

-- the loop, whose `x + my_esp` is `p`
unfoldable pub split_loop : (rounds : ℕ) → Args → (p : ℕ) → Outcome Args
unfolding split_here
split_loop zero st p = panic
split_loop (suc rounds) st p =
    let step = (do (q, st') ← split_here rounds st p; split_loop rounds st' q) in
    let pass = split_loop rounds st (p + 1) in
    let round = if st.memory p == space then step else pass in
    if ltb p phys_base then round else ok st

-- an `int` at an address
unfoldable pub put_int : Memory → (at value : ℕ) → Memory
put_int m at value =
    store
      (store (store (store m at (value % 256)) (at + 1) (value / 2 ^ 8 % 256)) (at + 2)
        (value / 2 ^ 16 % 256))
      (at + 3) (value / 2 ^ 24 % 256)

-- `while ((int) my_esp % ALIGN)`, at most three times
unfoldable pub align_loop : (rounds : ℕ) → Memory → (esp : ℕ) → ℕ × Memory
align_loop zero m esp = (esp, m)
align_loop (suc rounds) m esp =
    let rest = align_loop rounds (store m (esp - 1) 0) (esp - 1) in
    if esp % 4 == 0 then (esp, m) else rest

-- the loop that puts `dataAddresses[index]` on the stack, from `index` down to 0
unfoldable pub push_loop : (count : ℕ) → (ℕ → ℕ) → Memory → (esp : ℕ) → ℕ × Memory
unfolding put_int
push_loop zero addresses m esp = (esp, m)
push_loop (suc index) addresses m esp =
    push_loop index addresses (put_int m (esp - 4) (addresses index)) (esp - 4)

-- `argv`, `argc` and the return address, from `argv` downwards
unfoldable pub push_header : Memory → (argv argc : ℕ) → Memory
push_header m argv argc =
    put_int (put_int (put_int m (argv - 4) argv) (argv - 8) argc) (argv - 12) 0

-- From the alignment to the return address.
unfoldable pub push_all : Args → (esp : ℕ) → ℕ × Memory
push_all st esp =
    let addresses : ℕ → ℕ = λ i. if i == st.argc then 0 else st.addresses i in
    let (esp1, m1) = align_loop 3 st.memory esp in
    let (argv, m2) = push_loop (suc st.argc) addresses m1 esp1 in
    (argv - 12, push_header m2 argv st.argc)

-- The lowest address of the page that `setup_stack` has installed, the only one of the stack.
abbrev pub stack_page : ℕ
stack_page = phys_base - page_size

-- `setup_stack` from its second check of the space on. The stores go downwards, so that one of them
-- misses the page of the stack where the last one does. The executable is taken to have no segment in
-- the page below, and as `esp` of the new thread is still 0, the page fault is no growth of the stack
-- and ends the process with -1.
unfoldable pub start_arguments :
    Pools → Args → (my_esp command_line_length : ℕ) → Outcome (Option (ℕ × Pools))
start_arguments p st my_esp command_line_length =
    let (esp, m) = push_all st my_esp in
    let done =
      if ltb esp stack_page then exit (minus 1) else ok (some (esp, record p { memory = m })) in
    let push = (do assert (ltb st.argc array_size); done) in
    if ltb (avail_stack_space - command_line_length) (st.argc * 4) then ok none else push

-- `setup_stack` from its copy of the command line at `fn_copy` on, the page of the stack being
-- there: the stack pointer and the memory, or `none` where it returns false.
unfoldable pub setup_arguments : (rounds : ℕ) → Pools → (fn_copy : ℕ) → Outcome (Option (ℕ × Pools))
unfolding start_arguments
setup_arguments rounds p fn_copy = do
  len ← strlen rounds p.memory fn_copy
  let command_line_length = len + 1
  let esp = phys_base - command_line_length
  let run = (do
    (_, m1) ← strlcpy rounds p.memory esp fn_copy command_line_length
    p1 ← palloc_free_page (record p { memory = m1 }) fn_copy
    x ← skip_spaces rounds p1.memory esp
    st ← split_loop rounds (record { argc = 1; addresses = λ _. esp; memory = p1.memory }) x
    start_arguments p1 st esp command_line_length)
  if ltb avail_stack_space command_line_length then ok none else run
