-- ===== src/Syscall.antt =====
-- userprog/syscall.c: the system calls on files. `filesys_lock` is held around each call of the file
-- system, so that it runs as a whole. `load` is the word at a user address, or what the page fault
-- handler makes of the access.
pub mod Table
pub mod Descriptors
mod Tests
use project.Base.{
  ℕ, zero, suc, ◌+◌, ◌-◌, ◌*◌, Bool, true, false, not, ◌&&◌, ◌||◌, List, [], ◌∷◌, Outcome, ok, exit,
  assert, ◌>>=◌, ◌>>◌, get_or, set, length, ltb, leb, slt, ◌==◌, if◌then◌else◌, add32, sub32, minus,
}
use project.Paging.{null, is_kernel_vaddr}
use project.Filesys.{Fs}
use project.Filesys.File.{file_length, file_read, file_write, file_seek, file_tell, file_close}

-- `MAX_FILES`
abbrev pub max_files : ℕ
max_files = 128

-- The part of `struct thread` that the calls use. `num_open_files` stands right behind the array
-- `fd_pointers` in memory.
pub record Process : Type 0 where
  pub fd_pointers : List ℕ
  pub num_open_files : ℕ

pub record State : Type 0 where
  pub fs : Fs
  pub process : Process

-- `fd_pointers[i]`, with the word behind the array: threads/thread.h declares `int num_open_files` next
-- to the array of 128 pointers, and both are words, with no padding between them.
unfoldable pub fd_pointer : Process → ℕ → ℕ
fd_pointer p i = if i == max_files then p.num_open_files else get_or p.fd_pointers i null

unfoldable pub set_fd_pointer : Process → ℕ → ℕ → Process
set_fd_pointer p i file =
    if i == max_files
    then record p { num_open_files = file }
    else record p { fd_pointers = set p.fd_pointers i file }

unfoldable pub check_pointer : ℕ → Outcome (Unit {0})
check_pointer pointer =
    if (pointer == null) || is_kernel_vaddr pointer then exit (minus 1) else ok tt

-- the `k`-th word above the one at the stack pointer
unfoldable pub argument : (load : ℕ → Outcome ℕ) → (stack_pointer k : ℕ) → Outcome ℕ
unfolding check_pointer
argument load stack_pointer k = do
  check_pointer (add32 stack_pointer (4 * k))
  load (add32 stack_pointer (4 * k))

-- `fd >= 2 && fd <= MAX_FILES + 2`, on a signed `fd`
abbrev pub in_range : ℕ → Bool
in_range fd = not (slt fd 2) && not (slt (max_files + 2) fd)

-- the file of a descriptor, or `NULL`
unfoldable pub file_of : Process → (fd : ℕ) → ℕ
unfolding fd_pointer
file_of p fd = if in_range fd then fd_pointer p (fd - 2) else null

-- `for (i = 0; i < MAX_FILES; i++)` of `system_open`, at index `i`, over what the array has from there
unfoldable pub open_loop : List ℕ → (i : ℕ) → Process → (open_file : ℕ) → ℕ × Process
unfolding set_fd_pointer
open_loop [] i p open_file = (minus 1, p)
open_loop (q ∷ qs) i p open_file =
    if q == 0
    then (
      i + 2,
      record (set_fd_pointer p i open_file) { num_open_files = add32 p.num_open_files 1 },
    )
    else open_loop qs (suc i) p open_file

-- `filesys_open` is the function of filesys/filesys.c.
unfoldable pub system_open :
    (filesys_open : Fs → (name : ℕ) → Outcome (ℕ × Fs))
    → (load : ℕ → Outcome ℕ) → State
    → (stack_pointer : ℕ) → Outcome (ℕ × State)
unfolding argument check_pointer open_loop
system_open filesys_open load s stack_pointer =
    let p = s.process in
    let attempt = (do
      file_name ← argument load stack_pointer 1
      check_pointer file_name
      (open_file, fs') ← filesys_open s.fs file_name
      let (fd, p') = open_loop p.fd_pointers 0 p open_file
      ok (
          if open_file == null
          then (minus 1, record s { fs = fs' })
          else (fd, record { fs = fs'; process = p' }))) in
    if slt p.num_open_files max_files then attempt else ok (minus 1, s)

unfoldable pub system_filesize : (load : ℕ → Outcome ℕ) → State → (stack_pointer : ℕ) → Outcome ℕ
unfolding argument file_of
system_filesize load s stack_pointer = do
  fd ← argument load stack_pointer 1
  let pointer = file_of s.process fd
  if pointer == null then ok (minus 1) else file_length s.fs pointer

-- The value returned, and the bytes copied to the buffer; `key` is what `input_getc` gives.
unfoldable pub system_read :
    (load : ℕ → Outcome ℕ)
    → (key : ℕ) → (room : Bool) → State
    → (stack_pointer : ℕ) → Outcome (ℕ × List ℕ × State)
unfolding argument check_pointer file_of
system_read load key room s stack_pointer = do
  fd ← argument load stack_pointer 1
  buffer ← argument load stack_pointer 2
  check_pointer buffer
  length_arg ← argument load stack_pointer 3
  let pointer = file_of s.process fd
  let from_file = (do
    (bytes, fs') ← file_read s.fs pointer length_arg room
    ok (length bytes, bytes, record s { fs = fs' }))
  if fd == 0 then ok (key, [], s) else if pointer == null then ok (minus 1, [], s) else from_file

-- `bytes` are those of user memory at an address; what goes to the console is the second result.
unfoldable pub system_write :
    (load : ℕ → Outcome ℕ)
    → (bytes : ℕ → List ℕ) → (room : Bool) → State
    → (stack_pointer : ℕ) → Outcome (ℕ × List ℕ × State)
unfolding argument check_pointer file_of
system_write load bytes room s stack_pointer = do
  fd ← argument load stack_pointer 1
  string ← argument load stack_pointer 2
  check_pointer string
  length_arg ← argument load stack_pointer 3
  check_pointer (add32 string length_arg)
  let pointer = file_of s.process fd
  let to_file = (do
    (written, fs') ← file_write s.fs pointer (bytes string) length_arg room
    ok (written, [], record s { fs = fs' }))
  if fd == 1
      then ok (length_arg, bytes string, s)
      else if pointer == null
      then ok (0, [], s)
      else to_file

unfoldable pub system_seek : (load : ℕ → Outcome ℕ) → State → (stack_pointer : ℕ) → Outcome State
unfolding argument file_of
system_seek load s stack_pointer = do
  fd ← argument load stack_pointer 1
  position ← argument load stack_pointer 2
  let pointer = file_of s.process fd
  let seek = (do fs' ← file_seek s.fs pointer position; ok (record s { fs = fs' }))
  if pointer == null then ok s else seek

unfoldable pub system_tell : (load : ℕ → Outcome ℕ) → State → (stack_pointer : ℕ) → Outcome ℕ
unfolding argument file_of
system_tell load s stack_pointer = do
  fd ← argument load stack_pointer 1
  let pointer = file_of s.process fd
  if pointer == null then ok 0 else file_tell s.fs pointer

-- the descriptor is closed: one open file less, and the slot is empty
unfoldable pub drop_fd : Process → (fd : ℕ) → Process
unfolding set_fd_pointer
drop_fd p fd = set_fd_pointer (record p { num_open_files = sub32 p.num_open_files 1 }) (fd - 2) null

unfoldable pub system_close :
    (load : ℕ → Outcome ℕ) → (room : Bool) → State → (stack_pointer : ℕ) → Outcome State
unfolding argument file_of drop_fd
system_close load room s stack_pointer = do
  fd ← argument load stack_pointer 1
  let pointer = file_of s.process fd
  let close = (do
    fs' ← file_close s.fs pointer room
    ok (record { fs = fs'; process = drop_fd s.process fd }))
  if pointer == null then ok s else close
