-- ===== src/Filesys/Denial.antt =====
-- `file_deny_write` of filesys/file.c while other openers of the inode go on using it: the open files of
-- an inode, and runs of their calls.
pub mod Count
pub mod Calls
pub mod Blocks
use project.Base.{
  mem, Nodup, ℕ, ◌+◌, ◌^◌, ◌<◌, ◌≤◌, ◌≡◌, ◌≢◌, Bool, true, List, [], ◌∷◌, Outcome, ok, ◌>>=◌,
  length, ◌==◌, if◌then◌else◌,
}
use project.Paging.{null}
use project.Filesys.{Fs, FileState, without}
use project.Filesys.File.{file_deny_write, file_allow_write, file_write, file_write_at, file_close}

-- the number of files of a list that deny writes
abbrev pub flag : FileState → ℕ
flag f = if f.deny_write then 1 else 0

abbrev pub denials : (ℕ → FileState) → List ℕ → ℕ
denials files [] = 0
denials files (g ∷ gs) = flag (files g) + denials files gs

-- `gs` are the open files of inode `i`: its count of denials is the number of them that deny writes,
-- and its count of openers is at least their number.
pub record Users (i : ℕ) (gs : List ℕ) (fs : Fs) : Type 0 where
  pub some_inode : i ≢ null
  pub real : (g : ℕ) → mem g gs ≡ true → g ≢ null
  pub same : (g : ℕ) → mem g gs ≡ true → (fs.files g).inode ≡ i
  pub once : Nodup gs
  pub counted : (fs.inodes i).deny_write_cnt ≡ denials fs.files gs
  pub opened : length gs ≤ (fs.inodes i).open_cnt
  pub small : (fs.inodes i).open_cnt < 2 ^ 31

abbrev pub put : (ℕ → FileState) → ℕ → FileState → ℕ → FileState
put files g f = λ b. if b == g then f else files b

-- what the openers of an inode may call
pub data Call : Type 0 where
  deny allow : (g : ℕ) → Call
  close : (g : ℕ) → (room : Bool) → Call
  write : (g : ℕ) → (buffer : List ℕ) → (size : ℕ) → (room : Bool) → Call
  write_at : (g : ℕ) → (buffer : List ℕ) → (size file_ofs : ℕ) → (room : Bool) → Call

abbrev no_bytes : Outcome Fs → Outcome (ℕ × Fs)
no_bytes m = m >>= λ fs. ok (0, fs)

-- the number of bytes that a call writes, and the state behind it
unfoldable pub call : Call → Fs → Outcome (ℕ × Fs)
call (deny g) fs = no_bytes (file_deny_write fs g)
call (allow g) fs = no_bytes (file_allow_write fs g)
call (close g room) fs = no_bytes (file_close fs g room)
call (write g buffer size room) fs = file_write fs g buffer size room
call (write_at g buffer size ofs room) fs = file_write_at fs g buffer size ofs room

-- calls one after the other, with the sum of the bytes written
unfoldable pub run : List Call → Fs → Outcome (ℕ × Fs)
unfolding call
run [] fs = ok (0, fs)
run (c ∷ cs) fs = call c fs >>= λ (r : ℕ × Fs). run cs r.1 >>= λ (q : ℕ × Fs). ok (r.0 + q.0, q.1)

-- the open files behind a call
abbrev pub left : Call → List ℕ → List ℕ
left (deny g) gs = gs
left (allow g) gs = gs
left (close g room) gs = without g gs
left (write g buffer size room) gs = gs
left (write_at g buffer size ofs room) gs = gs

abbrev pub all_left : List Call → List ℕ → List ℕ
all_left [] gs = gs
all_left (c ∷ cs) gs = all_left cs (left c gs)

-- a call of an open file, which neither allows writes for `file` again nor closes it
abbrev pub MayCall : (file : ℕ) → List ℕ → Call → Type 0
MayCall file gs (deny g) = mem g gs ≡ true
MayCall file gs (allow g) = (mem g gs ≡ true) × (g ≢ file)
MayCall file gs (close g room) = (mem g gs ≡ true) × (g ≢ file)
MayCall file gs (write g buffer size room) = mem g gs ≡ true
MayCall file gs (write_at g buffer size ofs room) = mem g gs ≡ true

abbrev pub Permitted : (file : ℕ) → List ℕ → List Call → Type 0
Permitted file gs [] = Unit
Permitted file gs (c ∷ cs) = MayCall file gs c × Permitted file (left c gs) cs
