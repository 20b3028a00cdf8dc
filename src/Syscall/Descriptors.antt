-- ===== src/Syscall/Descriptors.antt =====
-- Opening and closing descriptors.
use project.Base.{
  ℕ, ◌+◌, ◌-◌, ◌<◌, ◌≡◌, ◌≢◌, refl, sym, ◌∙◌, ◌⊎◌, inl, inr, Bool, Outcome, ok, get_or, set, length,
  slt, sub32, minus, arith, Bool-cases, ne→==, length-set, get_or-set_self, get_or-set_ne,
}
use project.Paging.{null}
use project.Filesys.{Fs}
use project.Filesys.File.{file_close}
use project.Syscall.{
  Process, State, max_files, set_fd_pointer, check_pointer, argument, file_of, system_open, drop_fd,
  system_close,
}
use project.Syscall.Table.{
  is_open, IsTable, count_open-le, count_open-set, count_open-pos, file_of-slot, opened,
  open_loop-opened, opened-IsTable, file_of-opened, file_of-others,
}

-- The descriptor of slot `i` stands for `file`, and was free; all other descriptors are as before.
pub record Opened (p : Process) (i file : ℕ) (p' : Process) : Type 0 where
  pub slot : i < max_files
  pub table : IsTable p'
  pub free : file_of p (i + 2) ≡ null
  pub stands : file_of p' (i + 2) ≡ file
  pub first : (k : ℕ) → k < i → file_of p (k + 2) ≢ null
  pub others : (k : ℕ) → k < max_files → k ≢ i → file_of p' (k + 2) ≡ file_of p (k + 2)

opened-Opened :
    (p : Process) (i file : ℕ)
    → IsTable p
    → i < max_files
    → get_or p.fd_pointers i null ≡ null
    → ((k : ℕ) → k < i → get_or p.fd_pointers k null ≢ null)
    → file ≢ null
    → Opened p i file (opened p i file)
opened-Opened p i file t h free first some_file = record {
  slot = h;
  table = opened-IsTable p i file t h free some_file;
  free = file_of-slot p i h ∙ free;
  stands = file_of-opened p i file t h;
  first = λ k lt e. first k lt (sym (file_of-slot p k (omega arith)) ∙ e);
  others = file_of-others p i file t h;
}

module _ (filesys_open : Fs → (name : ℕ) → Outcome (ℕ × Fs)) (load : ℕ → Outcome ℕ) (s : State)
    (sp : ℕ) where
  -- With less than 128 files open, `system_open` of a file that the file system opens returns the
  -- lowest descriptor that is free, which stands for that file afterwards; the count of open files
  -- stays right. With 128 open it returns -1 and changes nothing.
  pub system_open-Opened :
      {name file : ℕ} {fs' : Fs}
      → IsTable s.process
      → argument load sp 1 ≡ ok name
      → check_pointer name ≡ ok tt
      → filesys_open s.fs name ≡ ok (file, fs')
      → file ≢ null
      → ((i : ℕ) × (p' : Process) × (system_open filesys_open load s sp
            ≡ ok (i + 2, record { fs = fs'; process = p' }))
          × Opened s.process i file p')
        ⊎ ((s.process.num_open_files ≡ max_files)
            × (system_open filesys_open load s sp ≡ ok (minus 1, s)))
  unfolding system_open
  system_open-Opened {name} {file} {fs'} t loads checks opens some_file =
      let p = s.process in
      elim (Bool-cases (slt p.num_open_files max_files)) [
        | inl room ↦
            let (j, inside, e, free, first) =
              open_loop-opened p.fd_pointers 0 p file
                (ground (arith, t.counted, t.total, count_open-le p.fd_pointers)) in
            let index : 0 + j ≡ j = omega arith in
            inl (
              j,
              opened p j file,
              rw (room, loads, checks, opens, e, ne→== file null some_file, index) refl,
              opened-Opened p j file t (omega (arith, t.total, inside)) free first some_file,
            )
        | inr full ↦
            inr (ground (arith, t.counted, t.total, count_open-le p.fd_pointers), rw full refl)
      ]

-- The descriptor of slot `i` stands for no file, and all others are as before.
pub record Closed (p : Process) (i : ℕ) (p' : Process) : Type 0 where
  pub table : IsTable p'
  pub fewer : p'.num_open_files + 1 ≡ p.num_open_files
  pub empty : file_of p' (i + 2) ≡ null
  pub others : (k : ℕ) → k < max_files → k ≢ i → file_of p' (k + 2) ≡ file_of p (k + 2)

-- the process without the file in a slot
abbrev without : Process → ℕ → Process
without p i = record p {
  fd_pointers = set p.fd_pointers i null;
  num_open_files = sub32 p.num_open_files 1;
}

drop_fd-without : (p : Process) (i : ℕ) → i < max_files → drop_fd p (i + 2) ≡ without p i
unfolding drop_fd set_fd_pointer
drop_fd-without p i h =
    let index : i + 2 - 2 ≡ i = omega arith in rw (index, ne→== i max_files (omega arith)) refl

without-Closed :
    (p : Process) (i : ℕ)
    → IsTable p
    → i < max_files
    → get_or p.fd_pointers i null ≢ null
    → Closed p i (without p i)
without-Closed p i t h some_file =
    let inside : i < length p.fd_pointers = omega (arith, t.total, h) in
    let pos = count_open-pos p.fd_pointers i inside some_file in
    let bound = count_open-le p.fd_pointers in
    let count = count_open-set p.fd_pointers i null inside in
    let was_open : is_open (get_or p.fd_pointers i null) ≡ 1 = ground arith in
    record {
      table = record {
        total = length-set p.fd_pointers i null ∙ t.total;
        counted = omega (arith, t.counted, t.total, pos, bound, count, was_open);
      };
      fewer = omega (arith, t.counted, t.total, pos, bound);
      empty = file_of-slot (without p i) i h ∙ get_or-set_self p.fd_pointers i null null inside;
      others = λ k lt ne.
          file_of-slot (without p i) k lt
          ∙ get_or-set_ne p.fd_pointers i k null null (λ e. ne (sym e))
          ∙ sym (file_of-slot p k lt);
    }

module _ (load : ℕ → Outcome ℕ) (room : Bool) (s : State) (sp : ℕ) where
  -- `system_close` of a descriptor that stands for a file which the file system closes: it stands
  -- for none afterwards, the count of open files stays right, and other descriptors are as before.
  pub system_close-Closed :
      (i : ℕ) {fs' : Fs}
      → IsTable s.process
      → i < max_files
      → argument load sp 1 ≡ ok (i + 2)
      → file_of s.process (i + 2) ≢ null
      → file_close s.fs (file_of s.process (i + 2)) room ≡ ok fs'
      → (p' : Process) × (system_close load room s sp ≡ ok (record { fs = fs'; process = p' }))
        × Closed s.process i p'
  unfolding system_close
  system_close-Closed i {fs'} t h loads some_file closes = (
    without s.process i,
    rw
        (
          loads,
          ne→== (file_of s.process (i + 2)) null some_file,
          closes,
          drop_fd-without s.process i h,
        )
        refl,
    without-Closed s.process i t h (λ e. some_file (file_of-slot s.process i h ∙ e)),
  )
