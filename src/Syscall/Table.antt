-- ===== src/Syscall/Table.antt =====
-- The table of open files of a process.
use project.Base.{
  ℕ, zero, suc, ◌+◌, ◌-◌, ◌<◌, ◌≤◌, ◌≡◌, ◌≢◌, refl, sym, ◌∙◌, inl, inr, true, List, [], ◌∷◌, get_or,
  set, length, ◌==◌, if◌then◌else◌, add32, arith, Bool-cases, ne→==, length-set, get_or-set_self,
  get_or-set_ne,
}
use project.Paging.{null}
use project.Syscall.{Process, max_files, fd_pointer, set_fd_pointer, in_range, file_of, open_loop}

abbrev pub is_open : ℕ → ℕ
is_open q = if q == null then 0 else 1

-- the number of open files in the array
abbrev pub count_open : List ℕ → ℕ
count_open [] = 0
count_open (q ∷ qs) = is_open q + count_open qs

-- The array has its full length, and `num_open_files` counts what is open in it.
pub record IsTable (p : Process) : Type 0 where
  pub total : length p.fd_pointers ≡ max_files
  pub counted : p.num_open_files ≡ count_open p.fd_pointers

pub count_open-le : (qs : List ℕ) → count_open qs ≤ length qs
count_open-le [] = omega arith
count_open-le (q ∷ qs) = ground (arith, count_open-le qs)

pub count_open-set :
    (qs : List ℕ) (i f : ℕ)
    → i < length qs
    → count_open (set qs i f) + is_open (get_or qs i null) ≡ count_open qs + is_open f
count_open-set [] i f h = absurd (omega arith)
count_open-set (q ∷ qs) zero f h = omega arith
count_open-set (q ∷ qs) (suc i) f h = omega (arith, count_open-set qs i f (omega arith))

-- A file that stands in a slot is counted.
pub count_open-pos :
    (qs : List ℕ) (i : ℕ) → i < length qs → get_or qs i null ≢ null → 0 < count_open qs
count_open-pos [] i h some_file = absurd (omega arith)
count_open-pos (q ∷ qs) zero h some_file = ground arith
count_open-pos (q ∷ qs) (suc i) h some_file =
    omega (arith, count_open-pos qs i (omega arith) some_file)

pub file_of-slot :
    (p : Process) (i : ℕ) → i < max_files → file_of p (i + 2) ≡ get_or p.fd_pointers i null
unfolding file_of fd_pointer
file_of-slot p i h =
    let range : in_range (i + 2) ≡ true = ground arith in
    let index : i + 2 - 2 ≡ i = omega arith in
    rw (range, index, ne→== i max_files (omega arith)) refl

-- the process with the file in a slot
abbrev pub opened : Process → (i open_file : ℕ) → Process
opened p i open_file = record (set_fd_pointer p i open_file) {
  num_open_files = add32 p.num_open_files 1;
}

-- The loop takes the first slot that is free.
pub open_loop-opened :
    (qs : List ℕ) (i : ℕ) (p : Process) (open_file : ℕ)
    → count_open qs < length qs
    → (j : ℕ) × (j < length qs)
      × (open_loop qs i p open_file ≡ (i + j + 2, opened p (i + j) open_file))
      × (get_or qs j null ≡ null)
      × ((k : ℕ) → k < j → get_or qs k null ≢ null)
unfolding open_loop
open_loop-opened [] i p open_file h = absurd (omega arith)
open_loop-opened (q ∷ qs) i p open_file h = elim (Bool-cases (q == null)) [
  | inl free ↦
      let index : i + 0 ≡ i = omega arith in
      (0, omega arith, rw (free, index) refl, ground arith, λ k lt. absurd (omega arith))
  | inr taken ↦
      let (j, inside, e, empty, first) = open_loop-opened qs (suc i) p open_file (ground arith) in
      let index : suc i + j ≡ i + suc j = omega arith in
      (
        suc j,
        omega arith,
        rw taken (rw⁻¹ index e),
        empty,
        elim [ zero ↦ λ lt. ground arith | suc k ↦ λ lt. first k (omega arith) ],
      )
]

module _ (p : Process) (i file : ℕ) (t : IsTable p) (h : i < max_files) where
  set_fd_pointer-slot :
      set_fd_pointer p i file ≡ record p { fd_pointers = set p.fd_pointers i file }
  unfolding set_fd_pointer
  set_fd_pointer-slot = rw (ne→== i max_files (omega arith)) refl

  inside : i < length p.fd_pointers
  inside = omega (arith, t.total, h)

  pub opened-IsTable : get_or p.fd_pointers i null ≡ null → file ≢ null → IsTable (opened p i file)
  opened-IsTable free some_file = rw set_fd_pointer-slot (record {
    total = length-set p.fd_pointers i file ∙ t.total;
    counted = ground (
      arith,
      count_open-set p.fd_pointers i file inside,
      free,
      some_file,
      t.counted,
      count_open-le p.fd_pointers,
      t.total,
    );
  })

  pub file_of-opened : file_of (opened p i file) (i + 2) ≡ file
  file_of-opened =
      file_of-slot (opened p i file) i h
      ∙ rw set_fd_pointer-slot (get_or-set_self p.fd_pointers i file null inside)

  pub file_of-others :
      (k : ℕ) → k < max_files → k ≢ i → file_of (opened p i file) (k + 2) ≡ file_of p (k + 2)
  file_of-others k lt ne =
      file_of-slot (opened p i file) k lt
      ∙ rw set_fd_pointer-slot (get_or-set_ne p.fd_pointers i k file null (λ e. ne (sym e)))
      ∙ sym (file_of-slot p k lt)
