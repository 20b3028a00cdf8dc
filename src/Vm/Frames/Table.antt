-- ===== src/Vm/Frames/Table.antt =====
-- The frame table as an array of frames, each with its own `kpage`, and its occupancy count.
use project.Base.{
  ℕ, zero, suc, ◌+◌, ◌<◌, ◌≤◌, ◌≡◌, ◌≢◌, refl, sym, ◌∙◌, inl, inr, List, [], ◌∷◌, ok, exit, arith,
  length, get_or, set, ◌==◌, if◌then◌else◌, add32, sub32, minus, Bool-cases, eq→==, ne→==,
}
use project.Paging.{null}
use project.Vm.State.{Frame, Vm, empty_frame, total_pages, clock_start}
use project.Vm.Frames.{free_loop, install_loop, find_loop}

abbrev pub is_used : Frame → ℕ
is_used f = if f.upage == null then 0 else 1

-- the number of frames that hold a page
abbrev pub count_used : List Frame → ℕ
count_used [] = 0
count_used (f ∷ fs) = is_used f + count_used fs

-- no frame has this `kpage`
abbrev pub Fresh : ℕ → List Frame → Type 0
Fresh k [] = Unit
Fresh k (f ∷ fs) = (f.kpage ≢ k) × Fresh k fs

abbrev pub Distinct : List Frame → Type 0
Distinct [] = Unit
Distinct (f ∷ fs) = Fresh f.kpage fs × Distinct fs

-- Each frame of memory stands once in the table, and `occupancy` counts the frames in use.
pub record IsConsistent (vm : Vm) : Type 0 where
  pub total : length vm.frame_table ≡ total_pages
  pub distinct : Distinct vm.frame_table
  pub counted : vm.occupancy ≡ count_used vm.frame_table
  pub hand : clock_start ≤ vm.clock_pointer
  pub in_table : vm.clock_pointer < total_pages

abbrev no_frame : Frame
no_frame = empty_frame null

-- the frame at an index of a table
abbrev pub at : List Frame → ℕ → Frame
at fs i = get_or fs i (empty_frame null)

pub count_used-le : (fs : List Frame) → count_used fs ≤ length fs
count_used-le [] = omega arith
count_used-le (f ∷ fs) = ground (arith, count_used-le fs)

pub count_used-set :
    (fs : List Frame) (i : ℕ) (f : Frame)
    → i < length fs
    → count_used (set fs i f) + is_used (at fs i) ≡ count_used fs + is_used f
count_used-set [] i f h = absurd (omega arith)
count_used-set (g ∷ fs) zero f h = omega arith
count_used-set (g ∷ fs) (suc i) f h = omega (arith, count_used-set fs i f (omega arith))

-- The entry at an index is another than those that are fresh.
Fresh-ne : (k : ℕ) (fs : List Frame) (i : ℕ) → Fresh k fs → i < length fs → (at fs i).kpage ≢ k
Fresh-ne k [] i fresh h = absurd (omega arith)
Fresh-ne k (f ∷ fs) zero fresh h = fresh.0
Fresh-ne k (f ∷ fs) (suc i) fresh h = Fresh-ne k fs i fresh.1 (omega arith)

Fresh-set :
    (k : ℕ) (fs : List Frame) (i : ℕ) (f : Frame)
    → Fresh k fs
    → i < length fs
    → f.kpage ≡ (at fs i).kpage
    → Fresh k (set fs i f)
Fresh-set k [] i f fresh h same = tt
Fresh-set k (g ∷ fs) zero f fresh h same = (λ e. fresh.0 (sym same ∙ e), fresh.1)
Fresh-set k (g ∷ fs) (suc i) f fresh h same =
    (fresh.0, Fresh-set k fs i f fresh.1 (omega arith) same)

pub Distinct-set :
    (fs : List Frame) (i : ℕ) (f : Frame)
    → Distinct fs
    → i < length fs
    → f.kpage ≡ (at fs i).kpage
    → Distinct (set fs i f)
Distinct-set [] i f d h same = tt
Distinct-set (g ∷ fs) zero f d h same = rw same d
Distinct-set (g ∷ fs) (suc i) f d h same =
    (Fresh-set g.kpage fs i f d.0 (omega arith) same, Distinct-set fs i f d.1 (omega arith) same)

free_loop-Fresh : (fs : List Frame) (k occ : ℕ) → Fresh k fs → free_loop fs k occ ≡ (fs, occ)
unfolding free_loop
free_loop-Fresh [] k occ fresh = refl
free_loop-Fresh (f ∷ fs) k occ fresh =
    rw (ne→== f.kpage k fresh.0, free_loop-Fresh fs k occ fresh.1) refl

-- The loop empties the one frame of `k` and lowers the count by one.
pub free_loop-set :
    (fs : List Frame) (i k occ : ℕ)
    → Distinct fs
    → i < length fs
    → (at fs i).kpage ≡ k
    → free_loop fs k occ ≡ (set fs i (empty_frame k), sub32 occ 1)
unfolding free_loop
free_loop-set [] i k occ d h e = absurd (omega arith)
free_loop-set (f ∷ fs) zero k occ d h e =
    rw (eq→== f.kpage k e, free_loop-Fresh fs k (sub32 occ 1) (rw e at d.0), e) refl
free_loop-set (f ∷ fs) (suc i) k occ d h e =
    let other : f.kpage ≢ k = λ x. Fresh-ne f.kpage fs i d.0 (omega arith) (e ∙ sym x) in
    rw (ne→== f.kpage k other, free_loop-set fs i k occ d.1 (omega arith) e) refl

install_loop-Fresh :
    (fs : List Frame) (k occ : ℕ) (new : Frame)
    → Fresh k fs
    → install_loop fs k new occ ≡ ok (fs, occ)
unfolding install_loop
install_loop-Fresh [] k occ new fresh = refl
install_loop-Fresh (f ∷ fs) k occ new fresh =
    rw (ne→== f.kpage k fresh.0, install_loop-Fresh fs k occ new fresh.1) refl

-- The loop labels the one frame of `k` if it is free, and kills the process if it is not.
pub install_loop-set :
    (fs : List Frame) (i k occ : ℕ) (new : Frame)
    → Distinct fs
    → i < length fs
    → (at fs i).kpage ≡ k
    → install_loop fs k new occ ≡ (
        if (at fs i).upage == null
        then ok (set fs i (record new { kpage = k }), add32 occ 1)
        else exit (minus 1))
unfolding install_loop
install_loop-set [] i k occ new d h e = absurd (omega arith)
install_loop-set (f ∷ fs) zero k occ new d h e = elim (Bool-cases (f.upage == null)) [
  | inl free ↦
      rw (eq→== f.kpage k e, free, install_loop-Fresh fs k (add32 occ 1) new (rw e at d.0), e) refl
  | inr taken ↦ rw (eq→== f.kpage k e, taken) refl
]
install_loop-set (f ∷ fs) (suc i) k occ new d h e =
    let other : f.kpage ≢ k = λ x. Fresh-ne f.kpage fs i d.0 (omega arith) (e ∙ sym x) in
    elim (Bool-cases ((at fs i).upage == null)) [
      | inl free ↦
          rw (ne→== f.kpage k other, install_loop-set fs i k occ new d.1 (omega arith) e, free) refl
      | inr taken ↦
          rw (ne→== f.kpage k other, install_loop-set fs i k occ new d.1 (omega arith) e, taken)
            refl
    ]

-- The frame at `i` is the first free one.
pub record IsFirstFree (fs : List Frame) (i : ℕ) : Type 0 where
  pub inside : i < length fs
  pub free : (at fs i).upage ≡ null
  pub first : (j : ℕ) → j < i → (at fs j).upage ≢ null

pub find_loop-IsFirstFree :
    (fs : List Frame)
    → count_used fs < length fs
    → (i : ℕ) × (find_loop fs ≡ (at fs i).kpage) × IsFirstFree fs i
unfolding find_loop
find_loop-IsFirstFree [] h = absurd (omega arith)
find_loop-IsFirstFree (f ∷ fs) h = elim (Bool-cases (f.upage == null)) [
  | inl free ↦ (
    0,
    rw free refl,
    record { inside = omega arith; free = ground arith; first = λ j lt. absurd (omega arith) },
  )
  | inr taken ↦
      let (i, e, g) = find_loop-IsFirstFree fs (ground arith) in
      (
        suc i,
        rw taken e,
        record {
          inside = omega (arith, g.inside);
          free = g.free;
          first = elim [ zero ↦ λ lt. ground arith | suc j ↦ λ lt. g.first j (omega arith) ];
        },
      )
]

-- A full table has no free frame to be found.
pub find_loop-full : (fs : List Frame) → count_used fs ≡ length fs → find_loop fs ≡ null
unfolding find_loop
find_loop-full [] h = refl
find_loop-full (f ∷ fs) h = ground (arith, find_loop-full fs, count_used-le fs)
