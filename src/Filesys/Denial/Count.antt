-- ===== src/Filesys/Denial/Count.antt =====
-- How many open files deny writes.
use project.Base.{
  mem, Nodup, ℕ, ◌+◌, ◌<◌, ◌≤◌, ◌≡◌, ◌≢◌, refl, sym, ap, ◌∙◌, true, false, List, [], ◌∷◌, arith,
  length, ℕ_discrete, eq→==, ne→==,
}
use project.Filesys.{FileState, without}
use project.Filesys.Denial.{flag, denials, put}

denials-other :
    (files : ℕ → FileState) (g : ℕ) (f : FileState) (gs : List ℕ)
    → mem g gs ≡ false
    → denials (put files g f) gs ≡ denials files gs
denials-other files g f [] h = refl
denials-other files g f (x ∷ gs) h =
    let n : x ≢ g = λ e. ground (arith, h, e) in
    rw (ne→== x g n, denials-other files g f gs (ground (arith, h))) refl

pub denials-set :
    (files : ℕ → FileState) (g : ℕ) (f : FileState) (gs : List ℕ)
    → Nodup gs
    → mem g gs ≡ true
    → denials (put files g f) gs + flag (files g) ≡ denials files gs + flag f
denials-set files g f [] once h = absurd (cc)
denials-set files g f (x ∷ gs) once h = elim (ℕ_discrete x g) [
  | yes e ↦
      let fresh : mem g gs ≡ false = ap (λ y. mem y gs) (sym e) ∙ once.0 in
      rw (eq→== x g e, denials-other files g f gs fresh, e) (omega arith)
  | no n ↦
      let inside : mem g gs ≡ true = ground (arith, h, n) in
      rw (ne→== x g n) (omega (arith, denials-set files g f gs once.1 inside))
]

pub denials-le : (files : ℕ → FileState) (gs : List ℕ) → denials files gs ≤ length gs
denials-le files [] = omega arith
denials-le files (g ∷ gs) = ground (arith, denials-le files gs)

pub denials-pos :
    (files : ℕ → FileState) (g : ℕ) (gs : List ℕ)
    → mem g gs ≡ true
    → (files g).deny_write ≡ true
    → 0 < denials files gs
denials-pos files g [] h d = absurd (cc)
denials-pos files g (x ∷ gs) h d = elim (ℕ_discrete x g) [
  | yes e ↦
      let denies : (files x).deny_write ≡ true = ap (λ y. (files y).deny_write) e ∙ d in
      rw denies (omega arith)
  | no n ↦ omega (arith, denials-pos files g gs (ground (arith, h, n)) d)
]

-- A file less.
pub mem-without : (g t : ℕ) (gs : List ℕ) → t ≢ g → mem t (without g gs) ≡ mem t gs
mem-without g t [] n = refl
mem-without g t (x ∷ gs) n = ground (arith, mem-without g t gs n, n)

without-fresh : (g t : ℕ) (gs : List ℕ) → mem t gs ≡ false → mem t (without g gs) ≡ false
without-fresh g t [] h = refl
without-fresh g t (x ∷ gs) h = ground (arith, without-fresh g t gs (ground (arith, h)), h)

pub Nodup-without :
    (g : ℕ) (gs : List ℕ) → Nodup gs → Nodup (without g gs) × (mem g (without g gs) ≡ false)
Nodup-without g [] once = (tt, refl)
Nodup-without g (x ∷ gs) once = elim (ℕ_discrete x g) [
  | yes e ↦ rw (eq→== x g e) (once.1, ap (λ y. mem y gs) (sym e) ∙ once.0)
  | no n ↦
      let (rest, fresh) = Nodup-without g gs once.1 in
      let other : mem g (x ∷ without g gs) ≡ false = ground (arith, fresh, n) in
      rw (ne→== x g n) ((without-fresh g x gs once.0, rest), other)
]

pub denials-without :
    (files : ℕ → FileState) (g : ℕ) (gs : List ℕ)
    → mem g gs ≡ true
    → (denials files (without g gs) + flag (files g) ≡ denials files gs)
      × (length (without g gs) + 1 ≡ length gs)
denials-without files g [] h = absurd (cc)
denials-without files g (x ∷ gs) h = elim (ℕ_discrete x g) [
  | yes e ↦ rw (eq→== x g e, e) (omega arith, omega arith)
  | no n ↦
      let (d, l) = denials-without files g gs (ground (arith, h, n)) in
      rw (ne→== x g n) (omega (arith, d), omega (arith, l))
]

pub ne-fresh : (g t : ℕ) (gs : List ℕ) → mem g gs ≡ false → mem t gs ≡ true → t ≢ g
ne-fresh g t gs fresh m e = ground (arith, fresh, m, e)

-- a list with two files
pub two_members :
    (g t : ℕ) (gs : List ℕ) → mem g gs ≡ true → mem t gs ≡ true → g ≢ t → 1 < length gs
two_members g t [] h m n = absurd (cc)
two_members g t (x ∷ []) h m n = absurd (ground (arith, h, m, n))
two_members g t (x ∷ (y ∷ gs)) h m n = omega arith
