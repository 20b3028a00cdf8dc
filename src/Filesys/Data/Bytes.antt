-- ===== src/Filesys/Data/Bytes.antt =====
-- The bytes of an inode, one by one, and pieces of lists of bytes.
use project.Base.{
  ℕ, zero, suc, ◌+◌, ◌/◌, ◌%◌, ◌≤◌, ◌<◌, ◌≡◌, refl, ap, sym, ◌∙◌, List, [], ◌∷◌, ◌++◌, arith,
  length, get_or, take, drop,
}
use project.Block.{Block, sector_size}
use project.Filesys.Data.{Inode}

-- the byte of the inode's data at a position
abbrev pub content : Block → Inode → ℕ → ℕ
content d x p = get_or (d.sectors (x.disk.start + p / sector_size)) (p % sector_size) 0

-- the `n` bytes from position `p`
abbrev pub bytes_from : (ℕ → ℕ) → (p n : ℕ) → List ℕ
bytes_from f p zero = []
bytes_from f p (suc n) = f p ∷ bytes_from f (suc p) n

pub length-bytes_from : (f : ℕ → ℕ) (p n : ℕ) → length (bytes_from f p n) ≡ n
length-bytes_from f p zero = refl
length-bytes_from f p (suc n) = ap suc (length-bytes_from f (suc p) n)

add-suc-eq : (p m : ℕ) → p + suc m ≡ suc p + m
add-suc-eq p m = omega arith

zero_left : (n : ℕ) → 0 + n ≡ n
zero_left n = omega arith

zero_right : (n : ℕ) → n + 0 ≡ n
zero_right n = omega arith

pub bytes_from-add :
    (f : ℕ → ℕ) (p m n : ℕ) → bytes_from f p (m + n) ≡ bytes_from f p m ++ bytes_from f (p + m) n
bytes_from-add f p zero n = rw (zero_left n, zero_right p) refl
bytes_from-add f p (suc m) n =
    let sum : suc m + n ≡ suc (m + n) = omega arith in
    rw (sum, add-suc-eq p m) (ap (λ r. f p ∷ r) (bytes_from-add f (suc p) m n))

pub bytes_from-ext :
    (f g : ℕ → ℕ) (p q n : ℕ)
    → ((i : ℕ) → i < n → f (p + i) ≡ g (q + i))
    → bytes_from f p n ≡ bytes_from g q n
bytes_from-ext f g p q zero h = refl
bytes_from-ext f g p q (suc n) h =
    let first : f p ≡ g q = ap f (sym (zero_right p)) ∙ h 0 (omega arith) ∙ ap g (zero_right q) in
    ap (λ b. b ∷ bytes_from f (suc p) n) first
    ∙ ap (λ r. g q ∷ r)
        (bytes_from-ext f g (suc p) (suc q) n
          (λ i lt. rw⁻¹ (add-suc-eq p i, add-suc-eq q i) (h (suc i) (omega arith))))

bytes_from-shift :
    (x : ℕ) (xs : List ℕ) (o n : ℕ)
    → bytes_from (λ i. get_or xs i 0) o n ≡ bytes_from (λ i. get_or (x ∷ xs) i 0) (suc o) n
bytes_from-shift x xs o zero = refl
bytes_from-shift x xs o (suc n) = ap (λ r. get_or xs o 0 ∷ r) (bytes_from-shift x xs (suc o) n)

-- a piece of a list, byte by byte
pub take-drop :
    (xs : List ℕ) (o n : ℕ)
    → o + n ≤ length xs
    → take n (drop o xs) ≡ bytes_from (λ i. get_or xs i 0) o n
take-drop [] zero zero h = refl
take-drop [] (suc o) zero h = refl
take-drop [] o (suc n) h = absurd (omega arith)
take-drop (x ∷ xs) zero zero h = refl
take-drop (x ∷ xs) zero (suc n) h =
    ap (λ r. x ∷ r) (take-drop xs 0 n (omega arith) ∙ bytes_from-shift x xs 0 n)
take-drop (x ∷ xs) (suc o) n h = take-drop xs o n (omega arith) ∙ bytes_from-shift x xs o n
