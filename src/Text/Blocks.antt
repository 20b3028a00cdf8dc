-- ===== src/Text/Blocks.antt =====
-- Blocks of bytes: `memcpy`, `memmove`, `memset` and `memcmp` of lib/string.c.
use project.Base.{
  ℕ, zero, suc, ◌+◌, ◌-◌, ◌%◌, ◌≤◌, ◌≡◌, ◌≢◌, ◌⊎◌, inl, inr, refl, ap, ◌∙◌, true, not, ◌&&◌, ◌||◌,
  arith, ok, ◌==◌, ltb, leb, if◌then◌else◌, Bool-cases,
}
use project.Paging.{null}
use project.Text.{Memory, store, copy_up, copy_down, memcpy, memmove, fill, memset}

-- The memory with the `size` bytes that stood at `src` at `dst`, all at once.
abbrev pub moved : Memory → (dst src size : ℕ) → Memory
moved m dst src size = λ a. if leb dst a && ltb a (dst + size) then m (src + (a - dst)) else m a

-- what the assertions test of an address
exists : {p size : ℕ} → (p ≢ null) ⊎ (size ≡ 0) → (not (p == null) || (size == 0)) ≡ true
exists h = ground (arith, h)

pub copy_up-moved :
    (size : ℕ) (m : Memory) (dst src : ℕ)
    → (dst ≤ src) ⊎ (src + size ≤ dst)
    → (a : ℕ) → copy_up size m dst src a ≡ moved m dst src size a
unfolding copy_up
copy_up-moved zero m dst src h a = ground arith
copy_up-moved (suc size) m dst src h a =
    copy_up-moved size (store m dst (m src)) (dst + 1) (src + 1)
      (elim h [ inl b ↦ inl (omega (arith, b)) | inr b ↦ inr (omega (arith, b)) ]) a
    ∙ ground (arith, h)

copy_down-moved :
    (size : ℕ) (m : Memory) (dst src : ℕ)
    → (src ≤ dst) ⊎ (dst + size ≤ src)
    → (a : ℕ) → copy_down size m (dst + size) (src + size) a ≡ moved m dst src size a
unfolding copy_down
copy_down-moved zero m dst src h a = ground arith
copy_down-moved (suc size) m dst src h a =
    let m' = store m (dst + suc size - 1) (m (src + suc size - 1)) in
    ap (λ d. copy_down size m' d (src + suc size - 1) a) (omega arith)
    ∙ ap (λ s. copy_down size m' (dst + size) s a) (omega arith)
    ∙ copy_down-moved size m' dst src (elim h [ inl b ↦ inl b | inr b ↦ inr (omega (arith, b)) ]) a
    ∙ ground (arith, h)

-- `memmove` leaves at `dst` the bytes that stood at `src`, also where the two blocks overlap, and
-- changes no other byte. It returns `dst` where it copies downwards, and otherwise the end of the
-- block, `dst + size`.
pub memmove-moved :
    (m : Memory) (dst src size : ℕ)
    → (dst ≢ null) ⊎ (size ≡ 0)
    → (src ≢ null) ⊎ (size ≡ 0)
    → (m' : Memory) × (memmove m dst src size ≡ ok (if ltb dst src then dst + size else dst, m'))
      × ((a : ℕ) → m' a ≡ moved m dst src size a)
unfolding memmove
memmove-moved m dst src size d s = elim (Bool-cases (ltb dst src)) [
  | inl c ↦ (
    copy_up size m dst src,
    rw (exists d, exists s, c) refl,
    copy_up-moved size m dst src (inl (ground (arith, c))),
  )
  | inr c ↦ (
    copy_down size m (dst + size) (src + size),
    rw (exists d, exists s, c)
        (ap (λ r. ok (r, copy_down size m (dst + size) (src + size))) (omega arith)),
    copy_down-moved size m dst src (inl (ground (arith, c))),
  )
]

-- `memcpy` of blocks that do not overlap does the same, and returns `dst`.
pub memcpy-moved :
    (m : Memory) (dst src size : ℕ)
    → (dst ≢ null) ⊎ (size ≡ 0)
    → (src ≢ null) ⊎ (size ≡ 0)
    → (dst + size ≤ src) ⊎ (src + size ≤ dst)
    → (m' : Memory) × (memcpy m dst src size ≡ ok (dst, m'))
      × ((a : ℕ) → m' a ≡ moved m dst src size a)
unfolding memcpy
memcpy-moved m dst src size d s apart = (
  copy_up size m dst src,
  rw (exists d, exists s) refl,
  copy_up-moved size m dst src (elim apart [ inl b ↦ inl (omega (arith, b)) | inr b ↦ inr b ]),
)

fill-filled :
    (size : ℕ) (m : Memory) (dst value a : ℕ)
    → fill size m dst value a ≡ (if leb dst a && ltb a (dst + size) then value % 256 else m a)
unfolding fill
fill-filled zero m dst value a = ground arith
fill-filled (suc size) m dst value a =
    fill-filled size (store m dst (value % 256)) (dst + 1) value a ∙ ground arith

-- `memset` leaves `value`, as a byte, in each byte of the block, and changes no other.
pub memset-fill :
    (m : Memory) (dst value size : ℕ)
    → (dst ≢ null) ⊎ (size ≡ 0)
    → (m' : Memory) × (memset m dst value size ≡ ok (dst, m'))
      × ((a : ℕ) → m' a ≡ (if leb dst a && ltb a (dst + size) then value % 256 else m a))
unfolding memset
memset-fill m dst value size d =
    (fill size m dst value, rw (exists d) refl, fill-filled size m dst value)
