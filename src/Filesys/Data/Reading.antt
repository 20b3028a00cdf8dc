-- ===== src/Filesys/Data/Reading.antt =====
-- What `inode_read_at` returns.
use project.Base.{
  ℕ, zero, suc, ◌+◌, ◌-◌, ◌/◌, ◌%◌, ◌^◌, ◌≤◌, ◌<◌, ◌≡◌, min, refl, ap, sym, ◌∙◌, true, false, List,
  [], ◌++◌, arith, ok, length, get_or, take, drop, ltb, slt, if◌then◌else◌, word_mod, take_all,
  Bool-cases, lt→ltb, append-nil, append_assoc, inl, inr, ℕ_discrete,
}
use native.Mathlib.Nat.{le_refl}
use project.Block
use project.Block.{Block, sector_size}
use project.Filesys.Data.{
  Inode, byte_to_sector, chunk_size, inode_length, is_whole, goes_on, read_loop, read_at,
}
use project.Filesys.Data.Bytes.{content, bytes_from, bytes_from-add, bytes_from-ext, take-drop}

-- The sectors of the inode's data are sectors of the device, which are 512 bytes long and which the
-- kernel may write.
pub record IsBacked (d : Block) (x : Inode) : Type 0 where
  pub small : x.disk.length < 2 ^ 31
  pub inside : x.disk.start + (x.disk.length + 511) / sector_size ≤ d.size
  pub word : d.size < word_mod
  pub whole : (s : ℕ) → length (d.sectors s) ≡ sector_size
  pub own : d.foreign ≡ false

-- one more read on the device's count
abbrev pub after_read : Block → Block
after_read d = record d { read_cnt = (d.read_cnt + 1) % 2 ^ 64 }

-- the data sector of a position
abbrev pub sector_of : Inode → ℕ → ℕ
sector_of x p = x.disk.start + p / sector_size

pub sector_of-lt :
    {d : Block} {x : Inode} → IsBacked d x → (p : ℕ) → p < x.disk.length → sector_of x p < d.size
sector_of-lt b p h = omega (arith, b.inside)

pub byte_to_sector-inside :
    {d : Block} (x : Inode)
    → IsBacked d x
    → (p : ℕ) → p < x.disk.length
    → byte_to_sector x p ≡ sector_of x p
unfolding byte_to_sector
byte_to_sector-inside x b p h =
    rw (lt→ltb p x.disk.length h) (omega (arith, b.word, sector_of-lt b p h))

pub read-sector : (d : Block) (s : ℕ) → s < d.size → Block.read d s ≡ ok (d.sectors s, after_read d)
unfolding Block.read Block.check_sector
read-sector d s h = rw (lt→ltb s d.size h) refl

after_read-IsBacked : {d : Block} {x : Inode} → IsBacked d x → IsBacked (after_read d) x
after_read-IsBacked b = record {
  small = b.small;
  inside = b.inside;
  word = b.word;
  whole = b.whole;
  own = b.own;
}

-- A chunk stays in its sector, in the inode and in what is asked for; it is not empty before the end.
pub chunk_size-bounds :
    (x : Inode) (size offset : ℕ)
    → let chunk = chunk_size x size offset in
      (chunk ≤ size)
      × (offset % sector_size + chunk ≤ sector_size)
      × (chunk ≤ x.disk.length - offset)
      × (0 < size → offset < x.disk.length → 0 < chunk)
unfolding chunk_size inode_length
chunk_size-bounds x size offset = (omega arith, omega arith, omega arith, λ p q. omega arith)

-- the part of a sector that a round takes
abbrev pub piece_of : (bytes : List ℕ) → (offset chunk : ℕ) → List ℕ
piece_of bytes offset chunk =
    if is_whole offset chunk then bytes else take chunk (drop (offset % sector_size) bytes)

pub is_whole-parts :
    (offset chunk : ℕ)
    → is_whole offset chunk ≡ true
    → (offset % sector_size ≡ 0) × (chunk ≡ sector_size)
is_whole-parts offset chunk h = (ground arith, ground arith)

piece_of-take :
    (bytes : List ℕ) (offset chunk : ℕ)
    → length bytes ≡ sector_size
    → piece_of bytes offset chunk ≡ take chunk (drop (offset % sector_size) bytes)
piece_of-take bytes offset chunk h = elim (Bool-cases (is_whole offset chunk)) [
  | inl whole ↦
      let (aligned, full) = is_whole-parts offset chunk whole in
      rw (whole, aligned, full) (sym (take_all sector_size bytes (omega (arith, h))))
  | inr part ↦ rw part refl
]

-- Positions of one sector.
pub content-sector :
    (d : Block) (x : Inode) (offset i : ℕ)
    → offset % sector_size + i < sector_size
    → content d x (offset + i)
      ≡ get_or (d.sectors (sector_of x offset)) (offset % sector_size + i) 0
content-sector d x offset i h =
    let same_sector : (offset + i) / sector_size ≡ offset / sector_size = omega arith in
    let place : (offset + i) % sector_size ≡ offset % sector_size + i = omega arith in
    rw (same_sector, place) refl

piece_of-bytes_from :
    (d : Block) (x : Inode) (offset chunk : ℕ)
    → IsBacked d x
    → offset % sector_size + chunk ≤ sector_size
    → piece_of (d.sectors (sector_of x offset)) offset chunk ≡ bytes_from (content d x) offset chunk
piece_of-bytes_from d x offset chunk b h =
    let s = d.sectors (sector_of x offset) in
    piece_of-take s offset chunk (b.whole _)
    ∙ take-drop s (offset % sector_size) chunk (omega (arith, b.whole (sector_of x offset)))
    ∙ bytes_from-ext _ (content d x) (offset % sector_size) offset chunk
        (λ i lt. sym (content-sector d x offset i (omega arith)))

pub goes_on-true :
    (size offset chunk : ℕ)
    → size < 2 ^ 31
    → 0 < size
    → 0 < chunk
    → goes_on true size offset chunk ≡ true
goes_on-true size offset chunk small p q =
    let positive : slt 0 size ≡ true = ground arith in
    rw (positive, lt→ltb 0 chunk q) (ground arith)

-- The loop stops where it has all bytes there are.
pub stops :
    (x : Inode) (size offset : ℕ)
    → size < 2 ^ 31
    → min size (x.disk.length - offset) ≡ 0
    → goes_on true size offset (chunk_size x size offset) ≡ false
stops x size offset small h =
    let (below, _, inside, _) = chunk_size-bounds x size offset in
    let none_left : ltb 0 (chunk_size x size offset) ≡ false = ground arith in ground arith

-- A round, where the loop goes on.
read_loop-round :
    (rounds : ℕ) (d : Block) (x : Inode) (size offset : ℕ) (out : List ℕ)
    → IsBacked d x
    → size < 2 ^ 31
    → 0 < size
    → offset < x.disk.length
    → let chunk = chunk_size x size offset in
      read_loop (suc rounds) d x true size offset out
      ≡ read_loop rounds
          (after_read d)
          x
          true
          (size - chunk)
          (offset + chunk)
          (out ++ bytes_from (content d x) offset chunk)
unfolding read_loop
read_loop-round rounds d x size offset out b small some inside =
    let (below, in_sector, in_file, positive) = chunk_size-bounds x size offset in
    rw
      (
        goes_on-true size offset (chunk_size x size offset) small some (positive some inside),
        byte_to_sector-inside x b offset inside,
        read-sector d (sector_of x offset) (sector_of-lt b offset inside),
        piece_of-bytes_from d x offset (chunk_size x size offset) b in_sector,
      )
      refl

-- the bytes of a chunk and those of the rounds after it
join_bytes :
    (f : ℕ → ℕ) (out : List ℕ) (p m n : ℕ)
    → (out ++ bytes_from f p m) ++ bytes_from f (p + m) n ≡ out ++ bytes_from f p (m + n)
join_bytes f out p m n =
    append_assoc out (bytes_from f p m) _ ∙ ap (λ r. out ++ r) (sym (bytes_from-add f p m n))

read_loop-bytes_from :
    (rounds : ℕ) (d : Block) (x : Inode) (size offset : ℕ) (out : List ℕ)
    → IsBacked d x
    → size ≤ rounds
    → size < 2 ^ 31
    → (n : ℕ) × (read_loop rounds d x true size offset out
        ≡ ok (
          out ++ bytes_from (content d x) offset (min size (x.disk.length - offset)),
          record d { read_cnt = n },
        ))
unfolding read_loop
read_loop-bytes_from zero d x size offset out b h small =
    let nothing : min size (x.disk.length - offset) ≡ 0 = omega arith in
    (d.read_cnt, rw (nothing, append-nil out) refl)
read_loop-bytes_from (suc rounds) d x size offset out b h small =
    let chunk = chunk_size x size offset in
    let left = min size (x.disk.length - offset) in
    let (below, in_sector, in_file, positive) = chunk_size-bounds x size offset in
    elim (ℕ_discrete left 0) [
      | yes none_left ↦
          (d.read_cnt, rw (stops x size offset small none_left, none_left, append-nil out) refl)
      | no some_left ↦
          let more : 0 < chunk = positive (omega arith) (omega arith) in
          let (n, rest) =
            read_loop-bytes_from rounds (after_read d) x (size - chunk) (offset + chunk)
              (out ++ bytes_from (content d x) offset chunk) (after_read-IsBacked b) (omega arith)
              (omega arith) in
          let sum : chunk + min (size - chunk) (x.disk.length - (offset + chunk)) ≡ left =
            omega arith in
          (
            n,
            read_loop-round rounds d x size offset out b small (omega arith) (omega arith)
                ∙ rest
                ∙ ap (λ r. ok (r, record d { read_cnt = n }))
                    (join_bytes (content d x) out offset chunk _
                      ∙ ap (λ k. out ++ bytes_from (content d x) offset k) sum),
          )
    ]

-- `inode_read_at` of an inode whose sectors are on the device, for a size that is no negative
-- `off_t`: it returns the bytes from the offset on, as many as asked for or as there are up to the
-- end of the file, and the device keeps its contents.
pub read_at-content :
    (d : Block) (x : Inode) (size offset : ℕ)
    → IsBacked d x
    → size < 2 ^ 31
    → (n : ℕ) × (read_at d x true size offset
        ≡ ok (
          bytes_from (content d x) offset (min size (x.disk.length - offset)),
          record d { read_cnt = n },
        ))
unfolding read_at
read_at-content d x size offset b small =
    read_loop-bytes_from size d x size offset [] b (le_refl size) small
