-- ===== src/Filesys/Data/Writing.antt =====
-- What `inode_write_at` leaves on the device.
use project.Base.{
  ℕ, ◌+◌, ◌-◌, ◌/◌, ◌%◌, ◌≤◌, ◌<◌, ◌≡◌, ◌≢◌, refl, ap, sym, ◌∙◌, ◌⊎◌, inl, inr, List, arith, length,
  get_or, drop, ℕ_discrete, dec_lt, eq→==, ne→==, get_or-drop,
}
use project.Block.{Block, sector_size}
use project.Filesys.Data.{Inode}
use project.Filesys.Data.Bytes.{content}
use project.Filesys.Data.Reading.{IsBacked, sector_of}
use project.Filesys.Data.Patch.{
  patched, length-patched, patched-before, patched-inside, patched-after, put,
}

-- The first `n` bytes of the buffer stand in the inode's data from `offset` on; all other bytes of
-- it, and all sectors outside of it, are as they were.
pub record Written (d : Block) (x : Inode) (buffer : List ℕ) (offset n : ℕ) (d' : Block)
    : Type 0 where
  pub backed : IsBacked d' x
  pub inside : (i : ℕ) → i < n → content d' x (offset + i) ≡ get_or buffer i 0
  pub outside : (p : ℕ) → (p < offset) ⊎ (offset + n ≤ p) → content d' x p ≡ content d x p
  pub others :
      (s : ℕ)
      → (s < x.disk.start) ⊎ (x.disk.start + (x.disk.length + 511) / sector_size ≤ s)
      → d'.sectors s ≡ d.sectors s

pub none-Written :
    (d : Block) (x : Inode) (buffer : List ℕ) (offset : ℕ)
    → IsBacked d x
    → Written d x buffer offset 0 d
none-Written d x buffer offset b = record {
  backed = b;
  inside = λ i h. absurd (omega arith);
  outside = λ p h. refl;
  others = λ s h. refl;
}

-- One write after another.
pub Written-add :
    {d d' d'' : Block} {x : Inode} {buffer : List ℕ} {offset m n : ℕ}
    → Written d x buffer offset m d'
    → Written d' x (drop m buffer) (offset + m) n d''
    → Written d x buffer offset (m + n) d''
Written-add {d} {d'} {d''} {x} {buffer} {offset} {m} {n} a c = record {
  backed = c.backed;
  inside = λ i h. elim (dec_lt i m) [
    | yes lt ↦ c.outside (offset + i) (inl (omega arith)) ∙ a.inside i lt
    | no ge ↦
        let place : offset + m + (i - m) ≡ offset + i = omega arith in
        let index : m + (i - m) ≡ i = omega arith in
        ap (content d'' x) (sym place)
        ∙ c.inside (i - m) (omega arith)
        ∙ get_or-drop m buffer (i - m) 0
        ∙ ap (λ k. get_or buffer k 0) index
  ];
  outside = λ p h. c.outside p (ground (arith, h)) ∙ a.outside p (ground (arith, h));
  others = λ s h. c.others s h ∙ a.others s h;
}

-- A round writes its chunk.
module _ (d : Block) (x : Inode) (r offset chunk : ℕ) (buffer : List ℕ) where
  abbrev old : List ℕ
  old = d.sectors (sector_of x offset)

  abbrev new : List ℕ
  new = patched old (offset % sector_size) chunk buffer

  abbrev pub after : Block
  after = put d r (sector_of x offset) new

  module _ (b : IsBacked d x) (fits : offset % sector_size + chunk ≤ sector_size)
      (in_file : chunk ≤ x.disk.length - offset) (here : offset < x.disk.length)
      (given : chunk ≤ length buffer) where
    room : offset % sector_size + chunk ≤ length old
    room = omega (arith, fits, b.whole (sector_of x offset))

    length-after : (s : ℕ) → length (after.sectors s) ≡ sector_size
    length-after s = elim (ℕ_discrete s (sector_of x offset)) [
      | yes e ↦
          rw (eq→== s (sector_of x offset) e)
            (length-patched old (offset % sector_size) chunk buffer room given ∙ b.whole _)
      | no ne ↦ rw (ne→== s (sector_of x offset) ne) (b.whole s)
    ]

    -- a position in the sector that is written, and one elsewhere
    content-here :
        (p : ℕ)
        → p / sector_size ≡ offset / sector_size
        → content after x p ≡ get_or new (p % sector_size) 0
    content-here p e = rw (eq→== (sector_of x p) (sector_of x offset) (omega (arith, e))) refl

    content-there :
        (p : ℕ) → p / sector_size ≢ offset / sector_size → content after x p ≡ content d x p
    content-there p ne = rw (ne→== (sector_of x p) (sector_of x offset) (omega (arith, ne))) refl

    inside-chunk : (i : ℕ) → i < chunk → content after x (offset + i) ≡ get_or buffer i 0
    inside-chunk i h =
        let place : (offset + i) % sector_size ≡ offset % sector_size + i = omega arith in
        content-here (offset + i) (omega arith)
        ∙ ap (λ k. get_or new k 0) place
        ∙ patched-inside old (offset % sector_size) chunk buffer room given i h

    outside-chunk :
        (p : ℕ) → (p < offset) ⊎ (offset + chunk ≤ p) → content after x p ≡ content d x p
    outside-chunk p h = elim (ℕ_discrete (p / sector_size) (offset / sector_size)) [
      | no ne ↦ content-there p ne
      | yes e ↦
          let sector : sector_of x p ≡ sector_of x offset = omega (arith, e) in
          let before_or_after =
            elim h as (λ _. get_or new (p % sector_size) 0 ≡ get_or old (p % sector_size) 0) [
              | inl lt ↦
                  patched-before old (offset % sector_size) chunk buffer room given
                    (p % sector_size) (omega (arith, e, lt))
              | inr ge ↦
                  let i = p % sector_size - (offset % sector_size + chunk) in
                  let at_i : offset % sector_size + (chunk + i) ≡ p % sector_size =
                    omega (arith, e, ge) in
                  let at_i' : offset % sector_size + chunk + i ≡ p % sector_size =
                    omega (arith, e, ge) in
                  ap (λ k. get_or new k 0) (sym at_i)
                  ∙ patched-after old (offset % sector_size) chunk buffer room given i
                  ∙ ap (λ k. get_or old k 0) at_i'
            ] in
          content-here p e
          ∙ before_or_after
          ∙ ap (λ s. get_or (d.sectors s) (p % sector_size) 0) (sym sector)
    ]

    pub put-Written : Written d x buffer offset chunk after
    put-Written = record {
      backed = record {
        small = b.small;
        inside = b.inside;
        word = b.word;
        whole = length-after;
        own = b.own;
      };
      inside = inside-chunk;
      outside = outside-chunk;
      others = λ s h. rw (ne→== s (sector_of x offset) (ground (arith, h, b.inside))) refl;
    }
