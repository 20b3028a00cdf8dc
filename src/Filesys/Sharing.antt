-- ===== src/Filesys/Sharing.antt =====
-- What the users of one inode see of each other.
use project.Base.{
  ℕ, ◌<◌, ◌≡◌, ◌≢◌, refl, ap, ◌∙◌, inl, inr, true, false, List, [], ◌∷◌, ok, ◌==◌, if◌then◌else◌,
  add32, Bool-cases, eq→==, ==→eq, ne→==,
}
use project.Paging.{null}
use project.Filesys.{Fs, set_inode, open_loop, inode_reopen, inode_open, disk_of}
use project.Filesys.Data.{Inode}
use project.Filesys.Data.Reading.{after_read, read-sector}

-- The search reads nothing but the sectors.
open_loop-reopened :
    (inodes : ℕ → Inode) (open_inodes : List ℕ) (a sector cnt : ℕ)
    → open_loop
        (λ b. if b == a then record (inodes a) { open_cnt = cnt } else inodes b)
        open_inodes
        sector
      ≡ open_loop inodes open_inodes sector
unfolding open_loop
open_loop-reopened inodes [] a sector cnt = refl
open_loop-reopened inodes (b ∷ bs) a sector cnt = elim (Bool-cases (b == a)) [
  | inl e ↦ rw (e, open_loop-reopened inodes bs a sector cnt, ==→eq b a e) refl
  | inr ne ↦ rw (ne, open_loop-reopened inodes bs a sector cnt) refl
]

-- an inode with one more opener
abbrev pub bumped : Fs → ℕ → Fs
bumped fs a = set_inode fs a (record (fs.inodes a) { open_cnt = add32 (fs.inodes a).open_cnt 1 })

inode_reopen-bumped : (fs : Fs) (a : ℕ) → (a == null) ≡ false → inode_reopen fs a ≡ (a, bumped fs a)
unfolding inode_reopen
inode_reopen-bumped fs a h = rw h refl

inode_open-found :
    (fs : Fs) (sector fresh a : ℕ)
    → open_loop fs.inodes fs.open_inodes sector ≡ a
    → (a == null) ≡ false
    → inode_open fs sector fresh ≡ ok (inode_reopen fs a)
unfolding inode_open
inode_open-found fs sector fresh a e h = rw (e, h) refl

-- the inode that a sector's data make
abbrev loaded : Fs → (sector fresh : ℕ) → Fs
loaded fs sector fresh =
    set_inode (record fs { device = after_read fs.device; open_inodes = fresh ∷ fs.open_inodes })
      fresh
      (record {
        sector = sector;
        open_cnt = 1;
        removed = false;
        deny_write_cnt = 0;
        disk = disk_of (fs.device.sectors sector);
      })

inode_open-loaded :
    (fs : Fs) (sector fresh : ℕ)
    → (open_loop fs.inodes fs.open_inodes sector == null) ≡ true
    → (fresh == null) ≡ false
    → sector < fs.device.size
    → inode_open fs sector fresh ≡ ok (fresh, loaded fs sector fresh)
unfolding inode_open
inode_open-loaded fs sector fresh missing some_memory inside =
    rw (missing, some_memory, read-sector fs.device sector inside) refl

open_loop-loaded :
    (fs : Fs) (sector fresh : ℕ)
    → open_loop (loaded fs sector fresh).inodes (loaded fs sector fresh).open_inodes sector ≡ fresh
unfolding open_loop
open_loop-loaded fs sector fresh = rw (eq→== fresh fresh refl, eq→== sector sector refl) refl

inode_open-no_memory :
    (fs : Fs) (sector fresh : ℕ)
    → (open_loop fs.inodes fs.open_inodes sector == null) ≡ true
    → (fresh == null) ≡ true
    → inode_open fs sector fresh ≡ ok (null, fs)
unfolding inode_open
inode_open-no_memory fs sector fresh missing none_left = rw (missing, none_left) refl

-- what `inode_open` of an open sector returns
open-bumped :
    (fs : Fs) (sector fresh a : ℕ)
    → open_loop fs.inodes fs.open_inodes sector ≡ a
    → (a == null) ≡ false
    → inode_open fs sector fresh ≡ ok (a, bumped fs a)
open-bumped fs sector fresh a e h =
    inode_open-found fs sector fresh a e h ∙ ap ok (inode_reopen-bumped fs a h)

-- When `inode_open` has opened a sector of the device, a second `inode_open` of that sector gives
-- the same `struct inode`: it has one more opener, and nothing else changes.
pub inode_open-again :
    (fs : Fs) (sector fresh other : ℕ) {a : ℕ} {fs' : Fs}
    → sector < fs.device.size
    → inode_open fs sector fresh ≡ ok (a, fs')
    → a ≢ null
    → inode_open fs' sector other ≡ ok (a, bumped fs' a)
inode_open-again fs sector fresh other {a} {fs'} inside h some_inode =
    let already = open_loop fs.inodes fs.open_inodes sector in
    let not_null : (a == null) ≡ false = ne→== a null some_inode in
    elim (Bool-cases (already == null)) [
      | inr found ↦
          let run = open-bumped fs sector fresh already refl found in
          let same : fs' ≡ bumped fs already = cc in
          let same_inode : a ≡ already = cc in
          let again : open_loop fs'.inodes fs'.open_inodes sector ≡ a =
            rw (same, same_inode) (open_loop-reopened fs.inodes fs.open_inodes already sector _) in
          open-bumped fs' sector other a again not_null
      | inl missing ↦ elim (Bool-cases (fresh == null)) [
        | inl none_left ↦
            let run = inode_open-no_memory fs sector fresh missing none_left in
            let is_null : a ≡ null = cc in absurd (some_inode is_null)
        | inr some_memory ↦
            let run = inode_open-loaded fs sector fresh missing some_memory inside in
            let same : fs' ≡ loaded fs sector fresh = cc in
            let same_inode : a ≡ fresh = cc in
            let again : open_loop fs'.inodes fs'.open_inodes sector ≡ a =
              rw (same, same_inode) (open_loop-loaded fs sector fresh) in
            open-bumped fs' sector other a again not_null
      ]
    ]
