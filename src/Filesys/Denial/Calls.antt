-- ===== src/Filesys/Denial/Calls.antt =====
-- What one call of an open file does to the count of denials of its inode.
use project.Base.{
  mem, ℕ, suc, ◌+◌, ◌-◌, ◌<◌, ◌≤◌, ◌≡◌, ◌≢◌, refl, sym, ap, ◌∙◌, inl, inr, Bool, true, false, List,
  ok, ◌>>=◌, arith, length, slt, ◌==◌, if◌then◌else◌, add32, sub32, Bool-cases, ℕ_discrete, eq→==,
  ne→==,
}
use project.Paging.{null}
use project.Filesys.{
  Fs, FileState, set_inode, set_file, inode_deny_write, inode_allow_write, without,
}
use project.Filesys.Data
use project.Filesys.Create.{inode_close}
use project.Filesys.File.{file_deny_write, file_allow_write, file_write, file_write_at, file_close}
use project.Filesys.Denial.{flag, denials, Users, put}
use project.Filesys.Denial.Count.{
  denials-set, denials-le, denials-pos, mem-without, Nodup-without, denials-without, ne-fresh,
}

-- One file changes, and the count of denials with it.
moved-Users :
    (i : ℕ) (gs : List ℕ) (fs fs' : Fs) (g : ℕ) (f : FileState)
    → Users i gs fs
    → mem g gs ≡ true
    → f.inode ≡ i
    → fs'.files ≡ put fs.files g f
    → (fs'.inodes i).open_cnt ≡ (fs.inodes i).open_cnt
    → (fs'.inodes i).deny_write_cnt + flag (fs.files g) ≡ (fs.inodes i).deny_write_cnt + flag f
    → Users i gs fs'
moved-Users i gs fs fs' g f u h own files opens counts = record {
  some_inode = u.some_inode;
  real = u.real;
  same = λ t m. ap (λ k. (k t).inode) files ∙ elim (ℕ_discrete t g) [
    | yes e ↦ rw (eq→== t g e) own
    | no n ↦ rw (ne→== t g n) (u.same t m)
  ];
  once = u.once;
  counted =
      let changes = denials-set fs.files g f gs u.once h in
      let now = ap (λ k. denials k gs) files in omega (arith, changes, now, counts, u.counted);
  opened = omega (arith, u.opened, opens);
  small = omega (arith, u.small, opens);
}

-- what a call on file `g` leaves, of which no byte goes to the device
pub record Kept (i : ℕ) (gs : List ℕ) (fs : Fs) (g : ℕ) (denies : Bool) (fs' : Fs) : Type 0 where
  pub users : Users i gs fs'
  pub device : fs'.device ≡ fs.device
  pub own : (fs'.files g).deny_write ≡ denies
  pub others : (t : ℕ) → t ≢ g → fs'.files t ≡ fs.files t

module _ (i : ℕ) (gs : List ℕ) (fs : Fs) (g : ℕ) (u : Users i gs fs) (h : mem g gs ≡ true) where
  abbrev f : FileState
  f = fs.files g

  same_file : (denies : Bool) → f.deny_write ≡ denies → Kept i gs fs g denies fs
  same_file denies e = record { users = u; device = refl; own = e; others = λ t n. refl }

  -- the state with the flag of `g` and the count of denials changed
  abbrev flagged : Bool → ℕ → Fs
  flagged denies cnt =
      set_inode (set_file fs g (record f { deny_write = denies })) i
        (record (fs.inodes i) { deny_write_cnt = cnt })

  flagged-Kept :
      (denies : Bool) (cnt : ℕ)
      → cnt + flag f ≡ (fs.inodes i).deny_write_cnt + (if denies then 1 else 0)
      → Kept i gs fs g denies (flagged denies cnt)
  flagged-Kept denies cnt e = record {
    users =
        moved-Users i gs fs (flagged denies cnt) g (record f { deny_write = denies }) u h
          (u.same g h) refl (rw (eq→== i i refl) refl) (rw (eq→== i i refl) e);
    device = refl;
    own = rw (eq→== g g refl) refl;
    others = λ t n. rw (ne→== t g n) refl;
  }

  bound : (fs.inodes i).deny_write_cnt ≤ (fs.inodes i).open_cnt
  bound = omega (arith, u.counted, u.opened, denials-le fs.files gs)

  pub deny-Kept : (fs' : Fs) × (file_deny_write fs g ≡ ok fs') × Kept i gs fs g true fs'
  unfolding file_deny_write inode_deny_write
  deny-Kept =
      let x = fs.inodes i in
      let there = ne→== g null (u.real g h) in
      elim (Bool-cases f.deny_write) [
        | inl e ↦ (fs, rw (there, e) refl, same_file true e)
        | inr e ↦
            let unset : flag f ≡ 0 = rw e refl in
            let less : denials fs.files gs + 1 ≤ length gs = omega (
              arith,
              denials-set fs.files g (record f { deny_write = true }) gs u.once h,
              denials-le (put fs.files g (record f { deny_write = true })) gs,
              unset,
            ) in
            let raised : add32 x.deny_write_cnt 1 ≡ suc x.deny_write_cnt =
              omega (arith, bound, u.small) in
            let below : slt x.open_cnt (suc x.deny_write_cnt) ≡ false =
              ground (arith, less, u.counted, u.opened, u.small) in
            (
              flagged true (suc x.deny_write_cnt),
              rw (there, e, u.same g h, raised, below) refl,
              flagged-Kept true (suc x.deny_write_cnt) (omega (arith, unset)),
            )
      ]

  pub allow-Kept : (fs' : Fs) × (file_allow_write fs g ≡ ok fs') × Kept i gs fs g false fs'
  unfolding file_allow_write inode_allow_write
  allow-Kept =
      let x = fs.inodes i in
      let there = ne→== g null (u.real g h) in
      elim (Bool-cases f.deny_write) [
        | inr e ↦ (fs, rw (there, e) refl, same_file false e)
        | inl e ↦
            let is_set : flag f ≡ 1 = rw e refl in
            let some : 0 < x.deny_write_cnt =
              omega (arith, u.counted, denials-pos fs.files g gs h e) in
            let positive : slt 0 x.deny_write_cnt ≡ true = ground (arith, some, bound, u.small) in
            let within : slt x.open_cnt x.deny_write_cnt ≡ false = ground (arith, bound, u.small) in
            let lowered : sub32 x.deny_write_cnt 1 ≡ x.deny_write_cnt - 1 =
              omega (arith, some, bound, u.small) in
            (
              flagged false (x.deny_write_cnt - 1),
              rw (there, e, u.same g h, positive, within, lowered) refl,
              flagged-Kept false (x.deny_write_cnt - 1) (omega (arith, is_set, some)),
            )
      ]

  module _ (denied : 0 < (fs.inodes i).deny_write_cnt) (buffer : List ℕ) (size : ℕ)
      (room : Bool) where
    -- a file after a write of no bytes
    abbrev pub unwritten : Fs
    unwritten = set_file fs g (record f { pos = add32 f.pos 0 })

    pub write-Kept :
        (file_write fs g buffer size room ≡ ok (0, unwritten))
        × Kept i gs fs g f.deny_write unwritten
    unfolding file_write Data.write_at
    write-Kept =
        let no_write : ((fs.inodes f.inode).deny_write_cnt == 0) ≡ false =
          rw (u.same g h) (ne→== _ 0 (omega (arith, denied))) in
        (
          rw no_write refl,
          record {
            users =
                moved-Users i gs fs unwritten g (record f { pos = add32 f.pos 0 }) u h (u.same g h)
                  refl refl refl;
            device = refl;
            own = rw (eq→== g g refl) refl;
            others = λ t n. rw (ne→== t g n) refl;
          },
        )

    pub write_at-same : (ofs : ℕ) → file_write_at fs g buffer size ofs room ≡ ok (0, fs)
    unfolding file_write_at Data.write_at
    write_at-same ofs =
        let no_write : ((fs.inodes f.inode).deny_write_cnt == 0) ≡ false =
          rw (u.same g h) (ne→== _ 0 (omega (arith, denied))) in
        rw no_write refl

  close-steps :
      (room : Bool)
      → file_close fs g room
        ≡ (file_allow_write fs g >>= λ fs'. inode_close fs' (fs'.files g).inode room)
  unfolding file_close file_allow_write
  close-steps room = rw (ne→== g null (u.real g h)) refl

  pub close-Users :
      (room : Bool)
      → 1 < length gs
      → (fs' : Fs) × (file_close fs g room ≡ ok fs')
        × Users i (without g gs) fs'
        × (fs'.device ≡ fs.device)
        × ((t : ℕ) → t ≢ g → fs'.files t ≡ fs.files t)
  unfolding inode_close
  close-Users room more =
      let (fs1, allows, k) = allow-Kept in
      let x = fs1.inodes i in
      let one_less : sub32 x.open_cnt 1 ≡ x.open_cnt - 1 =
        omega (arith, more, k.users.opened, k.users.small) in
      let left : (x.open_cnt - 1 == 0) ≡ false = ne→== _ 0 (omega (arith, more, k.users.opened)) in
      let (rest, fresh) = Nodup-without g gs u.once in
      let (count, fewer) = denials-without fs1.files g gs h in
      let clear : flag (fs1.files g) ≡ 0 = rw k.own refl in
      let inside = λ (t : ℕ) (m : mem t (without g gs) ≡ true).
        sym (mem-without g t gs (ne-fresh g t (without g gs) fresh m)) ∙ m in
      (
        set_inode fs1 i (record x { open_cnt = x.open_cnt - 1 }),
        close-steps room
            ∙ rw (allows, k.users.same g h, ne→== i null u.some_inode, one_less, left) refl,
        record {
          some_inode = u.some_inode;
          real = λ t m. u.real t (inside t m);
          same = λ t m. k.users.same t (inside t m);
          once = rest;
          counted = rw (eq→== i i refl) (omega (arith, k.users.counted, count, clear));
          opened = rw (eq→== i i refl) (omega (arith, k.users.opened, fewer));
          small = rw (eq→== i i refl) (omega (arith, k.users.small));
        },
        k.device,
        k.others,
      )
