-- ===== src/Filesys/Denial/Blocks.antt =====
-- No writes between `file_deny_write` and `file_allow_write`.
use project.Base.{
  mem, ℕ, ◌<◌, ◌≡◌, refl, sym, ap, ◌∙◌, Bool, true, false, List, [], ◌∷◌, ok, arith, ℕ_discrete,
}
use project.Filesys.{Fs}
use project.Filesys.File.{file_deny_write, file_allow_write}
use project.Filesys.Denial.{
  Users, Call, deny, allow, close, write, write_at, call, run, left, all_left, MayCall, Permitted,
}
use project.Filesys.Denial.Count.{denials-pos, mem-without, two_members}
use project.Filesys.Denial.Calls.{
  Kept, deny-Kept, allow-Kept, write-Kept, write_at-same, close-Users,
}

-- what stays as long as `file` denies writes
record Blocked (i file : ℕ) (gs : List ℕ) (fs fs' : Fs) : Type 0 where
  users : Users i gs fs'
  there : mem file gs ≡ true
  denies : (fs'.files file).deny_write ≡ true
  device : fs'.device ≡ fs.device

module _ (i file : ℕ) (gs : List ℕ) (fs : Fs) (u : Users i gs fs) (there : mem file gs ≡ true)
    (denies : (fs.files file).deny_write ≡ true) where
  -- a call that keeps the files
  Kept-Blocked :
      (g : ℕ) (d : Bool) {fs' : Fs}
      → (g ≡ file → d ≡ true)
      → Kept i gs fs g d fs'
      → Blocked i file gs fs fs'
  Kept-Blocked g d {fs'} own k = record {
    users = k.users;
    there = there;
    denies = elim (ℕ_discrete file g) [
      | yes e ↦ ap (λ t. (fs'.files t).deny_write) e ∙ k.own ∙ own (sym e)
      | no n ↦ ap (λ f. f.deny_write) (k.others file n) ∙ denies
    ];
    device = k.device;
  }

  denied : 0 < (fs.inodes i).deny_write_cnt
  denied = omega (arith, u.counted, denials-pos fs.files file gs there denies)

  call-Blocked :
      (c : Call)
      → MayCall file gs c
      → (fs' : Fs) × (call c fs ≡ ok (0, fs')) × Blocked i file (left c gs) fs fs'
  unfolding call
  call-Blocked (deny g) m =
      let (fs', e, k) = deny-Kept i gs fs g u m in
      (fs', rw e refl, Kept-Blocked g true (λ x. refl) k)
  call-Blocked (allow g) (m, n) =
      let (fs', e, k) = allow-Kept i gs fs g u m in
      (fs', rw e refl, Kept-Blocked g false (λ x. absurd (n x)) k)
  call-Blocked (close g room) (m, n) =
      let (fs', e, v, device, others) =
        close-Users i gs fs g u m room (two_members g file gs m there n) in
      (
        fs',
        rw e refl,
        record {
          users = v;
          there = mem-without g file gs (λ x. n (sym x)) ∙ there;
          denies = ap (λ f. f.deny_write) (others file (λ x. n (sym x))) ∙ denies;
          device = device;
        },
      )
  call-Blocked (write g buffer size room) m =
      let (e, k) = write-Kept i gs fs g u m denied buffer size room in
      (
        _,
        e,
        Kept-Blocked g (fs.files g).deny_write (λ x. ap (λ t. (fs.files t).deny_write) x ∙ denies)
            k,
      )
  call-Blocked (write_at g buffer size ofs room) m = (
    fs,
    write_at-same i gs fs g u m denied buffer size room ofs,
    record { users = u; there = there; denies = denies; device = refl },
  )

run-Blocked :
    (cs : List Call) (i file : ℕ) (gs : List ℕ) (fs : Fs)
    → Users i gs fs
    → mem file gs ≡ true
    → (fs.files file).deny_write ≡ true
    → Permitted file gs cs
    → (fs' : Fs) × (run cs fs ≡ ok (0, fs')) × Blocked i file (all_left cs gs) fs fs'
unfolding run
run-Blocked [] i file gs fs u there denies p =
    (fs, refl, record { users = u; there = there; denies = denies; device = refl })
run-Blocked (c ∷ cs) i file gs fs u there denies p =
    let (fs1, e, b) = call-Blocked i file gs fs u there denies c p.0 in
    let (fs2, e', b') = run-Blocked cs i file (left c gs) fs1 b.users b.there b.denies p.1 in
    (
      fs2,
      rw (e, e') refl,
      record {
        users = b'.users;
        there = b'.there;
        denies = b'.denies;
        device = b'.device ∙ b.device;
      },
    )

-- An open file denies writes by `file_deny_write`, and allows them again by `file_allow_write`. In
-- between, the open files of its inode may write (with `file_write` or `file_write_at`), deny, and,
-- but for this one, allow writes and be closed, in any order. Then no call fails, each write returns
-- 0 and the device is as it was; and at the end, as before, the inode's count of denials is the
-- number of its open files that deny writes, of which this one is none.
pub file_deny_write-blocks :
    (i file : ℕ) (gs : List ℕ) (fs : Fs) (cs : List Call)
    → Users i gs fs
    → mem file gs ≡ true
    → Permitted file gs cs
    → (fs1 fs2 fs3 : Fs) × (file_deny_write fs file ≡ ok fs1)
      × (run cs fs1 ≡ ok (0, fs2))
      × (fs2.device ≡ fs.device)
      × (file_allow_write fs2 file ≡ ok fs3)
      × ((fs3.files file).deny_write ≡ false)
      × Users i (all_left cs gs) fs3
file_deny_write-blocks i file gs fs cs u there p =
    let (fs1, denies, k) = deny-Kept i gs fs file u there in
    let (fs2, runs, b) = run-Blocked cs i file gs fs1 k.users there k.own p in
    let (fs3, allows, k') = allow-Kept i (all_left cs gs) fs2 file b.users b.there in
    (fs1, fs2, fs3, denies, runs, b.device ∙ k.device, allows, k'.own, k'.users)
