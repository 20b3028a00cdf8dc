-- ===== src/Filesys/Tests.antt =====
-- A file system with one open inode, and the theorems at it.
use project.Base.{◌≡◌, refl, true, false, List, [], ◌∷◌, ok, arith, replicate, length-replicate}
use project.Block.{Block}
use project.Paging.{null}
use project.Filesys.{Fs, inode_open, open_loop}
use project.Filesys.Data.{Inode}
use project.Filesys.Data.Reading.{IsBacked}
use project.Filesys.File.{file_write, file_seek, file_read, file_deny_write, file_allow_write}
use project.Filesys.Sharing.{inode_open-again, bumped}
use project.Filesys.Denial.{Users, Call, deny, allow, close, write, write_at, run}
use project.Filesys.Denial.Blocks.{file_deny_write-blocks}
use project.Filesys.Transfer.{file_read-file_write}

abbrev device : Block
device = record {
  size = 16;
  foreign = false;
  read_cnt = 0;
  write_cnt = 0;
  sectors = λ s. replicate 512 s;
}

abbrev inode : Inode
inode = record {
  sector = 5;
  open_cnt = 2;
  removed = false;
  deny_write_cnt = 0;
  disk = record { start = 6; length = 1000; magic = 0x494e_4f44 };
}

-- the inode stands at 200, and every file is one of it, at position 510
abbrev fs : Fs
fs = record {
  device = device;
  inodes = λ a. inode;
  open_inodes = 200 ∷ [];
  files = λ a. record { inode = 200; pos = 510; deny_write = false };
  free_map = record { bit_cnt = 16; bits = 0xff ∷ [] };
  free_map_file = null;
}

fs-IsBacked : IsBacked device inode
fs-IsBacked = record {
  small = omega arith;
  inside = omega arith;
  word = omega arith;
  whole = λ s. length-replicate 512 s;
  own = refl;
}

inode_open-fs : inode_open fs 5 300 ≡ ok (200, bumped fs 200)
unfolding inode_open open_loop
inode_open-fs = refl

inode_open-again_example : inode_open (bumped fs 200) 5 400 ≡ ok (200, bumped (bumped fs 200) 200)
inode_open-again_example =
    inode_open-again fs 5 300 400 {a = 200} {fs' = bumped fs 200} (omega arith) inode_open-fs
      (λ e. omega arith)

-- Files 300 and 400 are the openers of the inode.
fs-Users : Users 200 (300 ∷ 400 ∷ []) fs
fs-Users = record {
  some_inode = λ e. omega arith;
  real = λ g m e. ground (arith, m, e);
  same = λ g m. refl;
  once = (refl, (refl, tt));
  counted = refl;
  opened = omega arith;
  small = omega arith;
}

abbrev calls : List Call
calls =
    write 400 (1 ∷ 2 ∷ []) 2 true
    ∷ (deny 400 ∷ (write_at 300 (3 ∷ []) 1 0 true ∷ (allow 400 ∷ (close 400 true ∷ []))))

file_deny_write-blocks_example :
    (fs1 fs2 fs3 : Fs) × (file_deny_write fs 300 ≡ ok fs1)
    × (run calls fs1 ≡ ok (0, fs2))
    × (fs2.device ≡ fs.device)
    × (file_allow_write fs2 300 ≡ ok fs3)
    × ((fs3.files 300).deny_write ≡ false)
    × Users 200 (300 ∷ []) fs3
file_deny_write-blocks_example =
    file_deny_write-blocks 200 300 (300 ∷ 400 ∷ []) fs calls fs-Users refl
      (refl, (refl, (refl, ((refl, λ e. omega arith), ((refl, λ e. omega arith), tt)))))

file_read-file_write_example :
    (fs1 : Fs) × (fs2 : Fs) × (fs3 : Fs) × (file_write fs 300 (1 ∷ 2 ∷ 3 ∷ []) 3 true ≡ ok (3, fs1))
    × (file_seek fs1 300 510 ≡ ok fs2)
    × (file_read fs2 300 3 true ≡ ok (1 ∷ 2 ∷ 3 ∷ [], fs3))
file_read-file_write_example =
    file_read-file_write fs 300 (1 ∷ 2 ∷ 3 ∷ []) fs-IsBacked refl (λ e. omega arith) (omega arith)
