-- ===== src/Filesys/Data/Tests.antt =====
-- An inode of two sectors, and the theorems at it.
use project.Base.{ℕ, ◌≡◌, refl, true, false, List, [], ◌∷◌, ok, arith, replicate, length-replicate}
use project.Block
use project.Block.{Block}
use project.Filesys.Data.{
  Inode, read_at, read_loop, write_at, write_loop, write_chunk, bounce, byte_to_sector, chunk_size,
  inode_length,
}
use project.Filesys.Data.Bytes.{content, bytes_from}
use project.Filesys.Data.Reading.{IsBacked, read_at-content}
use project.Filesys.Data.Writing.{Written}
use project.Filesys.Data.Rounds.{write_at-Written, read_at-write_at}

-- the bytes of each sector are its number
abbrev device : Block
device = record {
  size = 16;
  foreign = false;
  read_cnt = 0;
  write_cnt = 0;
  sectors = λ s. replicate 512 s;
}

abbrev file : Inode
file = record {
  sector = 5;
  open_cnt = 1;
  removed = false;
  deny_write_cnt = 0;
  disk = record { start = 6; length = 1000; magic = 0x494e_4f44 };
}

file-IsBacked : IsBacked device file
file-IsBacked = record {
  small = omega arith;
  inside = omega arith;
  word = omega arith;
  whole = λ s. length-replicate 512 s;
  own = refl;
}

-- four bytes across the border of the two sectors
read_at-file :
    read_at device file true 4 510 ≡ ok (6 ∷ 6 ∷ 7 ∷ 7 ∷ [], record device { read_cnt = 2 })
unfolding read_at read_loop byte_to_sector chunk_size inode_length Block.read Block.check_sector
read_at-file = refl

-- at the end of the file there are two bytes left
read_at-content_example :
    (n : ℕ) × (read_at device file true 4 998
      ≡ ok (bytes_from (content device file) 998 2, record device { read_cnt = n }))
read_at-content_example = read_at-content device file 4 998 file-IsBacked (omega arith)

abbrev words : List ℕ
words = 1 ∷ 2 ∷ 3 ∷ []

write_at-Written_example :
    (d' : Block) × (write_at device file true words 3 511 ≡ ok (3, d'))
    × Written device file words 511 3 d'
write_at-Written_example =
    write_at-Written device file words 3 511 file-IsBacked refl (omega arith) (omega arith)

-- the device after that write
written : Block
unfolding write_at write_loop write_chunk bounce byte_to_sector chunk_size inode_length Block.read
    Block.check_sector Block.write
written = elim (write_at device file true words 3 511) [ ok r ↦ r.1 | _ ↦ device ]

written-run : write_at device file true words 3 511 ≡ ok (3, written)
unfolding written write_at write_loop write_chunk bounce byte_to_sector chunk_size inode_length
    Block.read Block.check_sector Block.write
written-run = refl

read_at-write_at_example :
    (r : ℕ) × (read_at written file true 3 511 ≡ ok (words, record written { read_cnt = r }))
read_at-write_at_example =
    read_at-write_at device file words 511 {d' = written} {n = 3} file-IsBacked refl (omega arith)
      (omega arith) written-run
