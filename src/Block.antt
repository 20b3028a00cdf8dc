-- ===== src/Block.antt =====
-- devices/block.c: block devices. The driver behind `block->ops` is the disk itself: what was last
-- written to a sector is what a read of it gives.
use project.Base.{
  ℕ, ◌+◌, ◌%◌, ◌^◌, Bool, not, List, Outcome, ok, assert, ◌>>◌, ltb, ◌==◌, if◌then◌else◌,
}

-- `BLOCK_SECTOR_SIZE`
abbrev pub sector_size : ℕ
sector_size = 512

-- `struct block`. A sector holds a list of bytes.
pub record Block : Type 0 where
  pub size : ℕ
  pub foreign : Bool
  pub read_cnt : ℕ
  pub write_cnt : ℕ
  pub sectors : ℕ → List ℕ

-- `PANIC` past the end of the device
unfoldable pub check_sector : Block → ℕ → Outcome (Unit {0})
check_sector b sector = assert (ltb sector b.size)

unfoldable pub read : Block → ℕ → Outcome (List ℕ × Block)
unfolding check_sector
read b sector = do
  check_sector b sector
  ok (b.sectors sector, record b { read_cnt = (b.read_cnt + 1) % 2 ^ 64 })

unfoldable pub write : Block → ℕ → List ℕ → Outcome Block
unfolding check_sector
write b sector buffer = do
  check_sector b sector
  assert (not b.foreign)
  ok (record b {
    write_cnt = (b.write_cnt + 1) % 2 ^ 64;
    sectors = λ s. if s == sector then buffer else b.sectors s;
  })
