-- ===== src/Palloc.antt =====
-- threads/palloc.c: the allocator of pages. `palloc_get_multiple` searches under the lock of its pool,
-- and `palloc_free_multiple` takes no lock: the model runs one call after the other.
pub mod Groups
pub mod Roundtrip
mod Tests
use project.Base.{
  ℕ, ◌+◌, ◌-◌, ◌*◌, ◌/◌, ◌%◌, Bool, true, false, not, ◌&&◌, ◌||◌, List, Outcome, ok, panic, assert,
  ◌>>=◌, ◌>>◌, ◌==◌, ltb, leb, if◌then◌else◌, add32, sub32, div_round_up, min,
}
use project.Bitmap.{Bitmap, byte_cnt, bitmap_error, scan_and_flip, all_set, set_multiple, create}
use project.Paging.{page_size, null, pg_no, pg_ofs}
use project.Text.{Memory, memset}

-- `struct pool`, less its lock
pub record Pool : Type 0 where
  pub used_map : Bitmap
  pub base : ℕ

-- both pools, and the bytes of memory
pub record Pools : Type 0 where
  pub kernel_pool : Pool
  pub user_pool : Pool
  pub memory : Memory

-- `PAL_ASSERT`, `PAL_ZERO` and `PAL_USER` of the flags
abbrev pub pal_assert : ℕ → Bool
pal_assert flags = not (flags % 2 == 0)

abbrev pub pal_zero : ℕ → Bool
pal_zero flags = not (flags / 2 % 2 == 0)

abbrev pub pal_user : ℕ → Bool
pal_user flags = not (flags / 4 % 2 == 0)

abbrev pub pool_of : Pools → (user : Bool) → Pool
pool_of p user = if user then p.user_pool else p.kernel_pool

abbrev pub set_map : Pools → (user : Bool) → Bitmap → Pools
set_map p user map =
    if user
    then record p { user_pool = record (p.user_pool) { used_map = map } }
    else record p { kernel_pool = record (p.kernel_pool) { used_map = map } }

-- what follows the search of `palloc_get_multiple`, with the map that it leaves
unfoldable pub hand_out :
    Pools → (flags page_cnt page_idx : ℕ) → (map : Bitmap) → Outcome (ℕ × Pools)
hand_out p flags page_cnt page_idx map =
    let user = pal_user flags in
    let p' = set_map p user map in
    let pages =
      if page_idx == bitmap_error
      then null
      else add32 (pool_of p user).base (page_size * page_idx) in
    let zeroed = (do
      (_, m) ← memset p.memory pages 0 (page_size * page_cnt)
      ok (pages, record p' { memory = m })) in
    let found = if pal_zero flags then zeroed else ok (pages, p') in
    let missing = if pal_assert flags then panic else ok (pages, p') in
    if not (pages == null) then found else missing

unfoldable pub palloc_get_multiple : Pools → (flags page_cnt : ℕ) → Outcome (ℕ × Pools)
palloc_get_multiple p flags page_cnt =
    let get = (do
      (page_idx, map) ← scan_and_flip (pool_of p (pal_user flags)).used_map 0 page_cnt false
      hand_out p flags page_cnt page_idx map) in
    if page_cnt == 0 then ok (null, p) else get

unfoldable pub palloc_get_page : Pools → (flags : ℕ) → Outcome (ℕ × Pools)
palloc_get_page p flags = palloc_get_multiple p flags 1

unfoldable pub page_from_pool : Pool → (page : ℕ) → Bool
unfolding pg_no
page_from_pool pool page =
    let start_page = pg_no pool.base in
    leb start_page (pg_no page) && ltb (pg_no page) (start_page + pool.used_map.bit_cnt)

-- what follows the choice of the pool in `palloc_free_multiple`
unfoldable pub give_back : Pools → (user : Bool) → (pages page_cnt : ℕ) → Outcome Pools
unfolding pg_no
give_back p user pages page_cnt = do
  let pool = pool_of p user
  let page_idx = pg_no pages - pg_no pool.base
  (_, m) ← memset p.memory pages 0xcc (page_size * page_cnt)
  all ← all_set pool.used_map page_idx page_cnt
  assert all
  map ← set_multiple pool.used_map page_idx page_cnt false
  ok (record (set_map p user map) { memory = m })

unfoldable pub palloc_free_multiple : Pools → (pages page_cnt : ℕ) → Outcome Pools
unfolding pg_ofs
palloc_free_multiple p pages page_cnt = do
  assert (pg_ofs pages == 0)
  let from_user =
      if page_from_pool p.user_pool pages then give_back p true pages page_cnt else panic
  let free =
      if page_from_pool p.kernel_pool pages then give_back p false pages page_cnt else from_user
  if (pages == null) || (page_cnt == 0) then ok p else free

unfoldable pub palloc_free_page : Pools → (page : ℕ) → Outcome Pools
palloc_free_page p page = palloc_free_multiple p page 1

-- `bitmap_buf_size`
unfoldable pub buf_size : ℕ → ℕ
unfolding byte_cnt
buf_size bit_cnt = 8 + byte_cnt bit_cnt

-- `storage` is what stands in the words of the map, which lies at the start of the pool.
unfoldable pub init_pool : (base page_cnt : ℕ) → (storage : List ℕ) → Outcome Pool
unfolding buf_size create
init_pool base page_cnt storage = do
  let bm_pages = div_round_up (buf_size page_cnt) page_size
  assert (leb bm_pages page_cnt)
  map ← create (page_cnt - bm_pages) storage
  ok (record { used_map = map; base = base + bm_pages * page_size })

-- `free_start` is `ptov (1024 * 1024)`, and `free_end` the end of memory.
unfoldable pub palloc_init :
    Memory
    → (free_start free_end user_page_limit : ℕ) → (kernel_storage user_storage : List ℕ)
    → Outcome Pools
unfolding init_pool
palloc_init m free_start free_end user_page_limit kernel_storage user_storage = do
  let free_pages = (free_end - free_start) / page_size
  let user_pages = min (free_pages / 2) user_page_limit
  let kernel_pages = free_pages - user_pages
  kernel_pool ← init_pool free_start kernel_pages kernel_storage
  user_pool ← init_pool (free_start + kernel_pages * page_size) user_pages user_storage
  ok (record { kernel_pool = kernel_pool; user_pool = user_pool; memory = m })
