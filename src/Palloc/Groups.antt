-- ===== src/Palloc/Groups.antt =====
-- Groups of pages that threads/palloc.c hands out and takes back.
use project.Base.{
  ℕ, ◌+◌, ◌-◌, ◌*◌, ◌/◌, ◌%◌, ◌^◌, ◌<◌, ◌≤◌, ◌≡◌, inl, refl, ap, Bool, true, false, not, arith, ok,
}
use project.Bitmap.{Bitmap, all_set}
use project.Bitmap.Bounds
use project.Bitmap.Group.{Filled, Answer, within, set_multiple-Filled, contains-Answer}
use project.Paging.{page_size, pg_no}
use project.Text.{Memory}
use project.Text.Blocks.{memset-fill}
use project.Palloc.{Pool, Pools, pool_of, set_map, page_from_pool, give_back}

pub record IsPool (pool : Pool) : Type 0 where
  pub map : Bounds.IsValid pool.used_map
  pub aligned : pool.base % page_size ≡ 0
  pub exists : 0 < pool.base
  pub in_word : pool.base + page_size * pool.used_map.bit_cnt ≤ 2 ^ 32

-- Both pools are whole pages below the end of memory, the kernel's before the user's.
pub record IsPools (p : Pools) : Type 0 where
  pub kernel : IsPool p.kernel_pool
  pub user : IsPool p.user_pool
  pub apart : p.kernel_pool.base + page_size * p.kernel_pool.used_map.bit_cnt ≤ p.user_pool.base

pub pool_of-IsPool : (p : Pools) (user : Bool) → IsPools p → IsPool (pool_of p user)
pool_of-IsPool p true v = v.user
pool_of-IsPool p false v = v.kernel

pub pool_of-set_map :
    (p : Pools) (user : Bool) (map : Bitmap)
    → pool_of (set_map p user map) user ≡ record (pool_of p user) { used_map = map }
pool_of-set_map p true map = refl
pool_of-set_map p false map = refl

-- every bit of the group is set
all_set-Filled :
    (b c : Bitmap) (lo cnt : ℕ)
    → Bounds.IsValid c
    → lo + cnt ≤ c.bit_cnt
    → Filled b lo (lo + cnt) true c
    → all_set c lo cnt ≡ ok true
unfolding all_set
all_set-Filled b c lo cnt v h f =
    let (r, e, a) = contains-Answer lo cnt false v h in rw e (ap ok (none_clear r a))
  where
    none_clear : (r : Bool) → Answer c lo (lo + cnt) false r → not r ≡ true
    none_clear false a = refl
    none_clear true (j, p, q, bit) =
        let inside : within lo (lo + cnt) j ≡ true = ground (arith, p, q) in
        ground (arith, bit, f.bits j, inside)

-- the address of page `idx` of a pool
abbrev pub page_of : Pool → (idx : ℕ) → ℕ
page_of pool idx = pool.base + page_size * idx

pub give_back-Filled :
    (b : Bitmap) (p : Pools) (user : Bool) (idx cnt : ℕ)
    → IsPool (pool_of p user)
    → idx + cnt ≤ (pool_of p user).used_map.bit_cnt
    → Filled b idx (idx + cnt) true (pool_of p user).used_map
    → (m : Memory) × (map : Bitmap) × (give_back p user (page_of (pool_of p user) idx) cnt
        ≡ ok (record (set_map p user map) { memory = m }))
      × Filled (pool_of p user).used_map idx (idx + cnt) false map
      × ((a : ℕ) → a < page_of (pool_of p user) idx → m a ≡ p.memory a)
unfolding give_back pg_no
give_back-Filled b p user idx cnt v h f =
    let pool = pool_of p user in
    let pages = page_of pool idx in
    let index : pages / page_size - pool.base / page_size ≡ idx = omega (arith, v.aligned) in
    let (m, e, set_to) =
      memset-fill p.memory pages 0xcc (page_size * cnt) (inl (omega (arith, v.exists))) in
    let (map, e', filled) = set_multiple-Filled idx cnt false v.map h in
    (
      m,
      map,
      rw (e, index, all_set-Filled b pool.used_map idx cnt v.map h f, e') refl,
      filled,
      λ a below. ground (arith, set_to a, below),
    )

-- A page of a pool is found to be from it, and a page of the user pool not to be from the kernel's.
pub page_from_pool-own :
    (pool : Pool) (idx : ℕ)
    → IsPool pool
    → idx < pool.used_map.bit_cnt
    → page_from_pool pool (page_of pool idx) ≡ true
unfolding page_from_pool pg_no
page_from_pool-own pool idx v h = ground (arith, v.aligned, h)

pub page_from_pool-other :
    (pool : Pool) (page : ℕ)
    → IsPool pool
    → page % page_size ≡ 0
    → pool.base + page_size * pool.used_map.bit_cnt ≤ page
    → page_from_pool pool page ≡ false
unfolding page_from_pool pg_no
page_from_pool-other pool page v a h = ground (arith, v.aligned, a, h)
