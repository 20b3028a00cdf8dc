-- ===== src/Palloc/Roundtrip.antt =====
-- Pages of threads/palloc.c from `palloc_get_multiple` to `palloc_free_multiple`.
use project.Base.{
  ℕ, ◌+◌, ◌*◌, ◌%◌, ◌<◌, ◌≤◌, ◌≡◌, ◌≢◌, ◌⊎◌, inl, inr, refl, sym, ap, subst, ◌∙◌, Bool, true, false,
  arith, ok, ◌==◌, if◌then◌else◌, add32, eq→==, ne→==, Bool-cases,
}
use project.Bitmap.{Bitmap, holds, bitmap_error, scan_and_flip}
use project.Bitmap.Bounds
use project.Bitmap.Group.{Filled, within}
use project.Bitmap.Scan.{IsFirst, NoRun, scan_and_flip-Taken}
use project.Paging.{page_size, null, pg_ofs}
use project.Text.{Memory, memset}
use project.Text.Blocks.{memset-fill}
use project.Palloc.{
  Pool, Pools, pal_assert, pal_zero, pal_user, pool_of, set_map, hand_out, palloc_get_multiple,
  give_back, palloc_free_multiple, palloc_free_page,
}
use project.Palloc.Groups.{
  IsPool, IsPools, pool_of-IsPool, page_of, give_back-Filled, page_from_pool-own,
  page_from_pool-other,
}

-- the state with another map of the same size, and other bytes
abbrev pub changed : Pools → (user : Bool) → Bitmap → Memory → Pools
changed p user map m = record (set_map p user map) { memory = m }

changed-pool :
    (p : Pools) (user : Bool) (map : Bitmap) (m : Memory)
    → pool_of (changed p user map m) user ≡ record (pool_of p user) { used_map = map }
changed-pool p true map m = refl
changed-pool p false map m = refl

changed-memory :
    (p : Pools) (user : Bool) (map : Bitmap) → set_map p user map ≡ changed p user map p.memory
changed-memory p true map = refl
changed-memory p false map = refl

changed-IsPools :
    (p : Pools) (user : Bool) (map : Bitmap) (m : Memory)
    → IsPools p
    → Bounds.SameShape (pool_of p user).used_map map
    → IsPools (changed p user map m)
changed-IsPools p true map m v s = record {
  kernel = v.kernel;
  user = record {
    map = Bounds.SameShape-IsValid s v.user.map;
    aligned = v.user.aligned;
    exists = v.user.exists;
    in_word = omega (arith, v.user.in_word, s.size);
  };
  apart = v.apart;
}
changed-IsPools p false map m v s = record {
  kernel = record {
    map = Bounds.SameShape-IsValid s v.kernel.map;
    aligned = v.kernel.aligned;
    exists = v.kernel.exists;
    in_word = omega (arith, v.kernel.in_word, s.size);
  };
  user = v.user;
  apart = omega (arith, v.apart, s.size);
}

palloc_free_multiple-give_back :
    (p : Pools) (user : Bool) (idx cnt : ℕ)
    → IsPools p
    → idx < (pool_of p user).used_map.bit_cnt
    → 0 < cnt
    → let pages = page_of (pool_of p user) idx in
      palloc_free_multiple p pages cnt ≡ give_back p user pages cnt
unfolding palloc_free_multiple pg_ofs
palloc_free_multiple-give_back p true idx cnt v h c =
    let pages = page_of p.user_pool idx in
    let ofs : (pages % page_size == 0) ≡ true = ground (arith, v.user.aligned) in
    rw
      (
        ofs,
        ne→== pages null (omega (arith, v.user.exists)),
        ne→== cnt 0 (omega (arith, c)),
        page_from_pool-other p.kernel_pool pages v.kernel (omega (arith, v.user.aligned))
            (omega (arith, v.apart)),
        page_from_pool-own p.user_pool idx v.user h,
      )
      refl
palloc_free_multiple-give_back p false idx cnt v h c =
    let pages = page_of p.kernel_pool idx in
    let ofs : (pages % page_size == 0) ≡ true = ground (arith, v.kernel.aligned) in
    rw
      (
        ofs,
        ne→== pages null (omega (arith, v.kernel.exists)),
        ne→== cnt 0 (omega (arith, c)),
        page_from_pool-own p.kernel_pool idx v.kernel h,
      )
      refl

-- what `palloc_get_multiple` makes of a group that was found
hand_out-changed :
    (p : Pools) (flags cnt idx : ℕ) (map : Bitmap) (m : Memory)
    → IsPool (pool_of p (pal_user flags))
    → idx < (pool_of p (pal_user flags)).used_map.bit_cnt
    → idx ≢ bitmap_error
    → let pages = page_of (pool_of p (pal_user flags)) idx in
      memset p.memory pages 0 (page_size * cnt) ≡ ok (pages, m)
      → hand_out p flags cnt idx map
        ≡ ok (pages, changed p (pal_user flags) map (if pal_zero flags then m else p.memory))
unfolding hand_out
hand_out-changed p flags cnt idx map m v h n e =
    let pool = pool_of p (pal_user flags) in
    let pages = page_of pool idx in
    let sum : add32 pool.base (page_size * idx) ≡ pages = omega (arith, v.in_word, h) in
    let found = ne→== pages null (omega (arith, v.exists)) in
    elim (Bool-cases (pal_zero flags)) [
      | inl z ↦ rw (ne→== idx bitmap_error n, sum, found, z, e) refl
      | inr z ↦
          rw (ne→== idx bitmap_error n, sum, found, z)
            (ap (λ q. ok (pages, q)) (changed-memory p (pal_user flags) map))
    ]

-- a state with the map that it has already
set_map-same : (p : Pools) (user : Bool) → set_map p user (pool_of p user).used_map ≡ p
set_map-same p true = refl
set_map-same p false = refl

hand_out-null :
    (p : Pools) (flags cnt idx : ℕ)
    → idx ≡ bitmap_error
    → pal_assert flags ≡ false
    → hand_out p flags cnt idx (pool_of p (pal_user flags)).used_map ≡ ok (null, p)
unfolding hand_out
hand_out-null p flags cnt idx e quiet =
    rw (eq→== idx bitmap_error e, quiet) (ap (λ q. ok (null, q)) (set_map-same p (pal_user flags)))

-- the search of `palloc_get_multiple`
palloc_get_multiple-hand_out :
    (p : Pools) (flags cnt idx : ℕ) (map : Bitmap)
    → 0 < cnt
    → scan_and_flip (pool_of p (pal_user flags)).used_map 0 cnt false ≡ ok (idx, map)
    → palloc_get_multiple p flags cnt ≡ hand_out p flags cnt idx map
unfolding palloc_get_multiple
palloc_get_multiple-hand_out p flags cnt idx map c e = rw (ne→== cnt 0 (omega (arith, c)), e) refl

same_bits :
    (b c d : Bitmap) (lo hi : ℕ) (j : ℕ)
    → ((i : ℕ) → lo ≤ i → i < hi → holds b i ≡ false)
    → Filled b lo hi true c
    → Filled c lo hi false d
    → holds d j ≡ holds b j
same_bits b c d lo hi j clear f g = elim (Bool-cases (within lo hi j)) [
  | inl e ↦ g.bits j ∙ rw e (sym (clear j (ground (arith, e)) (ground (arith, e))))
  | inr e ↦ g.bits j ∙ rw e (f.bits j ∙ rw e refl)
]

-- the group that was found, given back
taken_back :
    (p : Pools) (user : Bool) (idx cnt : ℕ) (map : Bitmap) (m : Memory)
    → IsPools p
    → idx < (pool_of p user).used_map.bit_cnt
    → 0 < cnt
    → IsFirst (pool_of p user).used_map 0 cnt false idx
    → Filled (pool_of p user).used_map idx (idx + cnt) true map
    → (m2 : Memory) × (map2 : Bitmap) × (palloc_free_multiple
          (changed p user map m)
          (page_of (pool_of p user) idx)
          cnt
        ≡ ok (changed (changed p user map m) user map2 m2))
      × ((j : ℕ)
          → holds (pool_of (changed (changed p user map m) user map2 m2) user).used_map j
            ≡ holds (pool_of p user).used_map j)
taken_back p user idx cnt map m v h c first filled =
    let b = (pool_of p user).used_map in
    let p1 = changed p user map m in
    let now = changed-pool p user map m in
    let v1 = changed-IsPools p user map m v filled.shape in
    let inside : idx + cnt ≤ (pool_of p1 user).used_map.bit_cnt =
      subst (λ (q : Pool). idx + cnt ≤ q.used_map.bit_cnt) (sym now)
        (omega (arith, first.inside, filled.shape.size)) in
    let full : Filled b idx (idx + cnt) true (pool_of p1 user).used_map =
      subst (λ (q : Pool). Filled b idx (idx + cnt) true q.used_map) (sym now) filled in
    let (m2, map2, e, cleared, _) =
      give_back-Filled b p1 user idx cnt (pool_of-IsPool p1 user v1) inside full in
    (
      m2,
      map2,
      ap (λ q. palloc_free_multiple p1 (page_of q idx) cnt) (sym now)
          ∙ palloc_free_multiple-give_back p1 user idx cnt v1 (omega (arith, inside, c)) c
          ∙ e,
      λ j.
          ap (λ (q : Pool). holds q.used_map j) (changed-pool p1 user map2 m2)
          ∙ same_bits b (pool_of p1 user).used_map map2 idx (idx + cnt) j first.run full cleared,
    )

-- A page of the kernel pool that is in use is freed, and no byte below it changes.
pub palloc_free_page-kernel :
    (p : Pools) (idx : ℕ)
    → IsPools p
    → idx < p.kernel_pool.used_map.bit_cnt
    → holds p.kernel_pool.used_map idx ≡ true
    → (p' : Pools) × (palloc_free_page p (page_of p.kernel_pool idx) ≡ ok p')
      × ((a : ℕ) → a < page_of p.kernel_pool idx → p'.memory a ≡ p.memory a)
unfolding palloc_free_page
palloc_free_page-kernel p idx v h taken =
    let b = p.kernel_pool.used_map in
    let own : Filled b idx (idx + 1) true b = record {
      shape = Bounds.SameShape-refl b;
      bits = λ j. one j;
    } in
    let (m, map, e, _, below) = give_back-Filled b p false idx 1 v.kernel (omega (arith, h)) own in
    (
      record (set_map p false map) { memory = m },
      palloc_free_multiple-give_back p false idx 1 v h (omega arith) ∙ e,
      below,
    )
  where
    one :
        (j : ℕ)
        → holds p.kernel_pool.used_map j
          ≡ (if within idx (idx + 1) j then true else holds p.kernel_pool.used_map j)
    one j = elim (Bool-cases (within idx (idx + 1) j)) [
      | inl e ↦ let same : j ≡ idx = ground (arith, e) in rw (e, same) taken
      | inr e ↦ rw e refl
    ]

-- `palloc_get_multiple` without `PAL_ASSERT` either finds no group of that many free pages and returns
-- `NULL`, or returns the first such group of the pool that the flags ask for; `palloc_free_multiple`
-- then takes it back without a failed assertion, and the map of the pool has the bits it had.
pub palloc_free_multiple-palloc_get_multiple :
    (p : Pools) (flags cnt : ℕ)
    → IsPools p
    → 0 < cnt
    → pal_assert flags ≡ false
    → let map = (pool_of p (pal_user flags)).used_map in
      ((palloc_get_multiple p flags cnt ≡ ok (null, p)) × NoRun map 0 cnt false)
      ⊎ ((idx : ℕ) × (p' p'' : Pools) × (palloc_get_multiple p flags cnt
            ≡ ok (page_of (pool_of p (pal_user flags)) idx, p'))
          × IsFirst map 0 cnt false idx
          × (palloc_free_multiple p' (page_of (pool_of p (pal_user flags)) idx) cnt ≡ ok p'')
          × ((j : ℕ) → holds (pool_of p'' (pal_user flags)).used_map j ≡ holds map j))
palloc_free_multiple-palloc_get_multiple p flags cnt v c quiet =
    let user = pal_user flags in
    let pool = pool_of p user in
    let own = pool_of-IsPool p user v in
    let (idx, map, e, taken) = scan_and_flip-Taken 0 cnt false own.map (omega arith) in
    let get = palloc_get_multiple-hand_out p flags cnt idx map c e in
    elim taken [
      | inl (first, filled) ↦
          let in_pool : idx < pool.used_map.bit_cnt = omega (arith, first.inside, c) in
          let valid_idx : idx ≢ bitmap_error = omega (arith, in_pool, own.map.small) in
          let (m, zeroed, _) =
            memset-fill p.memory (page_of pool idx) 0 (page_size * cnt)
              (inl (omega (arith, own.exists))) in
          let m1 = if pal_zero flags then m else p.memory in
          let (m2, map2, free, bits) = taken_back p user idx cnt map m1 v in_pool c first filled in
          inr (
            idx,
            changed p user map m1,
            changed (changed p user map m1) user map2 m2,
            get ∙ hand_out-changed p flags cnt idx map m own in_pool valid_idx zeroed,
            first,
            free,
            bits,
          )
      | inr (bad, same, none_fits) ↦ inl (
        get ∙ ap (hand_out p flags cnt idx) same ∙ hand_out-null p flags cnt idx bad quiet,
        none_fits,
      )
    ]
