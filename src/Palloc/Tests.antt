-- ===== src/Palloc/Tests.antt =====
-- Two pools of two pages each, the first page of the user pool in use.
use project.Base.{ℕ, ◌≡◌, ◌⊎◌, refl, true, false, [], ◌∷◌, ok, arith}
use project.Bitmap.{Bitmap, holds, elem_cnt}
use project.Bitmap.Scan.{IsFirst, NoRun}
use project.Paging.{null}
use project.Palloc.{Pools, palloc_get_multiple, palloc_free_multiple, pool_of}
use project.Palloc.Groups.{IsPools, page_of}
use project.Palloc.Roundtrip.{palloc_free_multiple-palloc_get_multiple}

abbrev user_map : Bitmap
user_map = record { bit_cnt = 2; bits = 1 ∷ [] }

abbrev pools : Pools
pools = record {
  kernel_pool = record { used_map = record { bit_cnt = 2; bits = 0 ∷ [] }; base = 0xc010_1000 };
  user_pool = record { used_map = user_map; base = 0xc010_4000 };
  memory = λ a. 7;
}

pools-IsPools : IsPools pools
unfolding elem_cnt
pools-IsPools = record {
  kernel = record {
    map = record { small = omega arith; elements = refl };
    aligned = refl;
    exists = omega arith;
    in_word = omega arith;
  };
  user = record {
    map = record { small = omega arith; elements = refl };
    aligned = refl;
    exists = omega arith;
    in_word = omega arith;
  };
  apart = omega arith;
}

palloc_free_multiple-palloc_get_multiple_example :
    ((palloc_get_multiple pools 6 1 ≡ ok (null, pools)) × NoRun user_map 0 1 false)
    ⊎ ((idx : ℕ) × (p' p'' : Pools) × (palloc_get_multiple pools 6 1
          ≡ ok (page_of (pools.user_pool) idx, p'))
        × IsFirst user_map 0 1 false idx
        × (palloc_free_multiple p' (page_of (pools.user_pool) idx) 1 ≡ ok p'')
        × ((j : ℕ) → holds (pool_of p'' true).used_map j ≡ holds user_map j))
palloc_free_multiple-palloc_get_multiple_example =
    palloc_free_multiple-palloc_get_multiple pools 6 1 pools-IsPools (omega arith) refl
