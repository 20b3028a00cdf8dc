-- ===== src/Vm/Frames/Clock.antt =====
-- `frame_evict`: the hand stops within two rounds and one step, at a frame that was not accessed.
use project.Base.{
  ℕ, zero, suc, ◌+◌, ◌-◌, ◌<◌, ◌≤◌, ◌≡◌, ◌≢◌, refl, ap, ◌∙◌, ◌⊎◌, inl, inr, Bool, true, false,
  Option, some, Outcome, ok, ◌>>=◌, arith, Bool-cases, eq→==, ne→==,
}
use project.Paging.{null, Pte}
use project.Paging.Pagedir.{Dirs}
use project.Paging.Laws.{
  entry, Updates, same_page, entry-same_page, is_accessed-entry, set_accessed-entry,
}
use project.Vm.State.{Vm, frame_at, total_pages, clock_start}
use project.Vm.Frames.{evict_loop, evict_here, frame_evict, evict_fuel, advance}

-- `ds'` is `ds` but for accessed bits, of which none has been set.
pub record Cleared (ds ds' : Dirs) : Type 0 where
  pub rest :
      (p v : ℕ)
      → record (entry ds' p v) { accessed = false } ≡ record (entry ds p v) { accessed = false }
  pub down : (p v : ℕ) → (entry ds p v).accessed ≡ false → (entry ds' p v).accessed ≡ false

Cleared-refl : (ds : Dirs) → Cleared ds ds
Cleared-refl ds = record { rest = λ p v. refl; down = λ p v h. h }

Cleared-trans : {a b c : Dirs} → Cleared a b → Cleared b c → Cleared a c
Cleared-trans s t = record {
  rest = λ p v. t.rest p v ∙ s.rest p v;
  down = λ p v h. t.down p v (s.down p v h);
}

abbrev unaccessed : Pte → Pte
unaccessed e = record e { accessed = false }

clear_one :
    (ds : Dirs) (pd va : ℕ) {ds' : Dirs}
    → Updates ds pd va (unaccessed (entry ds pd va)) ds'
    → Cleared ds ds'
clear_one ds pd va {ds'} u = record { rest = λ p v. rest p v; down = λ p v h. down p v h }
  where
    rest : (p v : ℕ) → unaccessed (entry ds' p v) ≡ unaccessed (entry ds p v)
    rest p v = elim (Bool-cases (same_page pd va p v)) [
      | inl same ↦ rw (u p v, same) (ap unaccessed (entry-same_page ds pd va p v same))
      | inr other ↦ rw (u p v, other) refl
    ]

    down : (p v : ℕ) → (entry ds p v).accessed ≡ false → (entry ds' p v).accessed ≡ false
    down p v h = elim (Bool-cases (same_page pd va p v)) [
      | inl same ↦ rw (u p v, same) refl
      | inr other ↦ rw (u p v, other) h
    ]

same_page_refl : (pd va : ℕ) → same_page pd va pd va ≡ true
same_page_refl pd va = ground arith

-- The hand is on the table, and each frame that it visits belongs to some page directory.
pub record IsReady (vm : Vm) : Type 0 where
  pub hand : clock_start ≤ vm.clock_pointer
  pub in_table : vm.clock_pointer < total_pages
  pub mapped : (i : ℕ) → clock_start ≤ i → i < total_pages → (frame_at vm i).pagedir ≢ null

-- the state in which the loop body runs: the hand at `c`, and the directories `ds`
abbrev pub with_hand : Vm → Dirs → ℕ → Vm
with_hand vm ds c = record vm { dirs = ds; clock_pointer = c }

-- what the loop returns when it stops at a frame
abbrev pub evicted : Vm → Outcome (Option (ℕ × Vm))
evicted vm = do (kpage, vm') ← evict_here vm; ok (some (kpage, advance vm'))

-- The run of the loop from `vm` ends with the eviction of the page of frame `c`, whose accessed bit
-- is clear; before it, only accessed bits have been cleared.
pub record Stops (vm : Vm) (r : Outcome (Option (ℕ × Vm))) : Type 0 where
  pub ds : Dirs
  pub c : ℕ
  pub result : r ≡ evicted (with_hand vm ds c)
  pub cleared : Cleared vm.dirs ds
  pub low : clock_start ≤ c
  pub high : c < total_pages
  pub unused : (entry ds (frame_at vm c).pagedir (frame_at vm c).upage).accessed ≡ false

-- One round of the loop at frame `c`: it stops, or it clears that frame's bit and moves on.
module _ (vm : Vm) (ready : IsReady vm) (ds : Dirs) (c : ℕ) (lo : clock_start ≤ c)
    (hi : c < total_pages) where
  abbrev bit_of : Dirs → Bool
  bit_of d = (entry d (frame_at vm c).pagedir (frame_at vm c).upage).accessed

  stop :
      (fuel : ℕ)
      → bit_of ds ≡ false
      → evict_loop (suc fuel) (with_hand vm ds c) ≡ evicted (with_hand vm ds c)
  unfolding evict_loop
  stop fuel clear =
      rw
        (
          is_accessed-entry ds (frame_at vm c).pagedir (frame_at vm c).upage (ready.mapped c lo hi),
          clear,
        )
        refl

  move :
      (fuel : ℕ)
      → bit_of ds ≡ true
      → (ds' : Dirs) × (evict_loop (suc fuel) (with_hand vm ds c)
          ≡ evict_loop fuel (advance (with_hand vm ds' c)))
        × Cleared ds ds'
        × (bit_of ds' ≡ false)
  unfolding evict_loop
  move fuel set =
      let f = frame_at vm c in
      let (ds', e, u) = set_accessed-entry ds f.pagedir f.upage (ready.mapped c lo hi) in
      (
        ds',
        rw (is_accessed-entry ds f.pagedir f.upage (ready.mapped c lo hi), set, e) refl,
        clear_one ds f.pagedir f.upage u,
        ap (λ x. x.accessed) (u f.pagedir f.upage) ∙ rw (same_page_refl f.pagedir f.upage) refl,
      )

-- `n` rounds before `m` others
abbrev more : ℕ → ℕ → ℕ
more zero m = m
more (suc n) m = suc (more n m)

more-add : (n m : ℕ) → more n m ≡ n + m
more-add zero m = omega arith
more-add (suc n) m = omega (arith, more-add n m)

advance-inside :
    (vm : Vm) (ds : Dirs) (c : ℕ)
    → c + 1 < total_pages
    → advance (with_hand vm ds c) ≡ with_hand vm ds (c + 1)
unfolding advance
advance-inside vm ds c h = rw (ne→== (c + 1) total_pages (omega arith)) refl

advance-end :
    (vm : Vm) (ds : Dirs) (c : ℕ)
    → c + 1 ≡ total_pages
    → advance (with_hand vm ds c) ≡ with_hand vm ds clock_start
unfolding advance
advance-end vm ds c h = rw (eq→== (c + 1) total_pages h) refl

module _ (vm : Vm) (ready : IsReady vm) where
  abbrev accessed_at : Dirs → ℕ → Bool
  accessed_at d c = (entry d (frame_at vm c).pagedir (frame_at vm c).upage).accessed

  -- The hand goes from `c` to the end of the table: it stops on the way, or it comes back to the
  -- start with the bit of `c` cleared.
  abbrev Sweep : (ds : Dirs) (c fuel m : ℕ) → Type 0
  Sweep ds c fuel m =
      Stops vm (evict_loop fuel (with_hand vm ds c))
      ⊎ ((ds' : Dirs) × (evict_loop fuel (with_hand vm ds c)
            ≡ evict_loop m (with_hand vm ds' clock_start))
          × Cleared ds ds'
          × (accessed_at ds' c ≡ false))

  stopped :
      (ds : Dirs) (c fuel : ℕ)
      → Cleared vm.dirs ds
      → clock_start ≤ c
      → c < total_pages
      → accessed_at ds c ≡ false
      → Stops vm (evict_loop (suc fuel) (with_hand vm ds c))
  stopped ds c fuel cl lo hi clear = record {
    ds = ds;
    c = c;
    result = stop vm ready ds c lo hi fuel clear;
    cleared = cl;
    low = lo;
    high = hi;
    unused = clear;
  }

  sweep :
      (n m : ℕ) (ds : Dirs) (c : ℕ)
      → Cleared vm.dirs ds
      → clock_start ≤ c
      → c + suc n ≡ total_pages
      → Sweep ds c (suc (more n m)) m
  sweep zero m ds c cl lo end = elim (Bool-cases (accessed_at ds c)) [
    | inr clear ↦ inl (stopped ds c m cl lo (omega arith) clear)
    | inl set ↦
        let (ds', e, cl', clear) = move vm ready ds c lo (omega arith) m set in
        inr (ds', e ∙ rw (advance-end vm ds' c (omega arith)) refl, cl', clear)
  ]
  sweep (suc n) m ds c cl lo end = elim (Bool-cases (accessed_at ds c)) [
    | inr clear ↦ inl (stopped ds c (suc (more n m)) cl lo (omega arith) clear)
    | inl set ↦
        let (ds', e, cl', clear) = move vm ready ds c lo (omega arith) (suc (more n m)) set in
        on ds' (e ∙ rw (advance-inside vm ds' c (omega arith)) refl) cl' clear
          (sweep n m ds' (c + 1) (Cleared-trans cl cl') (omega arith) (omega arith))
  ]
    where
      on :
          (ds' : Dirs)
          → evict_loop (suc (suc (more n m))) (with_hand vm ds c)
            ≡ evict_loop (suc (more n m)) (with_hand vm ds' (c + 1))
          → Cleared ds ds'
          → accessed_at ds' c ≡ false
          → Sweep ds' (c + 1) (suc (more n m)) m
          → Sweep ds c (suc (suc (more n m))) m
      on ds' e cl' clear (inl stops) = inl (rw e stops)
      on ds' e cl' clear (inr (ds2, e2, cl2, _)) =
          inr (ds2, e ∙ e2, Cleared-trans cl' cl2, cl2.down _ _ clear)

  -- From the start of the table, one round and one step suffice.
  round :
      (k : ℕ) (ds : Dirs)
      → Cleared vm.dirs ds
      → Stops vm (evict_loop (suc (more 341 (suc k))) (with_hand vm ds clock_start))
  round k ds cl = again (sweep 341 (suc k) ds clock_start cl (omega arith) (omega arith))
    where
      again :
          Sweep ds clock_start (suc (more 341 (suc k))) (suc k)
          → Stops vm (evict_loop (suc (more 341 (suc k))) (with_hand vm ds clock_start))
      again (inl stops) = stops
      again (inr (ds2, e2, cl2, clear)) =
          rw e2 (stopped ds2 clock_start k (Cleared-trans cl cl2) (omega arith) (omega arith) clear)

  fuel_split :
      suc (more (366 - vm.clock_pointer) (suc (more 341 (suc (vm.clock_pointer - clock_start)))))
      ≡ evict_fuel
  fuel_split = omega (
    arith,
    ready.hand,
    ready.in_table,
    more-add (366 - vm.clock_pointer) (suc (more 341 (suc (vm.clock_pointer - clock_start)))),
    more-add 341 (suc (vm.clock_pointer - clock_start)),
  )

  -- `frame_evict` ends, after at most two rounds of the hand and one step, with the eviction of a
  -- frame whose accessed bit is clear; until then it has only cleared accessed bits.
  pub frame_evict-Stops : Stops vm (frame_evict vm)
  unfolding frame_evict
  frame_evict-Stops = rw (← fuel_split) (
      over (
        sweep (366 - vm.clock_pointer) (suc (more 341 (suc (vm.clock_pointer - clock_start))))
          vm.dirs vm.clock_pointer (Cleared-refl vm.dirs) ready.hand
          (omega (arith, ready.in_table))))
    where
      over :
          Sweep vm.dirs vm.clock_pointer
            (suc (
              more
                (366 - vm.clock_pointer)
                (suc (more 341 (suc (vm.clock_pointer - clock_start))))))
            (suc (more 341 (suc (vm.clock_pointer - clock_start))))
          → Stops vm (
              evict_loop
                (suc (
                  more
                    (366 - vm.clock_pointer)
                    (suc (more 341 (suc (vm.clock_pointer - clock_start))))))
                vm)
      over (inl stops) = stops
      over (inr (ds, e, cl, _)) = rw e (round (vm.clock_pointer - clock_start) ds cl)
