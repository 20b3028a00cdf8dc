-- ===== src/Vm/Frames.antt =====
-- vm/frames.c: the frame table, and the clock algorithm that evicts a page. Each function runs
-- as a whole, which `frame_lock` brings about for all but `frame_evict`: `frame_find_empty` releases
-- the lock before it calls that, so that its theorems are about an eviction that no other runs into.
pub mod Table
pub mod Clock
pub mod Effects
pub mod Eviction
use project.Base.{
  ℕ, zero, suc, ◌+◌, ◌-◌, ◌*◌, Bool, true, false, not, ◌&&◌, Option, none, some, List, [], ◌∷◌,
  Outcome, ok, exit, ◌>>=◌, ◌>>◌, length, set, ltb, slt, ◌==◌, if◌then◌else◌, add32, sub32, minus,
}
use project.Paging.{null}
use project.Paging.Pagedir
use project.Paging.Pagedir.{Dirs}
use project.Vm.Swap
use project.Vm.Swap.{Swap}
use project.Vm.State.{Frame, Page, Vm, empty_frame, frame_at, total_pages, clock_start, in_swap}

-- `kpages` are what `palloc_get_page (PAL_USER)` returns, in turn; `malloc` is taken not to fail.
unfoldable pub init_loop : (kpages : List ℕ) → List Frame
init_loop [] = []
init_loop (k ∷ ks) = empty_frame k ∷ init_loop ks

unfoldable pub frame_table_init : Vm → (kpages : List ℕ) → Vm
unfolding init_loop
frame_table_init vm kpages = record vm {
  frame_table = init_loop kpages;
  occupancy = 0;
  clock_pointer = clock_start;
}

-- The loop over all frames, with `occupancy`, an `int`.
unfoldable pub free_loop : List Frame → (kpage occupancy : ℕ) → List Frame × ℕ
free_loop [] kpage occ = ([], occ)
free_loop (f ∷ fs) kpage occ =
    let (fs', occ') = free_loop fs kpage (if f.kpage == kpage then sub32 occ 1 else occ) in
    ((if f.kpage == kpage then empty_frame f.kpage else f) ∷ fs', occ')

unfoldable pub frame_free : Vm → (kpage : ℕ) → Vm
frame_free vm kpage =
    let (fs, occ) = free_loop vm.frame_table kpage vm.occupancy in
    record vm { frame_table = fs; occupancy = occ }

-- `install_page` of userprog/process.c, into the directory of the running thread
unfoldable pub install_page :
    (init_ram_pages init_page_dir cur_pagedir : ℕ)
    → Dirs
    → (upage kpage : ℕ) → (writable room : Bool) → Outcome (Bool × Dirs)
install_page ram init cur ds upage kpage writable room = do
  there ← Pagedir.get_page ds cur upage
  if there == null
      then Pagedir.set_page ram init ds cur upage kpage writable room
      else ok (false, ds)

-- The loop that labels the frame of `kpage`; it kills the process if that frame is labelled already.
unfoldable pub install_loop :
    List Frame → (kpage : ℕ) → Frame → (occupancy : ℕ) → Outcome (List Frame × ℕ)
install_loop [] kpage new occ = ok ([], occ)
install_loop (f ∷ fs) kpage new occ =
    let hit = f.kpage == kpage in
    let rest = install_loop fs kpage new (if hit then add32 occ 1 else occ) in
    if hit && not (f.upage == null) then exit (minus 1) else (do
      (fs', occ') ← rest
      ok ((if hit then record new { kpage = f.kpage } else f) ∷ fs', occ'))

unfoldable pub frame_install :
    (init_ram_pages init_page_dir cur_pagedir : ℕ)
    → Vm
    → (upage kpage pagedir : ℕ) → (writable : Bool) → (page_pointer : ℕ) → (room : Bool)
    → Outcome (Bool × Vm)
frame_install ram init cur vm upage kpage pagedir writable page_pointer room = do
  (success, ds) ← install_page ram init cur vm.dirs upage kpage writable room
  let new : Frame = record {
    kpage = kpage;
    upage = upage;
    pagedir = pagedir;
    page_pointer = page_pointer;
  }
  if success
      then (do
        (fs, occ) ← install_loop vm.frame_table kpage new vm.occupancy
        ok (true, record vm { frame_table = fs; occupancy = occ; dirs = ds }))
      else ok (false, record vm { dirs = ds })

-- `clock_pointer++`, and back to the start at the end of the table
unfoldable pub advance : Vm → Vm
advance vm =
    let next = vm.clock_pointer + 1 in
    record vm { clock_pointer = (if next == total_pages then clock_start else next) }

-- What the loop does with a frame whose page was not accessed: the page goes to swap. The page object
-- is taken to exist: a frame in use is labelled with one.
unfoldable pub evict_here : Vm → Outcome (ℕ × Vm)
evict_here vm = do
  let f = frame_at vm vm.clock_pointer
  ds ← Pagedir.clear_page vm.dirs f.pagedir f.upage
  (location, swap) ← Swap.swap_write vm.swap (vm.memory f.kpage)
  ok (
    f.kpage,
    record vm {
      frame_table = set vm.frame_table vm.clock_pointer (empty_frame f.kpage);
      occupancy = sub32 vm.occupancy 1;
      dirs = ds;
      pages = λ p.
          if p == f.page_pointer
          then record (vm.pages p) { swap_location = location; location = in_swap; kpage = null }
          else vm.pages p;
      swap = swap;
    },
  )

-- `while (!found)`, with fuel; `none` means that it is still looking when that runs out.
unfoldable pub evict_loop : ℕ → Vm → Outcome (Option (ℕ × Vm))
evict_loop zero vm = ok none
evict_loop (suc fuel) vm = do
  let f = frame_at vm vm.clock_pointer
  accessed ← Pagedir.is_accessed vm.dirs f.pagedir f.upage
  let keep = (do
    ds ← Pagedir.set_accessed vm.dirs f.pagedir f.upage false
    evict_loop fuel (advance (record vm { dirs = ds })))
  let take = (do (kpage, vm') ← evict_here vm; ok (some (kpage, advance vm')))
  if accessed then keep else take

-- Two rounds of the hand and one step more.
abbrev pub evict_fuel : ℕ
evict_fuel = 2 * (total_pages - clock_start) + 1

unfoldable pub frame_evict : Vm → Outcome (Option (ℕ × Vm))
frame_evict vm = evict_loop evict_fuel vm

-- the `kpage` of the first frame with no `upage`, or `NULL`
unfoldable pub find_loop : List Frame → ℕ
find_loop [] = null
find_loop (f ∷ fs) = if f.upage == null then f.kpage else find_loop fs

unfoldable pub frame_find_empty : Vm → Outcome (Option (ℕ × Vm))
frame_find_empty vm =
    if slt vm.occupancy total_pages
    then ok (some (find_loop vm.frame_table, vm))
    else frame_evict vm
