-- ===== src/Vm/Tests.antt =====
-- Concrete runs of the virtual memory system, and its theorems at them.
use project.Base.{
  ℕ, zero, suc, ◌+◌, ◌*◌, ◌<◌, ◌≤◌, ◌≡◌, refl, sym, ap, ◌⊎◌, true, false, none, some, List, [], ◌∷◌,
  ok, panic, arith, length, replicate, length-replicate, minus, set,
}
use project.Bitmap
use project.Bitmap.{Bitmap, elem_cnt, elem_idx, bit_mask}
use project.Block
use project.Block.{Block}
use project.Paging.{null, page_size, pg_ofs}
use project.Paging.Laws.{entry, CanMap}
use project.Vm.Swap.{Swap, swap_write, swap_read, get_free, write_loop}
use project.Vm.Swap.Slots
use project.Vm.Swap.Slots.{IsLowest, used}
use project.Vm.Swap.Transfer.{Saved, swap_write-Saved, swap_read-swap_write}
use project.Vm.State.{Frame, Page, Vm, empty_frame, frame_at, total_pages, clock_start}
use project.Vm.Frames.{frame_evict, frame_free, frame_install, frame_find_empty}
use project.Vm.Frames.Table.{count_used, Fresh, Distinct, IsConsistent, at, IsFirstFree}
use project.Vm.Frames.Effects.{
  put-IsConsistent, frame_find_empty-IsFirstFree, frame_free-IsConsistent, frame_free-of_free,
  Installed, frame_install-Installed,
}
use project.Filesys.{Fs}
use project.Filesys.Data.{Inode}
use project.Vm.Swap.Transfer.{Stored, page_at}
use project.Vm.Pages.Exit.{IsPlaced, Cleared, page_clear_all-Cleared}
use project.Vm.Pages.{Space, swap_in, page_clear_all}
use project.Vm.Pages.Return.{Restored, swap_in-Restored}
use project.Vm.Frames.Eviction.{Holds, Evicts, frame_evict-Evicts}

-- a swap device of two slots, of which the first is taken
abbrev device : Block
device = record {
  size = 16;
  foreign = false;
  read_cnt = 0;
  write_cnt = 0;
  sectors = λ s. replicate 512 s;
}

abbrev swap : Swap
swap = record { device = device; free_bitmap = record { bit_cnt = 2; bits = 1 ∷ [] } }

swap-IsValid : Slots.IsValid swap
unfolding elem_cnt
swap-IsValid = record {
  bitmap = record { small = omega arith; elements = refl };
  room = omega arith;
  word = omega arith;
  own = refl;
}

abbrev page : List ℕ
page = replicate 4096 7

page-whole : length page ≡ page_size
page-whole = length-replicate {A = ℕ} 4096 7

swap_write-Saved_example :
    ((i : ℕ) × (s' : Swap) × (swap_write swap page ≡ ok (i * 8, s'))
      × IsLowest swap i
      × Saved swap i page s')
    ⊎ ((swap_write swap page ≡ panic) × ((j : ℕ) → j < 2 → used swap j ≡ true))
swap_write-Saved_example = swap_write-Saved swap page swap-IsValid page-whole

-- frames of increasing addresses, each with a page
abbrev frames : ℕ → ℕ → List Frame
frames zero k = []
frames (suc n) k =
    record { kpage = k; upage = 0x1000; pagedir = 1; page_pointer = 5 } ∷ frames n (k + 4096)

length-frames : (n k : ℕ) → length (frames n k) ≡ n
length-frames zero k = refl
length-frames (suc n) k = ap suc (length-frames n (k + 4096))

count_used-frames : (n k : ℕ) → count_used (frames n k) ≡ n
count_used-frames zero k = refl
count_used-frames (suc n) k = omega (arith, count_used-frames n (k + 4096))

Fresh-frames : (n k j : ℕ) → j < k → Fresh j (frames n k)
Fresh-frames zero k j h = tt
Fresh-frames (suc n) k j h = (λ e. omega arith, Fresh-frames n (k + 4096) j (omega arith))

Distinct-frames : (n k : ℕ) → Distinct (frames n k)
Distinct-frames zero k = tt
Distinct-frames (suc n) k =
    (Fresh-frames n (k + 4096) k (omega arith), Distinct-frames n (k + 4096))

abbrev some_page : Page
some_page = record {
  upage = 0x1000;
  kpage = 0xc010_0000;
  file = 0;
  writable = true;
  page_read_bytes = 0;
  page_zero_bytes = 0;
  location = 1;
  swap_location = 0;
  ofs = 0;
  pagedir = 1;
}

vm_of : List Frame → ℕ → Vm
vm_of fs occ = record {
  frame_table = fs;
  occupancy = occ;
  clock_pointer = 30;
  dirs = λ p i. none;
  pages = λ p. some_page;
  swap = swap;
  memory = λ k. page;
}

full : Vm
unfolding vm_of
full = vm_of (frames 367 0xc010_0000) 367

full-IsConsistent : IsConsistent full
unfolding full
full-IsConsistent = record {
  total = length-frames 367 0xc010_0000;
  distinct = Distinct-frames 367 0xc010_0000;
  counted = sym (count_used-frames 367 0xc010_0000);
  hand = omega arith;
  in_table = omega arith;
}

at-frames :
    (n k i : ℕ) → i < n → ((at (frames n k) i).upage ≡ 0x1000) × ((at (frames n k) i).pagedir ≡ 1)
at-frames zero k i h = absurd (omega arith)
at-frames (suc n) k zero h = (refl, refl)
at-frames (suc n) k (suc i) h = at-frames n (k + 4096) i (omega arith)

full-Holds : (i : ℕ) → clock_start ≤ i → i < total_pages → Holds full i
unfolding full pg_ofs
full-Holds i lo hi =
    let (u, d) = at-frames 367 0xc010_0000 i hi in
    record {
      taken = omega (arith, u);
      mapped = omega (arith, d);
      user = omega (arith, u);
      aligned = omega (arith, u);
      whole = page-whole;
    }

full-swap : Slots.IsValid full.swap
unfolding full
full-swap = swap-IsValid

frame_evict-Evicts_example : Evicts full (frame_evict full)
frame_evict-Evicts_example = frame_evict-Evicts full full-IsConsistent full-Holds full-swap

-- the swap device after `page` has gone out to its second slot
saved : Swap
saved = elim (swap_write swap page) [ ok r ↦ r.1 | _ ↦ swap ]

saved-run : swap_write swap page ≡ ok (8, saved)
unfolding saved swap_write get_free write_loop Bitmap.scan Bitmap.scan_loop Bitmap.contains
    Bitmap.contains_loop Bitmap.test Bitmap.holds Bitmap.set_bit Bitmap.mark elem_idx bit_mask
    Block.write
saved-run = refl

swap_read-swap_write_example :
    (s2 : Swap) × (swap_read saved 8 ≡ ok (page, minus 1, s2))
    × Slots.IsValid s2
    × ((j : ℕ) → used s2 j ≡ used swap j)
swap_read-swap_write_example =
    swap_read-swap_write swap page {sector = 8} {s1 = saved} swap-IsValid page-whole saved-run

-- the full table less the page of frame 3
spare : Vm
unfolding full
spare = record full {
  frame_table = set full.frame_table 3 (empty_frame (frame_at full 3).kpage);
  occupancy = 366;
}

spare-IsConsistent : IsConsistent spare
unfolding spare
spare-IsConsistent =
    put-IsConsistent full 3 366 (empty_frame (frame_at full 3).kpage) full-IsConsistent
      (omega arith) refl refl

frame_find_empty-IsFirstFree_example :
    (i : ℕ) × (frame_find_empty spare ≡ ok (some ((frame_at spare i).kpage, spare)))
    × IsFirstFree spare.frame_table i
frame_find_empty-IsFirstFree_example =
    frame_find_empty-IsFirstFree spare spare-IsConsistent (unfold spare in omega arith)

frame_free-IsConsistent_example :
    let vm' = frame_free full (frame_at full 3).kpage in
    IsConsistent vm'
    × (vm'.occupancy + 1 ≡ full.occupancy)
    × (vm'.frame_table ≡ set full.frame_table 3 (empty_frame (frame_at full 3).kpage))
frame_free-IsConsistent_example =
    frame_free-IsConsistent full 3 full-IsConsistent (omega arith) (unfold full in omega arith)

frame_free-of_free_example :
    let vm' = frame_free spare (frame_at spare 3).kpage in
    (vm'.occupancy + 1 ≡ count_used vm'.frame_table) × ¬ IsConsistent vm'
frame_free-of_free_example =
    frame_free-of_free spare 3 spare-IsConsistent (omega arith) (unfold spare in refl)
      (unfold spare in omega arith)

spare-CanMap : CanMap 4096 9 1 0x2000 (frame_at spare 3).kpage
unfolding spare pg_ofs
spare-CanMap = omega arith

spare-absent : (entry spare.dirs 1 0x2000).present ≡ false
unfolding spare entry
spare-absent = refl

spare-free : (frame_at spare 3).upage ≡ null
unfolding spare
spare-free = refl

frame_install-Installed_example :
    (vm' : Vm) × (frame_install 4096 9 1 spare 0x2000 (frame_at spare 3).kpage 1 true 5 true
      ≡ ok (true, vm'))
    × Installed 4096 9 1 spare 3
        (record { kpage = (frame_at spare 3).kpage; upage = 0x2000; pagedir = 1; page_pointer = 5 })
        true
        vm'
frame_install-Installed_example =
    frame_install-Installed 4096 9 1 spare 3 0x2000 1 5 true spare-IsConsistent (omega arith)
      spare-CanMap spare-absent spare-free (omega arith)

-- frames of memory from 0xc0100000 on, of which the first holds no page
grown : Vm
unfolding vm_of
grown = vm_of (empty_frame 0xc010_0000 ∷ frames 366 0xc010_1000) 366

grown-IsConsistent : IsConsistent grown
unfolding grown
grown-IsConsistent = record {
  total = ap suc (length-frames 366 0xc010_1000);
  distinct =
      (Fresh-frames 366 0xc010_1000 0xc010_0000 (omega arith), Distinct-frames 366 0xc010_1000);
  counted = omega (arith, count_used-frames 366 0xc010_1000);
  hand = omega arith;
  in_table = omega arith;
}

kpage-frames : (n k i : ℕ) → i < n → (at (frames n k) i).kpage ≡ k + 4096 * i
kpage-frames zero k i h = absurd (omega arith)
kpage-frames (suc n) k zero h = omega arith
kpage-frames (suc n) k (suc i) h = omega (arith, kpage-frames n (k + 4096) i (omega arith))

kpage-grown : (j : ℕ) → j < total_pages → (frame_at grown j).kpage ≡ 0xc010_0000 + 4096 * j
unfolding grown
kpage-grown zero h = omega arith
kpage-grown (suc j) h = omega (arith, kpage-frames 366 0xc010_1000 j (omega arith))

grown-CanMap : (j : ℕ) → j < total_pages → CanMap 4096 9 1 0x1000 (frame_at grown j).kpage
unfolding pg_ofs
grown-CanMap j h = rw (kpage-grown j h) (record {
  directory = omega arith;
  own = omega arith;
  upage_aligned = refl;
  kpage_aligned = omega arith;
  user = omega arith;
  kernel = omega arith;
  in_ram = omega arith;
})

abbrev no_inode : Inode
no_inode = record {
  sector = 0;
  open_cnt = 0;
  removed = false;
  deny_write_cnt = 0;
  disk = record { start = 0; length = 0; magic = 0 };
}

abbrev no_files : Fs
no_files = record {
  device = device;
  inodes = λ a. no_inode;
  open_inodes = [];
  files = λ a. record { inode = 0; pos = 0; deny_write = false };
  free_map = record { bit_cnt = 16; bits = 0 ∷ [] };
  free_map_file = null;
}

-- a process whose page stands in slot 0
abbrev space : Space
space = record { vm = grown; fs = no_files; spt = 5 ∷ []; pagedir = 1; esp = 0xbfff_f000 }

abbrev stored_bytes : List ℕ
stored_bytes = page_at device 0 8

swap-Stored : Stored grown.swap 0 stored_bytes
unfolding grown Bitmap.holds elem_idx bit_mask
swap-Stored = record { inside = omega arith; taken = refl; page = refl }

swap_in-Restored_example :
    (j : ℕ) × (s' : Space) × (swap_in 4096 9 true space 5 ≡ ok s')
    × Restored 4096 9 space 5 0 j stored_bytes s'
unfolding grown entry
swap_in-Restored_example =
    swap_in-Restored 4096 9 space 5 0 stored_bytes grown-IsConsistent (omega arith) swap-IsValid
      swap-Stored refl (λ e. omega arith) refl grown-CanMap

-- a process whose page stands in frame 0 of the full table
abbrev ending : Space
ending = record { vm = full; fs = no_files; spt = 5 ∷ []; pagedir = 1; esp = 0xbfff_f000 }

ending-IsPlaced : IsPlaced full (5 ∷ [])
unfolding full
ending-IsPlaced = record {
  frame = λ p m h. (
    0,
    record {
      inside = omega arith;
      kpage = refl;
      taken = λ e. omega arith;
      label = ground (arith, m);
    },
  );
}

page_clear_all-Cleared_example : Cleared full (5 ∷ []) (page_clear_all ending).vm
page_clear_all-Cleared_example =
    page_clear_all-Cleared ending full-IsConsistent ending-IsPlaced (refl, tt) refl
