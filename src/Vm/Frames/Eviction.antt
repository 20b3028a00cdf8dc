-- ===== src/Vm/Frames/Eviction.antt =====
-- The eviction of a page: where it goes, and what becomes of its frame.
use project.Base.{
  ℕ, ◌+◌, ◌*◌, ◌<◌, ◌≤◌, ◌≡◌, ◌≢◌, refl, ◌∙◌, ◌⊎◌, inl, inr, true, false, Option, some, Outcome, ok,
  panic, arith, length, set, ◌==◌, if◌then◌else◌, sub32, ne→==, eq→==, length-set,
}
use project.Paging.{null, phys_base, page_size, pg_ofs}
use project.Paging.Pagedir.{Dirs, clear_page}
use project.Paging.Laws.{entry, Updates, clear_page-entry}
use project.Vm.Swap.{Swap, swap_write}
use project.Vm.Swap.Slots
use project.Vm.Swap.Slots.{IsLowest, used}
use project.Vm.Swap.Transfer.{Saved, swap_write-Saved}
use project.Vm.State.{Frame, Vm, empty_frame, frame_at, total_pages, clock_start, in_swap}
use project.Vm.Frames.{evict_here, frame_evict, advance}
use project.Vm.Frames.Table.{is_used, IsConsistent, count_used-le, count_used-set, Distinct-set}
use project.Vm.Frames.Clock.{Stops, Cleared, frame_evict-Stops, with_hand}

-- A frame that holds a page of some process: a page-aligned user address and a whole page of bytes.
pub record Holds (vm : Vm) (i : ℕ) : Type 0 where
  pub taken : (frame_at vm i).upage ≢ null
  pub mapped : (frame_at vm i).pagedir ≢ null
  pub user : (frame_at vm i).upage < phys_base
  pub aligned : pg_ofs (frame_at vm i).upage ≡ 0
  pub whole : length (vm.memory (frame_at vm i).kpage) ≡ page_size

-- Frame `c` has given up its page: its frame is free, its page is not present any more, its bytes
-- are in the swap slot `slot`, where its page object says they are, and no other page object and no
-- other frame has changed.
pub record Evicted (vm : Vm) (c slot : ℕ) (vm' : Vm) : Type 0 where
  pub table : vm'.frame_table ≡ set vm.frame_table c (empty_frame (frame_at vm c).kpage)
  pub counted : vm'.occupancy + 1 ≡ vm.occupancy
  pub unmapped :
      Updates vm.dirs
        (frame_at vm c).pagedir
        (frame_at vm c).upage
        (record (entry vm.dirs (frame_at vm c).pagedir (frame_at vm c).upage) { present = false })
        vm'.dirs
  pub saved : Saved vm.swap slot (vm.memory (frame_at vm c).kpage) vm'.swap
  pub page :
      vm'.pages (frame_at vm c).page_pointer ≡ record (vm.pages (frame_at vm c).page_pointer) {
        swap_location = slot * 8;
        location = in_swap;
        kpage = null;
      }
  pub others : (p : ℕ) → p ≢ (frame_at vm c).page_pointer → vm'.pages p ≡ vm.pages p
  pub consistent : IsConsistent vm'

-- every slot of the swap device is taken
abbrev pub IsFull : Swap → Type 0
IsFull s = (j : ℕ) → j < s.free_bitmap.bit_cnt → used s j ≡ true

module _ (vm : Vm) (c : ℕ) (hand : vm.clock_pointer ≡ c) (con : IsConsistent vm)
    (holds : Holds vm c) (swap_ok : Slots.IsValid vm.swap) where
  abbrev under_hand : Frame
  under_hand = frame_at vm c

  abbrev Fate : Outcome (ℕ × Vm) → Type 0
  Fate r =
      ((slot : ℕ) × (vm' : Vm) × (r ≡ ok (under_hand.kpage, vm'))
        × IsLowest vm.swap slot
        × Evicted vm c slot vm')
      ⊎ ((r ≡ panic) × IsFull vm.swap)

  -- The frame under the hand gives up its page to the lowest free slot; with none free it panics.
  evict_here-Fate : Fate (evict_here vm)
  unfolding evict_here
  evict_here-Fate =
      step
        (clear_page-entry vm.dirs under_hand.pagedir under_hand.upage holds.mapped holds.user
          holds.aligned)
        (swap_write-Saved vm.swap (vm.memory under_hand.kpage) swap_ok holds.whole)
    where
      step :
          ((ds : Dirs) × (clear_page vm.dirs under_hand.pagedir under_hand.upage ≡ ok ds)
            × Updates vm.dirs under_hand.pagedir under_hand.upage
                (record (entry vm.dirs under_hand.pagedir under_hand.upage) { present = false })
                ds)
          → (((i : ℕ) × (s' : Swap) × (swap_write vm.swap (vm.memory under_hand.kpage)
                  ≡ ok (i * 8, s'))
                × IsLowest vm.swap i
                × Saved vm.swap i (vm.memory under_hand.kpage) s')
              ⊎ ((swap_write vm.swap (vm.memory under_hand.kpage) ≡ panic) × IsFull vm.swap))
          → Fate (evict_here vm)
      step (ds, e, u) (inr (e', full)) = inr (rw (hand, e, e') refl, full)
      step (ds, e, u) (inl (i, s', e', low, saved)) =
          let in_use : is_used under_hand ≡ 1 = ground arith in
          let in_range : c < total_pages = omega (arith, con.in_table, hand) in
          let count =
            count_used-set vm.frame_table c (empty_frame under_hand.kpage)
              (omega (arith, con.total, in_range)) in
          let small = count_used-le vm.frame_table in
          inl (
            i,
            record vm {
              frame_table = set vm.frame_table c (empty_frame under_hand.kpage);
              occupancy = sub32 vm.occupancy 1;
              dirs = ds;
              pages = λ p.
                  if p == under_hand.page_pointer
                  then record (vm.pages p) {
                    swap_location = i * 8;
                    location = in_swap;
                    kpage = null;
                  }
                  else vm.pages p;
              swap = s';
            },
            rw (hand, e, e') refl,
            low,
            record {
              table = refl;
              counted = omega (arith, con.counted, con.total, count, in_use, small);
              unmapped = u;
              saved = saved;
              page = rw (eq→== under_hand.page_pointer _ refl) refl;
              others = λ p ne. rw (ne→== p _ ne) refl;
              consistent = record {
                total = length-set vm.frame_table c _ ∙ con.total;
                distinct =
                    Distinct-set vm.frame_table c _ con.distinct
                      (omega (arith, con.total, in_range)) refl;
                counted = omega (arith, con.counted, con.total, count, in_use, small);
                hand = con.hand;
                in_table = con.in_table;
              };
            },
          )

-- what `frame_evict` may return: frame `c` has given up its page, or the swap device is full
pub record Evicts (vm : Vm) (r : Outcome (Option (ℕ × Vm))) : Type 0 where
  pub ds : Dirs
  pub c : ℕ
  pub low : clock_start ≤ c
  pub high : c < total_pages
  pub cleared : Cleared vm.dirs ds
  pub unused : (entry ds (frame_at vm c).pagedir (frame_at vm c).upage).accessed ≡ false
  pub outcome :
      ((slot : ℕ) × (vm' : Vm) × (r ≡ ok (some ((frame_at vm c).kpage, advance vm')))
        × IsLowest vm.swap slot
        × Evicted (with_hand vm ds c) c slot vm')
      ⊎ ((r ≡ panic) × IsFull vm.swap)

-- With every frame that the hand visits in use, `frame_evict` always ends: it frees one that was
-- not accessed, its page going to the lowest free slot, or it panics because no slot is free.
pub frame_evict-Evicts :
    (vm : Vm)
    → IsConsistent vm
    → ((i : ℕ) → clock_start ≤ i → i < total_pages → Holds vm i)
    → Slots.IsValid vm.swap
    → Evicts vm (frame_evict vm)
frame_evict-Evicts vm con holds swap_ok = record {
  ds = s.ds;
  c = s.c;
  low = s.low;
  high = s.high;
  cleared = s.cleared;
  unused = s.unused;
  outcome =
      fate
        (evict_here-Fate (with_hand vm s.ds s.c) s.c refl con' (holds' s.c s.low s.high) swap_ok);
}
  where
    s : Stops vm (frame_evict vm)
    s = frame_evict-Stops vm (record {
      hand = con.hand;
      in_table = con.in_table;
      mapped = λ i lo hi. (holds i lo hi).mapped;
    })

    con' : IsConsistent (with_hand vm s.ds s.c)
    con' = record {
      total = con.total;
      distinct = con.distinct;
      counted = con.counted;
      hand = s.low;
      in_table = s.high;
    }

    holds' : (i : ℕ) → clock_start ≤ i → i < total_pages → Holds (with_hand vm s.ds s.c) i
    holds' i lo hi = record {
      taken = (holds i lo hi).taken;
      mapped = (holds i lo hi).mapped;
      user = (holds i lo hi).user;
      aligned = (holds i lo hi).aligned;
      whole = (holds i lo hi).whole;
    }

    fate :
        Fate
          (with_hand vm s.ds s.c)
          s.c
          refl
          con'
          (holds' s.c s.low s.high)
          swap_ok
          (evict_here (with_hand vm s.ds s.c))
        → ((slot : ℕ) × (vm' : Vm) × (frame_evict vm
              ≡ ok (some ((frame_at vm s.c).kpage, advance vm')))
            × IsLowest vm.swap slot
            × Evicted (with_hand vm s.ds s.c) s.c slot vm')
          ⊎ ((frame_evict vm ≡ panic) × IsFull vm.swap)
    fate (inl (slot, vm', e, low, ev)) = inl (slot, vm', s.result ∙ rw e refl, low, ev)
    fate (inr (e, full)) = inr (s.result ∙ rw e refl, full)
