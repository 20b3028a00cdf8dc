-- ===== src/Vm/Pages/Return.antt =====
-- A page that comes back from swap.
use project.Base.{ℕ, ◌*◌, ◌<◌, ◌≡◌, ◌≢◌, refl, ap, ◌∙◌, true, false, List, ok, arith, eq→==, minus}
use project.Paging.{null, pte_create_user}
use project.Paging.Laws.{entry, Updates, CanMap}
use project.Vm.Swap.{Swap, swap_read}
use project.Vm.Swap.Slots
use project.Vm.Swap.Slots.{used}
use project.Vm.Swap.Transfer.{Stored, swap_read-Released}
use project.Vm.State.{Page, Vm, frame_at, total_pages, in_frame}
use project.Vm.Frames.Table.{IsConsistent, IsFirstFree}
use project.Vm.Frames.Effects.{frame_find_empty-IsFirstFree, frame_install-Installed}
use project.Vm.Pages.{Space, set_page_at, set_memory, find_empty, page_install_to_frame, swap_in}

-- Other contents of memory, swap and pages do not matter to the frame table.
pub same_table-IsConsistent :
    (vm vm' : Vm)
    → IsConsistent vm
    → vm'.frame_table ≡ vm.frame_table
    → vm'.occupancy ≡ vm.occupancy
    → vm'.clock_pointer ≡ vm.clock_pointer
    → IsConsistent vm'
same_table-IsConsistent vm vm' c table count hand = record {
  total = rw table c.total;
  distinct = rw table c.distinct;
  counted = rw (table, count) c.counted;
  hand = rw hand c.hand;
  in_table = rw hand c.in_table;
}

module _ (init_ram_pages init_page_dir : ℕ) where
  -- what bringing back a page from slot `i` into the frame at `j` leaves behind
  pub record Restored (s : Space) (target i j : ℕ) (bytes : List ℕ) (s' : Space) : Type 0 where
    pub first : IsFirstFree s.vm.frame_table j
    pub consistent : IsConsistent s'.vm
    pub memory : s'.vm.memory (frame_at s.vm j).kpage ≡ bytes
    pub mapped :
        Updates s.vm.dirs s.pagedir
          (s.vm.pages target).upage
          (pte_create_user (frame_at s.vm j).kpage (s.vm.pages target).writable)
          s'.vm.dirs
    pub location : (s'.vm.pages target).location ≡ in_frame
    pub kpage : (s'.vm.pages target).kpage ≡ (frame_at s.vm j).kpage
    pub released : used s'.vm.swap i ≡ false

  module _ (s : Space) (target i : ℕ) (bytes : List ℕ) (c : IsConsistent s.vm)
      (room : s.vm.occupancy < total_pages) (v : Slots.IsValid s.vm.swap)
      (stored : Stored s.vm.swap i bytes) (at_slot : (s.vm.pages target).swap_location ≡ i * 8)
      (some_page : (s.vm.pages target).upage ≢ null)
      (absent : (entry s.vm.dirs s.pagedir (s.vm.pages target).upage).present ≡ false)
      (can : (j : ℕ)
        → j < total_pages
        → CanMap init_ram_pages init_page_dir s.pagedir
            (s.vm.pages target).upage
            (frame_at s.vm j).kpage) where
    abbrev t : Page
    t = s.vm.pages target

    -- the state before the page is installed in a frame
    abbrev filled : ℕ → Swap → Vm
    filled kpage swap =
        set_page_at (set_memory (record s.vm { swap = swap }) kpage bytes) target
          (record t { swap_location = minus 1 })

    installs :
        (j : ℕ) (swap : Swap)
        → IsFirstFree s.vm.frame_table j
        → used swap i ≡ false
        → (s' : Space) × (page_install_to_frame init_ram_pages init_page_dir true
              (record s { vm = filled (frame_at s.vm j).kpage swap })
              target
              t.upage
              (frame_at s.vm j).kpage
              t.pagedir
            ≡ ok s')
          × Restored s target i j bytes s'
    unfolding page_install_to_frame
    installs j swap first free =
        let k = (frame_at s.vm j).kpage in
        let vm1 = filled k swap in
        let here : j < total_pages = omega (arith, c.total, first.inside) in
        let c1 = same_table-IsConsistent s.vm vm1 c refl refl refl in
        let (vm', e, ins) =
          frame_install-Installed init_ram_pages init_page_dir s.pagedir vm1 j t.upage t.pagedir
            target t.writable c1 here (can j here) absent first.free some_page in
        let page : Page = record (vm'.pages target) { location = in_frame; kpage = k } in
        (
          record s { vm = set_page_at vm' target page },
          rw (eq→== target target refl, e) refl,
          record {
            first = first;
            consistent =
                same_table-IsConsistent vm' (set_page_at vm' target page) ins.consistent refl refl
                  refl;
            memory = ap (λ m. m k) ins.kept.0 ∙ rw (eq→== k k refl) refl;
            mapped = ins.mapped;
            location = rw (eq→== target target refl) refl;
            kpage = rw (eq→== target target refl) refl;
            released = ap (λ w. used w i) ins.kept.2 ∙ free;
          },
        )

    -- A fault on a page in swap slot `i`, with a frame to spare: the first free frame holds the
    -- page's bytes afterwards and is mapped at its address, the page is recorded as being in that
    -- frame, the slot is free again, and the frame table is consistent.
    pub swap_in-Restored :
        (j : ℕ) × (s' : Space) × (swap_in init_ram_pages init_page_dir true s target ≡ ok s')
        × Restored s target i j bytes s'
    unfolding swap_in find_empty
    swap_in-Restored =
        let (j, finds, first) = frame_find_empty-IsFirstFree s.vm c room in
        let (swap, reads, rel) = swap_read-Released s.vm.swap i bytes v stored in
        let (s', e, done) = installs j swap first rel.free in
        let from_slot : swap_read s.vm.swap t.swap_location ≡ ok (bytes, minus 1, swap) =
          ap (swap_read s.vm.swap) at_slot ∙ reads in
        (j, s', rw (finds, from_slot) e, done)
