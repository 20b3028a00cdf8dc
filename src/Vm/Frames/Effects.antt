-- ===== src/Vm/Frames/Effects.antt =====
-- What labelling, freeing and finding a frame do to a consistent frame table.
use project.Base.{
  ℕ, ◌+◌, ◌<◌, ◌≤◌, ◌≡◌, ◌≢◌, refl, sym, ◌∙◌, Bool, true, false, some, ok, exit, arith, length, set,
  slt, add32, sub32, minus, eq→==, ne→==, length-set,
}
use project.Paging.{null, pte_create_user}
use project.Paging.Pagedir.{Dirs}
use project.Paging.Laws.{entry, Updates, CanMap, set_page-maps, get_page-entry}
use project.Vm.State.{Frame, Vm, empty_frame, frame_at, total_pages}
use project.Vm.Frames.{frame_free, install_page, frame_install, frame_find_empty}
use project.Vm.Frames.Table.{
  is_used, count_used, IsConsistent, count_used-le, count_used-set, Distinct-set, free_loop-set,
  install_loop-set, IsFirstFree, find_loop-IsFirstFree, find_loop-full,
}

-- The frame at `i` is replaced by one of the same memory, and the count follows.
pub put-IsConsistent :
    (vm : Vm) (i occ : ℕ) (f : Frame)
    → IsConsistent vm
    → i < total_pages
    → f.kpage ≡ (frame_at vm i).kpage
    → occ + is_used (frame_at vm i) ≡ vm.occupancy + is_used f
    → IsConsistent (record vm { frame_table = set vm.frame_table i f; occupancy = occ })
put-IsConsistent vm i occ f c h same count = record {
  total = length-set vm.frame_table i f ∙ c.total;
  distinct = Distinct-set vm.frame_table i f c.distinct (omega (arith, c.total)) same;
  counted =
      omega (arith, c.counted, count, count_used-set vm.frame_table i f (omega (arith, c.total)));
  hand = c.hand;
  in_table = c.in_table;
}

occupancy-le : (vm : Vm) → IsConsistent vm → vm.occupancy ≤ total_pages
occupancy-le vm c = omega (arith, c.counted, c.total, count_used-le vm.frame_table)

-- With a frame to spare, `frame_find_empty` gives the first free one and changes nothing.
pub frame_find_empty-IsFirstFree :
    (vm : Vm)
    → IsConsistent vm
    → vm.occupancy < total_pages
    → (i : ℕ) × (frame_find_empty vm ≡ ok (some ((frame_at vm i).kpage, vm)))
      × IsFirstFree vm.frame_table i
unfolding frame_find_empty
frame_find_empty-IsFirstFree vm c h =
    let (i, e, first) = find_loop-IsFirstFree vm.frame_table (omega (arith, c.counted, c.total)) in
    let room : slt vm.occupancy total_pages ≡ true = ground arith in (i, rw (room, e) refl, first)

-- `frame_free` of a frame in use empties it, keeps the table consistent and lowers the count.
pub frame_free-IsConsistent :
    (vm : Vm) (i : ℕ)
    → IsConsistent vm
    → i < total_pages
    → (frame_at vm i).upage ≢ null
    → let vm' = frame_free vm (frame_at vm i).kpage in
      IsConsistent vm'
      × (vm'.occupancy + 1 ≡ vm.occupancy)
      × (vm'.frame_table ≡ set vm.frame_table i (empty_frame (frame_at vm i).kpage))
unfolding frame_free
frame_free-IsConsistent vm i c h taken =
    let k = (frame_at vm i).kpage in
    let in_use : is_used (frame_at vm i) ≡ 1 = ground arith in
    let count = count_used-set vm.frame_table i (empty_frame k) (omega (arith, c.total)) in
    let small = occupancy-le vm c in
    rw (free_loop-set vm.frame_table i k vm.occupancy c.distinct (omega (arith, c.total)) refl) (
      put-IsConsistent vm i (sub32 vm.occupancy 1) (empty_frame k) c h refl
          (omega (arith, c.counted, count, in_use, small)),
      omega (arith, c.counted, count, in_use, small),
      refl,
    )

-- `frame_free` of a frame that holds no page lowers the count all the same: it is one short
-- afterwards, and the frames are as they were.
pub frame_free-of_free :
    (vm : Vm) (i : ℕ)
    → IsConsistent vm
    → i < total_pages
    → (frame_at vm i).upage ≡ null
    → 0 < vm.occupancy
    → let vm' = frame_free vm (frame_at vm i).kpage in
      (vm'.occupancy + 1 ≡ count_used vm'.frame_table) × ¬ IsConsistent vm'
unfolding frame_free
frame_free-of_free vm i c h free pos =
    let k = (frame_at vm i).kpage in
    let unused : is_used (frame_at vm i) ≡ 0 = ground arith in
    let count = count_used-set vm.frame_table i (empty_frame k) (omega (arith, c.total)) in
    let small = occupancy-le vm c in
    rw (free_loop-set vm.frame_table i k vm.occupancy c.distinct (omega (arith, c.total)) refl) (
      omega (arith, c.counted, count, unused, small),
      λ c'. omega (arith, c.counted, c'.counted, count, unused, small),
    )

-- Once the count is short and every frame is in use, `frame_find_empty` finds none: it returns
-- `NULL` where it should evict.
pub frame_find_empty-short :
    (vm : Vm)
    → length vm.frame_table ≡ total_pages
    → count_used vm.frame_table ≡ total_pages
    → vm.occupancy < total_pages
    → frame_find_empty vm ≡ ok (some (null, vm))
unfolding frame_find_empty
frame_find_empty-short vm total full short =
    let room : slt vm.occupancy total_pages ≡ true = ground arith in
    rw (room, find_loop-full vm.frame_table (full ∙ sym total)) refl

module _ (init_ram_pages init_page_dir cur : ℕ) where
  -- what a successful `frame_install` leaves behind
  pub record Installed (vm : Vm) (i : ℕ) (label : Frame) (writable : Bool) (vm' : Vm) : Type 0 where
    pub consistent : IsConsistent vm'
    pub table : vm'.frame_table ≡ set vm.frame_table i label
    pub counted : vm'.occupancy ≡ vm.occupancy + 1
    pub mapped : Updates vm.dirs cur label.upage (pte_create_user label.kpage writable) vm'.dirs
    pub kept : (vm'.memory ≡ vm.memory) × (vm'.pages ≡ vm.pages) × (vm'.swap ≡ vm.swap)

  module _ (vm : Vm) (i upage pagedir page_pointer : ℕ) (writable : Bool) (c : IsConsistent vm)
      (h : i < total_pages)
      (can : CanMap init_ram_pages init_page_dir cur upage (frame_at vm i).kpage)
      (absent : (entry vm.dirs cur upage).present ≡ false) where
    abbrev kpage : ℕ
    kpage = (frame_at vm i).kpage

    maps :
        (ds : Dirs) × (install_page init_ram_pages init_page_dir cur vm.dirs upage kpage writable
            true
          ≡ ok (true, ds))
        × Updates vm.dirs cur upage (pte_create_user kpage writable) ds
    unfolding install_page
    maps =
        let (ds, e, u) =
          set_page-maps init_ram_pages init_page_dir vm.dirs cur upage kpage writable can absent in
        (ds, rw (get_page-entry vm.dirs cur upage can.directory can.user, absent) e, u)

    -- Into a free frame, for an address that is not mapped, `frame_install` returns true, maps the
    -- page, labels that frame and counts it.
    pub frame_install-Installed :
        (frame_at vm i).upage ≡ null
        → upage ≢ null
        → (vm' : Vm) × (frame_install init_ram_pages init_page_dir cur vm upage kpage pagedir
              writable page_pointer true
            ≡ ok (true, vm'))
          × Installed vm i
              (record {
                kpage = kpage;
                upage = upage;
                pagedir = pagedir;
                page_pointer = page_pointer;
              })
              writable
              vm'
    unfolding frame_install
    frame_install-Installed free some_page =
        let (ds, e, u) = maps in
        let label : Frame = record {
          kpage = kpage;
          upage = upage;
          pagedir = pagedir;
          page_pointer = page_pointer;
        } in
        let count = count_used-set vm.frame_table i label (omega (arith, c.total)) in
        let unused : is_used (frame_at vm i) ≡ 0 = ground arith in
        let used : is_used label ≡ 1 = ground arith in
        let bound = count_used-le (set vm.frame_table i label) in
        let same = length-set vm.frame_table i label in
        (
          record vm {
            frame_table = set vm.frame_table i label;
            occupancy = add32 vm.occupancy 1;
            dirs = ds;
          },
          rw
              (
                e,
                install_loop-set vm.frame_table i kpage vm.occupancy label c.distinct
                    (omega (arith, c.total)) refl,
                eq→== _ null free,
              )
              refl,
          record {
            consistent =
                put-IsConsistent (record vm { dirs = ds }) i (add32 vm.occupancy 1) label
                  (record {
                    total = c.total;
                    distinct = c.distinct;
                    counted = c.counted;
                    hand = c.hand;
                    in_table = c.in_table;
                  })
                  h refl
                  (omega (arith, unused, used, c.counted, c.total, count_used-le vm.frame_table));
            table = refl;
            counted = omega (arith, c.counted, c.total, count_used-le vm.frame_table);
            mapped = u;
            kept = (refl, refl, refl);
          },
        )

    -- Into a frame that is in use, it kills the process with status -1.
    pub frame_install-taken :
        (frame_at vm i).upage ≢ null
        → frame_install init_ram_pages init_page_dir cur vm upage kpage pagedir writable
            page_pointer true
          ≡ exit (minus 1)
    unfolding frame_install
    frame_install-taken taken =
        let (ds, e, u) = maps in
        let label : Frame = record {
          kpage = kpage;
          upage = upage;
          pagedir = pagedir;
          page_pointer = page_pointer;
        } in
        rw
          (
            e,
            install_loop-set vm.frame_table i kpage vm.occupancy label c.distinct
                (omega (arith, c.total)) refl,
            ne→== _ null taken,
          )
          refl
