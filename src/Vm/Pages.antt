-- ===== src/Vm/Pages.antt =====
-- vm/page.c: the supplemental page table of a process, and what a page fault does with it. The
-- table is the list of the addresses of its pages; `frame_lock` only makes calls run as a whole.
pub mod Return
pub mod Exit
use project.Base.{
  ℕ, ◌+◌, ◌-◌, Bool, true, false, not, ◌&&◌, ◌||◌, List, [], ◌∷◌, ◌++◌, Option, none, some, Outcome,
  ok, exit, panic, assert, ◌>>=◌, ◌>>◌, length, drop, replicate, ltb, leb, ◌==◌, if◌then◌else◌,
  sub32, minus,
}
use project.Paging.{null, pg_round_down}
use project.Filesys.{Fs}
use project.Filesys.File.{file_seek, file_read}
use project.Vm.Swap.{Swap, swap_read}
use project.Vm.State.{Page, Vm, in_frame, in_swap, in_filesys}
use project.Vm.Frames.{frame_find_empty, frame_free, frame_install}

-- The virtual memory, the file system, and of the running thread `spt`, `pagedir` and `esp`.
pub record Space : Type 0 where
  pub vm : Vm
  pub fs : Fs
  pub spt : List ℕ
  pub pagedir : ℕ
  pub esp : ℕ

abbrev pub set_page_at : Vm → ℕ → Page → Vm
set_page_at vm p x = record vm { pages = λ q. if q == p then x else vm.pages q }

abbrev pub set_memory : Vm → ℕ → List ℕ → Vm
set_memory vm kpage bytes = record vm { memory = λ k. if k == kpage then bytes else vm.memory k }

-- `hash_find` by `page_hash` and `page_less`: the page of an address, or `NULL`
unfoldable pub find_page : (ℕ → Page) → List ℕ → (upage : ℕ) → ℕ
find_page pages [] upage = null
find_page pages (p ∷ ps) upage = if (pages p).upage == upage then p else find_page pages ps upage

-- `hash_insert` leaves the table alone where it has a page of that address.
unfoldable pub page_add : Space → (entry : ℕ) → Space
unfolding find_page
page_add s entry =
    if find_page s.vm.pages s.spt (s.vm.pages entry).upage == null
    then record s { spt = entry ∷ s.spt }
    else s

-- `fresh` is what `malloc` returns.
unfoldable pub page_build :
    Space
    → (fresh upage file : ℕ) → (writable : Bool)
    → (page_read_bytes page_zero_bytes location ofs pagedir : ℕ) → Outcome Space
page_build s fresh upage file writable page_read_bytes page_zero_bytes location ofs pagedir =
    let entry : Page = record {
      upage = upage;
      kpage = null;
      file = file;
      writable = writable;
      page_read_bytes = page_read_bytes;
      page_zero_bytes = page_zero_bytes;
      location = location;
      swap_location = minus 1;
      ofs = ofs;
      pagedir = pagedir;
    } in
    (do assert (not (fresh == null)); ok (record s { vm = set_page_at s.vm fresh entry }))

-- `frame_find_empty`, whose clock stops with the fuel that it has
unfoldable pub find_empty : Vm → Outcome (ℕ × Vm)
find_empty vm = do found ← frame_find_empty vm; elim found [ some r ↦ ok r | none ↦ panic ]

-- What the loop does with a page. `location = 0` is no place at all.
unfoldable pub clear_page : Vm → (p : ℕ) → Vm
clear_page vm p =
    let x = vm.pages p in
    let freed = set_page_at (frame_free vm x.kpage) p (record x { kpage = null; location = 0 }) in
    if x.location == in_frame then freed else vm

-- `while (hash_next (&i))`, over the pages of the table
unfoldable pub clear_loop : Vm → List ℕ → Vm
unfolding clear_page
clear_loop vm [] = vm
clear_loop vm (p ∷ ps) = clear_loop (clear_page vm p) ps

unfoldable pub page_clear_all : Space → Space
unfolding clear_loop
page_clear_all s = record s { vm = clear_loop s.vm s.spt; spt = [] }

module _ (init_ram_pages init_page_dir : ℕ) (room : Bool) where
  -- `room` is whether a page table can be allocated. The state behind an exit is not kept, and with it
  -- the `frame_free` that comes before the exit, here and in `page_read_install`.
  unfoldable pub page_install_to_frame : Space → (target upage kpage pagedir : ℕ) → Outcome Space
  page_install_to_frame s target upage kpage pagedir = do
    let writable = (s.vm.pages target).writable
    (success, vm) ←
        frame_install init_ram_pages init_page_dir s.pagedir s.vm upage kpage pagedir writable
          target room
    let page : Page = record (vm.pages target) { location = in_frame; kpage = kpage }
    if success then ok (record s { vm = set_page_at vm target page }) else exit (minus 532)

  -- `bounce` is whether the file system gets its buffer.
  unfoldable pub page_read_install : Space → (target : ℕ) → (bounce : Bool) → Outcome Space
  unfolding page_install_to_frame
  page_read_install s target bounce = do
    (kpage, vm) ← find_empty s.vm
    let t = vm.pages target
    fs ← file_seek s.fs t.file t.ofs
    (bytes, fs') ← file_read fs t.file t.page_read_bytes bounce
    let rest = drop (t.page_read_bytes + t.page_zero_bytes) (vm.memory kpage)
    let filled = bytes ++ (replicate t.page_zero_bytes 0 ++ rest)
    let s' = record s { vm = set_memory vm kpage filled; fs = fs' }
    if length bytes == t.page_read_bytes
        then page_install_to_frame s' target t.upage kpage t.pagedir
        else exit (minus 35)

  -- a page of zeros is not asked for: the stack grows into the frame as it is
  unfoldable pub grow_stack : Space → (fault_addr fresh : ℕ) → Outcome Space
  unfolding page_build page_add page_install_to_frame pg_round_down
  grow_stack s fault_addr fresh = do
    (kpage, vm) ← find_empty s.vm
    let upage = pg_round_down fault_addr
    let install = (do
      s' ← page_build (record s { vm = vm }) fresh upage 0 true 0 0 in_frame 0 s.pagedir
      page_install_to_frame (page_add s' fresh) fresh upage kpage s.pagedir)
    if kpage == null then ok (record s { vm = vm }) else install

  -- the page comes back from swap
  unfoldable pub swap_in : Space → (target : ℕ) → Outcome Space
  unfolding page_install_to_frame
  swap_in s target = do
    (kpage, vm) ← find_empty s.vm
    let t = vm.pages target
    (bytes, location, swap) ← swap_read vm.swap t.swap_location
    let vm' = set_memory (record vm { swap = swap }) kpage bytes
    let vm'' = set_page_at vm' target (record t { swap_location = location })
    page_install_to_frame (record s { vm = vm'' }) target t.upage kpage t.pagedir

  -- `frame_esp` is the stack pointer in the interrupt frame.
  unfoldable pub page_fault_identifier :
      Space
      → (fault_addr frame_esp : ℕ) → (user : Bool) → (fresh : ℕ) → (bounce : Bool) → Outcome Space
  unfolding find_page pg_round_down grow_stack swap_in page_read_install
  page_fault_identifier s fault_addr frame_esp user fresh bounce =
      let target = find_page s.vm.pages s.spt (pg_round_down fault_addr) in
      let stack_pointer = if user then frame_esp else s.esp in
      let grow =
        if leb (sub32 stack_pointer 32) fault_addr
        then grow_stack s fault_addr fresh
        else exit (minus 1) in
      let location = (s.vm.pages target).location in
      let fetch =
        if location == in_swap
        then swap_in s target
        else if location == in_filesys
        then page_read_install s target bounce
        else ok s in
      if target == null then grow else fetch
