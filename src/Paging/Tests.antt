-- ===== src/Paging/Tests.antt =====
-- The theorems on page directories at a directory with no tables.
use project.Base.{◌≡◌, refl, true, false, none, ok, arith}
use project.Paging.{pg_ofs, pte_create_user}
use project.Paging.Pagedir.{Dirs, set_page, clear_page}
use project.Paging.Laws.{entry, Updates, CanMap, set_page-maps, clear_page-entry}

abbrev dirs : Dirs
dirs p i = none

can : CanMap 4096 9 1 0x2000 0xc010_0000
unfolding pg_ofs
can = omega arith

absent : (entry dirs 1 0x2000).present ≡ false
unfolding entry
absent = refl

set_page-maps_example :
    (ds' : Dirs) × (set_page 4096 9 dirs 1 0x2000 0xc010_0000 true true ≡ ok (true, ds'))
    × Updates dirs 1 0x2000 (pte_create_user 0xc010_0000 true) ds'
set_page-maps_example = set_page-maps 4096 9 dirs 1 0x2000 0xc010_0000 true can absent

clear_page-entry_example :
    (ds' : Dirs) × (clear_page dirs 1 0x2000 ≡ ok ds')
    × Updates dirs 1 0x2000 (record (entry dirs 1 0x2000) { present = false }) ds'
clear_page-entry_example =
    clear_page-entry dirs 1 0x2000 (omega arith) (omega arith) (unfold pg_ofs in refl)
