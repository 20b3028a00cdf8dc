-- ===== src/Process/Tests.antt =====
-- A segment of two pages, and command lines.
use project.Base.{
  ℕ, ◌+◌, ◌-◌, ◌<◌, ◌≤◌, ◌≡◌, ◌⊎◌, refl, true, false, none, some, exit, minus, List, [], ◌∷◌, ok,
  arith, replicate, get_or, panic,
}
use project.Block.{Block}
use project.Paging.{null, phys_base}
use project.Filesys.{Fs}
use project.Vm.State.{Vm}
use project.Vm.Pages.{Space}
use project.Process.{Phdr, segment_of, validate_segment, load_segment}
use project.Process.Segments.{IsCovered, segment_of-IsCovered}
use project.Process.Loading.{IsLoaded, load_segment-IsLoaded}
use project.Text.{Memory}
use project.Text.Strings.{IsString}
use project.Process.Arguments.{avail_stack_space, Args, split_loop, setup_arguments, first_word}
use project.Process.Launch.{IsStarted, page_room, setup_arguments-IsStack}
use project.Bitmap.{holds, elem_cnt, elem_idx, bit_mask}
use project.Palloc.{Pools}
use project.Palloc.Groups.{IsPools}

abbrev phdr : Phdr
phdr = record {
  p_type = 1;
  p_offset = 0x1234;
  p_vaddr = 0x804_8234;
  p_paddr = 0;
  p_filesz = 0x900;
  p_memsz = 0x1000;
  p_flags = 6;
  p_align = 4096;
}

segment_of-IsCovered_example : IsCovered phdr (segment_of phdr)
unfolding validate_segment
segment_of-IsCovered_example = segment_of-IsCovered phdr 0x2000 (omega arith) (omega arith) refl

abbrev device : Block
device = record {
  size = 16;
  foreign = false;
  read_cnt = 0;
  write_cnt = 0;
  sectors = λ s. replicate 512 s;
}

abbrev fs : Fs
fs = record {
  device = device;
  inodes = λ a. record {
    sector = 0;
    open_cnt = 0;
    removed = false;
    deny_write_cnt = 0;
    disk = record { start = 0; length = 0; magic = 0 };
  };
  open_inodes = [];
  files = λ a. record { inode = 0; pos = 0; deny_write = false };
  free_map = record { bit_cnt = 16; bits = 0 ∷ [] };
  free_map_file = null;
}

abbrev vm : Vm
vm = record {
  frame_table = [];
  occupancy = 0;
  clock_pointer = 25;
  dirs = λ p i. none;
  pages = λ p. record {
    upage = 0;
    kpage = 0;
    file = 0;
    writable = true;
    page_read_bytes = 0;
    page_zero_bytes = 0;
    location = 0;
    swap_location = 0;
    ofs = 0;
    pagedir = 0;
  };
  swap = record { device = device; free_bitmap = record { bit_cnt = 2; bits = 0 ∷ [] } };
  memory = λ k. [];
}

-- a process with no page yet
abbrev bare : Space
bare = record { vm = vm; fs = fs; spt = []; pagedir = 1; esp = phys_base }

abbrev fresh : ℕ → ℕ
fresh a = a + 0xc010_0000

load_segment-IsLoaded_example :
    (s' : Space) × (load_segment fresh 3 bare 9 0x1000 0x804_8000 0xb34 0x14cc true ≡ ok s')
    × IsLoaded fresh 9 true bare s' 0x1000 0x804_8000 0xb34 2
load_segment-IsLoaded_example =
    load_segment-IsLoaded fresh 9 true 2 3 bare 0x1000 0x804_8000 0xb34 0x14cc
      (record { unmapped = λ p m. ground (arith, m); unused = λ a l h. refl })
      (λ a b e. omega (arith, e)) (λ a. omega arith) refl refl refl (omega arith) (omega arith)
      (omega arith) (omega arith)

-- the characters of a string from an address on
abbrev text : (at : ℕ) → List ℕ → Memory
text at cs = λ a. get_or cs (a - at) 0

-- A page of the kernel pool is in use, at 0xc010_1000, and `ls  -a` stands in it.
abbrev pools : Pools
pools = record {
  kernel_pool = record { used_map = record { bit_cnt = 2; bits = 2 ∷ [] }; base = 0xc010_0000 };
  user_pool = record { used_map = record { bit_cnt = 2; bits = 0 ∷ [] }; base = 0xc010_4000 };
  memory = text 0xc010_1000 (108 ∷ 115 ∷ 32 ∷ 32 ∷ 45 ∷ 97 ∷ []);
}

pools-IsPools : IsPools pools
unfolding elem_cnt
pools-IsPools = record {
  kernel = record {
    map = record { small = omega arith; elements = refl };
    aligned = refl;
    exists = omega arith;
    in_word = omega arith;
  };
  user = record {
    map = record { small = omega arith; elements = refl };
    aligned = refl;
    exists = omega arith;
    in_word = omega arith;
  };
  apart = omega arith;
}

pools-used : holds pools.kernel_pool.used_map 1 ≡ true
unfolding holds elem_idx bit_mask
pools-used = refl

command-IsString : IsString pools.memory 0xc010_1000 (108 ∷ 115 ∷ 32 ∷ 32 ∷ 45 ∷ 97 ∷ [])
command-IsString = (
  refl,
  omega arith,
  (
    refl,
    omega arith,
    (refl, omega arith, (refl, omega arith, (refl, omega arith, (refl, omega arith, refl)))),
  ),
)

setup_arguments-IsStack_example :
    ((esp : ℕ) × (p' : Pools) × (15 ≤ page_room)
      × (setup_arguments 9 pools 0xc010_1000 ≡ ok (some (esp, p')))
      × IsStarted p'.memory esp 0xbfff_fff9 (108 ∷ 115 ∷ []) ((1, 45 ∷ 97 ∷ []) ∷ []))
    ⊎ (((page_room < 15)
          × (15 ≤ avail_stack_space)
          × (setup_arguments 9 pools 0xc010_1000 ≡ exit (minus 1)))
        ⊎ ((avail_stack_space < 15) × (setup_arguments 9 pools 0xc010_1000 ≡ ok none)))
setup_arguments-IsStack_example =
    setup_arguments-IsStack 9 pools 1 108 (115 ∷ []) ((1, 45 ∷ 97 ∷ []) ∷ []) pools-IsPools
      (omega arith) pools-used (omega arith) command-IsString
      (omega arith, omega arith, (omega arith, omega arith, tt))
      ((omega arith, omega arith, (omega arith, omega arith, tt)), omega arith, tt) (omega arith)
      (omega arith)

-- A space behind the last word: its address is lost, and the argument is an empty string.
trailing_space :
    (st : Args) × (split_loop 9
        (record {
          argc = 1;
          addresses = λ _. 0xbfff_fffb;
          memory = text 0xbfff_fffb (112 ∷ 32 ∷ 97 ∷ 32 ∷ []);
        })
        0xbfff_fffb
      ≡ ok st)
    × (st.argc ≡ 2)
    × (st.addresses 1 ≡ 0xbfff_ffff)
    × (st.memory (st.addresses 1) ≡ 0)
unfolding split_loop
trailing_space = (_, refl, refl, refl, refl)

-- A word of 128 characters does not fit into `fileArg0`.
long_word : first_word 200 (text 100 (replicate 128 97)) 100 ≡ panic
unfolding first_word
long_word = refl
