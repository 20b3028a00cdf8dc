-- ===== src/Syscall/Tests.antt =====
-- A process with two open files, and the theorems at it.
use project.Base.{ℕ, ◌+◌, ◌≡◌, refl, ◌⊎◌, true, false, [], ◌∷◌, ok, arith, replicate, minus}
use project.Paging.{null, is_kernel_vaddr}
use project.Filesys.{Fs, set_inode}
use project.Filesys.Data.{Inode}
use project.Filesys.Create.{inode_close}
use project.Filesys.File.{file_close, file_allow_write}
use project.Syscall.{
  Process, State, max_files, argument, check_pointer, system_open, system_close, file_of,
  fd_pointer,
}
use project.Syscall.Table.{IsTable}
use project.Syscall.Descriptors.{Opened, system_open-Opened, Closed, system_close-Closed}

abbrev inode : Inode
inode = record {
  sector = 5;
  open_cnt = 2;
  removed = false;
  deny_write_cnt = 0;
  disk = record { start = 6; length = 1000; magic = 0x494e_4f44 };
}

abbrev fs : Fs
fs = record {
  device = record {
    size = 16;
    foreign = false;
    read_cnt = 0;
    write_cnt = 0;
    sectors = λ s. replicate 512 0;
  };
  inodes = λ a. inode;
  open_inodes = 200 ∷ [];
  files = λ a. record { inode = 200; pos = 0; deny_write = false };
  free_map = record { bit_cnt = 16; bits = 0xff ∷ [] };
  free_map_file = null;
}

-- descriptors 2 and 4 are in use
abbrev process : Process
process = record { fd_pointers = 300 ∷ 0 ∷ 301 ∷ replicate 125 0; num_open_files = 2 }

abbrev state : State
state = record { fs = fs; process = process }

process-IsTable : IsTable process
process-IsTable = record { total = refl; counted = refl }

abbrev stack_pointer : ℕ
stack_pointer = 0xbfff_ff00

system_open-Opened_example :
    ((i : ℕ) × (p' : Process) × (system_open
          (λ g name. ok (302, g))
          (λ a. ok 0x0804_8000)
          state
          stack_pointer
        ≡ ok (i + 2, record { fs = fs; process = p' }))
      × Opened process i 302 p')
    ⊎ ((process.num_open_files ≡ max_files)
        × (system_open (λ g name. ok (302, g)) (λ a. ok 0x0804_8000) state stack_pointer
            ≡ ok (minus 1, state)))
unfolding argument check_pointer is_kernel_vaddr
system_open-Opened_example =
    system_open-Opened (λ g name. ok (302, g)) (λ a. ok 0x0804_8000) state stack_pointer
      {name = 0x0804_8000} process-IsTable refl refl refl (λ e. omega arith)

-- the file system after `file_close`
abbrev closed_fs : Fs
closed_fs = set_inode fs 200 (record inode { open_cnt = 1 })

system_close-Closed_example :
    (p' : Process) × (system_close (λ a. ok 4) true state stack_pointer
      ≡ ok (record { fs = closed_fs; process = p' }))
    × Closed process 2 p'
unfolding argument check_pointer is_kernel_vaddr file_of fd_pointer file_close file_allow_write
    inode_close
system_close-Closed_example =
    system_close-Closed (λ a. ok 4) true state stack_pointer 2 process-IsTable (omega arith) refl
      (λ e. omega arith) refl
