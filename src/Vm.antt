-- ===== src/Vm.antt =====
-- The virtual memory of the kernel.
pub mod Swap
pub mod State
pub mod Frames
pub mod Pages
mod Tests
