-- ===== src/Kernel.antt =====
-- src/kernel/: parts of the kernel proper.
pub mod Buffer
pub mod Task
pub mod Signal
pub mod Exit
pub mod Page
pub mod Device
pub mod Mutex
pub mod Time
