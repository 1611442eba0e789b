-- ===== src/Libc.antt =====
-- src/lib/: the parts of the kernel's support library.
pub mod Fifo
pub mod Memory
pub mod Bitmap
pub mod LinkedList
pub mod Nodes
pub mod Text
pub mod Number
