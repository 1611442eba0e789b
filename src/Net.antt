-- ===== src/Net.antt =====
-- src/net/: parts of the network stack.
pub mod Iovec
pub mod Port
pub mod TcpOption
pub mod Addr
pub mod Arp
pub mod Chksum
pub mod Pbuf
pub mod Tcp
