-- ===== src/Go/Net.antt =====
-- Package net: SplitHostPort and the addresses.
pub mod HostPort
pub mod Ip
