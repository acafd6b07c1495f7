-- ===== src/Utils.antt =====
-- utils.cpp, one module for each group of helpers.
pub mod Wildcard
pub mod Ttl
pub mod Sni
pub mod Whitelist
pub mod Methods
pub mod HostName
