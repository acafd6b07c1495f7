-- ===== src/Tests.antt =====
-- The program's parts at concrete inputs.
mod Http
mod Tls
mod Attack
mod Config
mod Texts
mod Cycle
mod Accept
mod Sockets
mod Names
mod Search
