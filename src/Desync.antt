-- ===== src/Desync.antt =====
-- desync.cpp: the packets that fool a filter, and the sniffing of the handshake.
pub mod Fakes
pub mod Packet
pub mod Raw
pub mod Receiver
pub mod Attack
