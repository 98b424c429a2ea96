-- ===== src/Payload.antt =====
-- src/dmr/payload: what the packets carry.
pub mod Sync
pub mod Lc
pub mod Emb
