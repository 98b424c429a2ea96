-- ===== src/Protocol.antt =====
-- src/dmr/protocol/: the protocols that carry packets to repeaters.
pub mod Homebrew
