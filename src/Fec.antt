-- ===== src/Fec.antt =====
-- The forward error correcting codes of src/dmr/fec.
pub mod Rs
pub mod Golay
pub mod Qr
pub mod Hamming
pub mod Bptc
pub mod Vbptc
pub mod Trellis
mod Tests
