-- ===== src/Fec/Qr.antt =====
-- src/dmr/fec/qr_16_7.c: the quadratic residue (16, 7) code of the embedded signalling.
mod Table
pub mod Code
use dmrlib.Common.{ℕ, Bool, ◌==◌, ◌<<<◌, ◌>>>◌, u8, get_or, bit_and, bit_or}
unfoldable pub use Table.{encoder_map}

-- The two bytes of `buf` after the call.
unfoldable pub qr_16_7_encode : ℕ × ℕ → ℕ × ℕ
qr_16_7_encode (b0, b1) =
    let dv = bit_and (b0 >>> 1) 0x7f in
    let qr = get_or encoder_map dv 0 in (u8 (qr >>> 8), u8 (bit_and qr 0xff))

unfoldable pub qr_16_7_decode : ℕ × ℕ → Bool
qr_16_7_decode (b0, b1) =
    let dv = b0 >>> 1 in
    let parity = bit_or (bit_and b0 0x01 <<< 8) b1 in
    bit_and (get_or encoder_map dv 0) 0x1ff == parity
