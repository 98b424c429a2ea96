-- ===== src/Packet.antt =====
-- src/dmr/packet.c: the slot type of a packet and the decoder that tells packets apart. The NULL
-- checks and the log are left out.
pub mod Fields
pub mod SlotType
pub mod RoundTrip
pub mod Decode
mod Tests
use dmrlib.Common.{ℕ, ◌*◌, Bool, true, false, ◌||◌, Option, none, some, List}
use dmrlib.Common.{ltb, leb, if◌then◌else◌, ◌<<<◌, ◌>>>◌, u8, get_or, set, bit_and, bit_or}
use mathlib.Core.Option
use dmrlib.Fec.Golay.{golay_20_8_decode, golay_20_8_encode}
use dmrlib.Payload.Sync.{SyncPattern, sync_pattern_decode, bs_sourced_voice, bs_sourced_data}
use dmrlib.Payload.Sync.{ms_sourced_voice, ms_sourced_data, direct_voice_ts1, direct_data_ts1}
use dmrlib.Payload.Sync.{direct_voice_ts2, direct_data_ts2}

-- The three bytes that the decoder gathers from bytes 12, 13, 19 and 20.
unfoldable pub first_byte : ℕ → ℕ → ℕ
first_byte p12 p13 = bit_or (bit_and (u8 (p12 <<< 2)) 0xfc) (bit_and (p13 >>> 6) 0x03)

unfoldable pub second_byte : ℕ → ℕ → ℕ → ℕ
second_byte p13 p19 p20 =
    bit_or (bit_or (bit_and (u8 (p13 <<< 2)) 0xc0) (bit_and (u8 (p19 <<< 2)) 0xf0))
      (bit_and (p20 >>> 6) 0x03)

unfoldable pub third_byte : ℕ → ℕ
third_byte p20 = bit_and (u8 (p20 <<< 2)) 0xf0

-- `none` is a run of the Golay decoder out of fuel.
unfoldable pub slot_type_decode : List ℕ → Option (ℕ × ℕ)
slot_type_decode packet =
    Option.map (λ code. (bit_and code 0xf0 >>> 4, bit_and code 0x0f))
      (golay_20_8_decode (first_byte (get_or packet 12 0) (get_or packet 13 0))
        (second_byte (get_or packet 13 0) (get_or packet 19 0) (get_or packet 20 0))
        (third_byte (get_or packet 20 0)))

-- What the encoder makes of the four bytes, from the word `b0`, `b1`, `b2`.
unfoldable pub slot_12 : ℕ → ℕ → ℕ
slot_12 p12 b0 = bit_or (bit_and p12 0xc0) (bit_and (b0 >>> 2) 0x3f)

unfoldable pub slot_13 : ℕ → ℕ → ℕ → ℕ
slot_13 p13 b0 b1 =
    bit_or (bit_or (bit_and p13 0x0f) (bit_and (b0 <<< 6) 0xc0)) (bit_and (b1 >>> 2) 0x30)

unfoldable pub slot_19 : ℕ → ℕ → ℕ
slot_19 p19 b1 = bit_or (bit_and p19 0xf0) (bit_and (b1 >>> 2) 0x0f)

unfoldable pub slot_20 : ℕ → ℕ → ℕ → ℕ
slot_20 p20 b1 b2 =
    bit_or (bit_or (bit_and p20 0x03) (bit_and (b1 <<< 6) 0xc0)) (bit_and (b2 >>> 2) 0x3c)

unfoldable pub write_slot_type : List ℕ → ℕ → ℕ → ℕ → List ℕ
write_slot_type packet b0 b1 b2 =
    let at12 = set packet 12 (slot_12 (get_or packet 12 0) b0) in
    let at13 = set at12 13 (slot_13 (get_or at12 13 0) b0 b1) in
    let at19 = set at13 19 (slot_19 (get_or at13 19 0) b1) in
    set at19 20 (slot_20 (get_or at19 20 0) b1 b2)

-- `none` is the error for an invalid argument, which leaves the packet as it is.
unfoldable pub slot_type_encode : List ℕ → ℕ → ℕ → Option (List ℕ)
slot_type_encode packet color_code data_type =
    if leb 10 data_type
    then none
    else (if ltb color_code 1 || ltb 15 color_code
        then none
        else (let b0 = bit_or (u8 (color_code <<< 4)) (bit_and data_type 0x0f) in
            let (b1, b2) = golay_20_8_encode b0 in some (write_slot_type packet b0 b1 b2)))

-- `dmr_parsed_packet`.
pub record ParsedPacket : Type 0 where
  pub packet : List ℕ
  pub ts : ℕ
  pub flco : ℕ
  pub src_id : ℕ
  pub dst_id : ℕ
  pub repeater_id : ℕ
  pub data_type : ℕ
  pub color_code : ℕ
  pub sequence : ℕ
  pub stream_id : ℕ
  pub voice_frame : ℕ
  pub parsed : Bool

-- `talloc_zero`, then `byte_copy`, then the fields that the branches set.
abbrev pub parsed_as : List ℕ → ℕ → ℕ → ℕ → ParsedPacket
parsed_as packet ts data_type color_code = record {
  packet = packet;
  ts = ts;
  flco = 0;
  src_id = 0;
  dst_id = 0;
  repeater_id = 0;
  data_type = data_type;
  color_code = color_code;
  sequence = 0;
  stream_id = 0;
  voice_frame = 0;
  parsed = true;
}

abbrev pub data_type_data_header : ℕ
data_type_data_header = 6

abbrev pub data_type_voice_sync : ℕ
data_type_voice_sync = 0xf0

-- `null` is a return of NULL, `stuck` a run of the Golay decoder out of fuel.
pub data Parse : Type 0 where
  null stuck : Parse
  result : ParsedPacket → Parse

unfoldable pub by_slot_type : List ℕ → Option (ℕ × ℕ) → Parse
by_slot_type packet none = stuck
by_slot_type packet (some (color_code, data_type)) =
    result (parsed_as packet 0 data_type color_code)

unfoldable pub by_pattern : List ℕ → SyncPattern → Parse
by_pattern packet bs_sourced_data = result (parsed_as packet 0 data_type_data_header 0)
by_pattern packet ms_sourced_data = result (parsed_as packet 0 data_type_data_header 0)
by_pattern packet bs_sourced_voice = result (parsed_as packet 0 data_type_voice_sync 0)
by_pattern packet ms_sourced_voice = result (parsed_as packet 0 data_type_voice_sync 0)
by_pattern packet direct_data_ts1 = result (parsed_as packet 0 data_type_data_header 0)
by_pattern packet direct_data_ts2 = result (parsed_as packet 1 data_type_data_header 0)
by_pattern packet direct_voice_ts1 = result (parsed_as packet 0 data_type_voice_sync 0)
by_pattern packet direct_voice_ts2 = result (parsed_as packet 1 data_type_voice_sync 0)
by_pattern packet _ = by_slot_type packet (slot_type_decode packet)

-- `allocated` is whether `talloc_zero` returns memory.
unfoldable pub packet_decode : Bool → List ℕ → Parse
packet_decode allocated packet =
    if allocated then by_pattern packet (sync_pattern_decode packet) else null
