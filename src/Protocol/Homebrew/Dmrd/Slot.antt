-- ===== src/Protocol/Homebrew/Dmrd/Slot.antt =====
-- src/dmr/protocol/homebrew.c: the slot information, as it is sent and as it is parsed.
use dmrlib.Common.{
  ℕ, ◌<◌, ◌≡◌, refl, sym, ap, arith, ◌⊎◌, inl, inr, Bool, true, false, Bool-cases, ◌&&◌, ◌||◌, ◌==◌,
  ==_iff, if◌then◌else◌, bit_and, bit_or, ◌<<<◌, ◌>>>◌, u8, and-left, and-right, all_below,
  all_below-true,
}
use dmrlib.Packet.{ParsedPacket, data_type_voice_sync}
use dmrlib.Payload.Lc.{data_type_invalid}
use dmrlib.Protocol.Homebrew.{Homebrew}
use dmrlib.Protocol.Homebrew.Read.{data_type_voice, by_slot_info}
use dmrlib.Protocol.Homebrew.Dmrd.{slot_info, flco_private}

-- The low four bits for a slot and a call.
abbrev call_bits : ℕ → ℕ → ℕ
call_bits slot flco = if flco == flco_private then bit_or slot 0x02 else slot

-- The fields of an information byte are those it was made of.
abbrev holds : ℕ → ℕ → ℕ → ℕ → ℕ → Bool
holds info slot flco kind high =
    (bit_and info 0x01 == slot)
    && ((bit_and info 0x02 >>> 1 == flco)
        && ((bit_and (info >>> 2) 0x03 == kind) && (info >>> 4 == high)))

abbrev voice_test : ℕ → ℕ → ℕ → Bool
voice_test slot flco high = holds (u8 (bit_or (call_bits slot flco) (high <<< 4))) slot flco 0 high

abbrev sync_test : ℕ → ℕ → ℕ → Bool
sync_test slot flco high = holds (bit_or (call_bits slot flco) 0x04) slot flco 1 0

abbrev data_test : ℕ → ℕ → ℕ → Bool
data_test slot flco high =
    holds (u8 (bit_or (bit_or (call_bits slot flco) 0x08) (high <<< 4))) slot flco 2 high

abbrev all_tests : (ℕ → ℕ → ℕ → Bool) → Bool
all_tests test =
    all_below 2 (λ slot. all_below 2 (λ flco. all_below 16 (λ high. test slot flco high)))

voice_holds : all_tests voice_test ≡ true
unfolding all_below
voice_holds = refl

sync_holds : all_tests sync_test ≡ true
unfolding all_below
sync_holds = refl

data_holds : all_tests data_test ≡ true
unfolding all_below
data_holds = refl

one_test :
    (test : ℕ → ℕ → ℕ → Bool) (slot flco high : ℕ)
    → all_tests test ≡ true
    → slot < 2
    → flco < 2
    → high < 16
    → test slot flco high ≡ true
one_test test slot flco high passed p q r =
    all_below-true 16 (test slot flco) high
      (all_below-true 2 (λ f. all_below 16 (test slot f)) flco
        (all_below-true 2 (λ s. all_below 2 (λ f. all_below 16 (test s f))) slot passed p) q)
      r

record IsInfo (info slot flco kind high : ℕ) : Type 0 where
  slot_bit : bit_and info 0x01 ≡ slot
  call_bit : bit_and info 0x02 >>> 1 ≡ flco
  kind_bits : bit_and (info >>> 2) 0x03 ≡ kind
  high_bits : info >>> 4 ≡ high

IsInfo-holds :
    (info slot flco kind high : ℕ)
    → holds info slot flco kind high ≡ true
    → IsInfo info slot flco kind high
IsInfo-holds info slot flco kind high h =
    let calls = and-right (bit_and info 0x01 == slot) _ h in
    let kinds = and-right (bit_and info 0x02 >>> 1 == flco) _ calls in
    record {
      slot_bit = (==_iff _ _).0 (and-left _ _ h);
      call_bit = (==_iff _ _).0 (and-left _ _ calls);
      kind_bits = (==_iff _ _).0 (and-left _ _ kinds);
      high_bits = (==_iff _ _).0 (and-right (bit_and (info >>> 2) 0x03 == kind) _ kinds);
    }

-- The slot that is sent: none in direct mode.
unfoldable pub slot_of : Homebrew → ParsedPacket → ℕ
slot_of hb parsed = if hb.rx_freq == hb.tx_freq then 0 else parsed.ts

abbrev pub is_voice : ℕ → Bool
is_voice data_type = (data_type == data_type_invalid) || (data_type == data_type_voice)

-- The data type that arrives: an invalid one is sent as voice.
unfoldable pub carried : ℕ → ℕ
carried data_type = if is_voice data_type then data_type_voice else data_type

-- The values that the byte has room for.
pub record IsCarried (parsed : ParsedPacket) : Type 0 where
  pub slots : parsed.ts < 2
  pub calls : parsed.flco < 2
  pub frames : parsed.voice_frame < 16
  pub types :
      (parsed.data_type < 16)
      ⊎ ((parsed.data_type ≡ data_type_voice_sync) ⊎ (parsed.data_type ≡ data_type_voice))

kind_of : ℕ → ℕ
kind_of data_type =
    if is_voice data_type then 0 else (if data_type == data_type_voice_sync then 1 else 2)

high_of : ParsedPacket → ℕ
high_of parsed =
    if is_voice parsed.data_type
    then parsed.voice_frame
    else (if parsed.data_type == data_type_voice_sync then 0 else parsed.data_type)

slot_of-lt : (hb : Homebrew) (parsed : ParsedPacket) → parsed.ts < 2 → slot_of hb parsed < 2
unfolding slot_of
slot_of-lt hb parsed h = ground arith

direct :
    (hb : Homebrew) (parsed : ParsedPacket)
    → parsed.ts < 2
    → (if hb.rx_freq == hb.tx_freq then 0 else u8 parsed.ts) ≡ slot_of hb parsed
unfolding slot_of
direct hb parsed h =
    ap (λ (t : ℕ). if hb.rx_freq == hb.tx_freq then 0 else t) {x = u8 parsed.ts} {y = parsed.ts}
      (omega arith)

slot_info-IsInfo :
    (hb : Homebrew) (parsed : ParsedPacket)
    → IsCarried parsed
    → IsInfo
        (slot_info hb parsed)
        (slot_of hb parsed)
        parsed.flco
        (kind_of parsed.data_type)
        (high_of parsed)
unfolding slot_info kind_of high_of
slot_info-IsInfo hb parsed good =
    let slots = slot_of-lt hb parsed good.slots in
    rw (direct hb parsed good.slots) (elim (Bool-cases (is_voice parsed.data_type)) [
      | inl voice ↦ rw voice (
          IsInfo-holds _ _ _ 0 parsed.voice_frame (
            one_test voice_test (slot_of hb parsed) parsed.flco parsed.voice_frame voice_holds slots
              good.calls good.frames))
      | inr other ↦ rw other (elim (Bool-cases (parsed.data_type == data_type_voice_sync)) [
        | inl sync ↦ rw sync (
            IsInfo-holds _ _ _ 1 0 (
              one_test sync_test (slot_of hb parsed) parsed.flco 0 sync_holds slots good.calls
                (omega arith)))
        | inr payload ↦ rw payload (
            IsInfo-holds _ _ _ 2 parsed.data_type (
              one_test data_test (slot_of hb parsed) parsed.flco parsed.data_type data_holds slots
                good.calls (nibble parsed good other payload)))
      ])
    ])
  where
    nibble :
        (parsed : ParsedPacket)
        → IsCarried parsed
        → is_voice parsed.data_type ≡ false
        → (parsed.data_type == data_type_voice_sync) ≡ false
        → parsed.data_type < 16
    nibble parsed good other payload = elim good.types [
      | inl small ↦ small
      | inr (inl sync) ↦ ground arith
      | inr (inr voice) ↦ ground arith
    ]

-- What is parsed from the information byte of a packet.
pub by_slot_info-slot_info :
    (hb : Homebrew) (parsed head : ParsedPacket)
    → IsCarried parsed
    → (bit_and (slot_info hb parsed) 0x01 ≡ slot_of hb parsed)
      × (bit_and (slot_info hb parsed) 0x02 >>> 1 ≡ parsed.flco)
      × ((by_slot_info (slot_info hb parsed) head).data_type ≡ carried parsed.data_type)
unfolding by_slot_info carried kind_of high_of
by_slot_info-slot_info hb parsed head good =
    let info = slot_info-IsInfo hb parsed good in
    (
      info.slot_bit,
      info.call_bit,
      rw (info.kind_bits, info.high_bits)
          (elim (Bool-cases (is_voice parsed.data_type)) [
            | inl voice ↦ rw voice refl
            | inr other ↦ rw other (elim (Bool-cases (parsed.data_type == data_type_voice_sync)) [
              | inl sync ↦ rw sync (sym ((==_iff parsed.data_type data_type_voice_sync).0 sync))
              | inr payload ↦ rw payload refl
            ])
          ]),
    )
