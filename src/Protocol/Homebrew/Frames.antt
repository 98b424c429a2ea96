-- ===== src/Protocol/Homebrew/Frames.antt =====
-- src/dmr/protocol/homebrew.c: the bytes of the three frames of a log-in.
use dmrlib.Common.{
  ℕ, ◌+◌, ◌^◌, ◌<◌, ◌≡◌, refl, sym, ap, subst, ◌∙◌, arith, List, [], ◌∷◌, ◌++◌, length, take,
  length-append, replicate, true,
}
use dmrlib.Common.Bytes.{take-take, length-take, append_assoc, append-nil}
use dmrlib.Raw.{Memory, Raw, u64, round_up, raw_add, raw_addf, raw_add_hex}
use dmrlib.Raw.Contents.{contents}
use dmrlib.Raw.Append.{hex}
use dmrlib.Raw.Digits.{length-hex}
use dmrlib.Raw.Room.{
  Holds, Holds-new, Holds-raw_add, Holds-raw_add_xuint, Holds-raw_add_hex, Holds-raw_addf,
}
use dmrlib.Protocol.Homebrew.{
  AreWide, Homebrew, Wire, config_sizes, rptc, rptk, tag_id, add_fields, key_frame,
}

-- A tag, seven digits of an identifier and a zero byte.
unfoldable pub tagged : Wire → List ℕ → ℕ → List ℕ
tagged wire tag id = tag ++ (take 7 (wire.id_text id) ++ (0 ∷ []))

-- The tag and the digits of the hash of the nonce and the secret.
unfoldable pub key_text : Memory → Wire → ℕ → List ℕ → List ℕ → List ℕ
key_text memory wire id nonce secret =
    tagged wire rptk id ++ hex memory.bhex (wire.sha256 (nonce ++ secret))

-- The texts, cut to the sizes of their fields.
unfoldable pub cut : List ℕ → List (List ℕ) → List ℕ
cut [] texts = []
cut (size ∷ sizes) [] = []
cut (size ∷ sizes) (text ∷ texts) = take size text ++ cut sizes texts

unfoldable pub config_text : Wire → Homebrew → List ℕ
config_text wire hb = rptc ++ cut config_sizes (wire.config_texts hb)

abbrev pub fresh : ℕ → Raw
fresh n = record { buf = replicate (round_up n) 0; allocated = round_up n; len = 0 }

abbrev total : List ℕ → ℕ
total [] = 0
total (size ∷ sizes) = size + total sizes

module _ (memory : Memory) (wire : Wire) where
  abbrev tagged_raw : List ℕ → ℕ → Raw → Raw
  tagged_raw tag id raw = tag_id memory wire true tag id raw

  length-tagged : (tag : List ℕ) (id : ℕ) → length tag ≡ 4 → length (tagged wire tag id) ≡ 12
  unfolding tagged
  length-tagged tag id four = omega (
    arith,
    length-append tag (take 7 (wire.id_text id) ++ (0 ∷ [])),
    length-append (take 7 (wire.id_text id)) (0 ∷ []),
    length-take 7 (wire.id_text id) (omega (arith, wire.length-id_text id)),
  )

  Holds-tagged :
      (tag : List ℕ) (id size : ℕ) (raw : Raw)
      → length tag ≡ 4
      → Holds size raw []
      → 12 < size
      → size + 127 < 2 ^ 63
      → Holds size (tagged_raw tag id raw) (tagged wire tag id)
  unfolding tagged tag_id
  Holds-tagged tag id size raw four h room small =
      Holds-raw_add_xuint memory size (raw_add memory raw tag 4).1 tag
        (Holds-raw_add memory size raw [] h small tag 4 (omega arith) four) small 7
        (wire.id_text id) (omega arith) (omega (arith, wire.length-id_text id))

  size_12 : round_up 12 ≡ 128
  unfolding round_up
  size_12 = refl

  -- The frame that begins a log-in.
  pub login_bytes :
      (tag : List ℕ) (id : ℕ)
      → length tag ≡ 4
      → contents (tagged_raw tag id (fresh 12)) ≡ tagged wire tag id
  login_bytes tag id four =
      (Holds-tagged tag id (round_up 12) (fresh 12) four (Holds-new 12 (omega arith))
        (omega (arith, size_12)) (omega (arith, size_12))).held

  abbrev hash : List ℕ → List ℕ → List ℕ
  hash nonce secret = wire.sha256 (nonce ++ secret)

  abbrev with_digits : ℕ → List ℕ → List ℕ → Raw
  with_digits id nonce secret =
      (raw_add_hex memory (tagged_raw rptk id (fresh 76)) (hash nonce secret) 32).1

  size_76 : round_up 76 ≡ 128
  unfolding round_up
  size_76 = refl

  Holds-digits :
      (id : ℕ) (nonce secret : List ℕ)
      → Holds (round_up 76) (with_digits id nonce secret) (key_text memory wire id nonce secret)
  unfolding key_text
  Holds-digits id nonce secret =
      Holds-raw_add_hex memory (round_up 76) (tagged_raw rptk id (fresh 76)) (tagged wire rptk id)
        (Holds-tagged rptk id (round_up 76) (fresh 76) refl (Holds-new 76 (omega arith))
          (omega (arith, size_76)) (omega (arith, size_76)))
        (omega (arith, size_76)) (hash nonce secret) 32
        (omega (arith, size_76, length-tagged rptk id refl)) (wire.length-sha256 (nonce ++ secret))

  pub length-key_text :
      (id : ℕ) (nonce secret : List ℕ) → length (key_text memory wire id nonce secret) ≡ 76
  unfolding key_text
  length-key_text id nonce secret = omega (
    arith,
    length-append (tagged wire rptk id) (hex memory.bhex (hash nonce secret)),
    length-tagged rptk id refl,
    length-hex memory.bhex (hash nonce secret),
    wire.length-sha256 (nonce ++ secret),
  )

  abbrev pub key_raw : ℕ → List ℕ → List ℕ → Raw
  key_raw id nonce secret = key_frame memory wire true id nonce secret (fresh 76)

  longer_key : (id : ℕ) (nonce secret : List ℕ) → u64 ((with_digits id nonce secret).len + 32) ≡ 108
  longer_key id nonce secret =
      omega (arith, (Holds-digits id nonce secret).length_held, length-key_text id nonce secret)

  -- The frame of the key begins with the key, and has 32 bytes more.
  pub length-key_raw :
      (id : ℕ) (nonce secret : List ℕ) → length (contents (key_raw id nonce secret)) ≡ 108
  unfolding contents key_frame
  length-key_raw id nonce secret =
      ap (λ k. length (take k (with_digits id nonce secret).buf)) (longer_key id nonce secret)
      ∙ length-take 108 (with_digits id nonce secret).buf (
          omega (
            arith,
            (Holds-digits id nonce secret).well.size,
            (Holds-digits id nonce secret).allocated_size,
            size_76,
          ))

  pub key_bytes :
      (id : ℕ) (nonce secret : List ℕ)
      → take 76 (contents (key_raw id nonce secret)) ≡ key_text memory wire id nonce secret
  unfolding contents key_frame
  key_bytes id nonce secret =
      ap (λ k. take 76 (take k (with_digits id nonce secret).buf)) (longer_key id nonce secret)
      ∙ take-take 76 108 (with_digits id nonce secret).buf (omega arith)
      ∙ ap (λ k. take k (with_digits id nonce secret).buf) {x = 76}
          {y = (with_digits id nonce secret).len}
          (omega
            (arith, (Holds-digits id nonce secret).length_held, length-key_text id nonce secret))
      ∙ (Holds-digits id nonce secret).held

  Holds-add_fields :
      (sizes : List ℕ) (texts : List (List ℕ)) (size : ℕ) (raw : Raw) (text : List ℕ)
      → AreWide sizes texts
      → Holds size raw text
      → length text + total sizes + 1 < size
      → size + 127 < 2 ^ 63
      → Holds size (add_fields memory wire true sizes texts raw) (text ++ cut sizes texts)
  unfolding add_fields cut
  Holds-add_fields [] texts size raw text wide h room small =
      subst (λ t. Holds size raw t) (sym (append-nil text)) h
  Holds-add_fields (n ∷ sizes) [] size raw text wide h room small = absurd wide
  Holds-add_fields (n ∷ sizes) (words ∷ texts) size raw text wide h room small =
      subst
        (λ t.
          Holds size (add_fields memory wire true sizes texts (raw_addf memory raw n words).1) t)
        (append_assoc text (take n words) (cut sizes texts))
        (Holds-add_fields sizes texts size (raw_addf memory raw n words).1 (text ++ take n words)
          wide.1 (Holds-raw_addf memory size raw text h small n words (omega arith) wide.0)
          (omega (arith, length-append text (take n words), length-take n words wide.0)) small)

  size_302 : round_up 302 ≡ 384
  unfolding round_up
  size_302 = refl

  abbrev pub config_raw : Homebrew → Raw
  config_raw hb =
      add_fields memory wire true config_sizes (wire.config_texts hb)
        (raw_add memory (fresh 302) rptc 4).1

  -- The frame of the configuration.
  pub config_bytes : (hb : Homebrew) → contents (config_raw hb) ≡ config_text wire hb
  unfolding config_text
  config_bytes hb =
      (Holds-add_fields config_sizes (wire.config_texts hb) (round_up 302)
        (raw_add memory (fresh 302) rptc 4).1 rptc (wire.config_texts-AreWide hb)
        (Holds-raw_add memory (round_up 302) (fresh 302) [] (Holds-new 302 (omega arith))
          (omega (arith, size_302)) rptc 4 (omega (arith, size_302)) refl)
        (omega (arith, size_302)) (omega (arith, size_302))).held
