-- ===== src/Fec/Golay/Encoder.antt =====
-- The table of checksums of src/dmr/fec/golay_20_8.c, by data byte.
use Prim.Native.Nat.{ℕ}
use mathlib.Core.List.{List, [], ◌∷◌}

unfoldable pub encoder : List ℕ
encoder =
    0x0000 ∷ 0xb08e ∷ 0xe093 ∷ 0x501d ∷ 0x70a9 ∷ 0xc027 ∷ 0x903a ∷ 0x20b4 ∷ 0x60dc ∷ 0xd052 ∷ 0x804f
    ∷ 0x30c1 ∷ 0x1075 ∷ 0xa0fb ∷ 0xf0e6 ∷ 0x4068 ∷ 0x7036 ∷ 0xc0b8 ∷ 0x90a5 ∷ 0x202b ∷ 0x009f
    ∷ 0xb011 ∷ 0xe00c ∷ 0x5082 ∷ 0x10ea ∷ 0xa064 ∷ 0xf079 ∷ 0x40f7 ∷ 0x6043 ∷ 0xd0cd ∷ 0x80d0
    ∷ 0x305e ∷ 0xd06c ∷ 0x60e2 ∷ 0x30ff ∷ 0x8071 ∷ 0xa0c5 ∷ 0x104b ∷ 0x4056 ∷ 0xf0d8 ∷ 0xb0b0
    ∷ 0x003e ∷ 0x5023 ∷ 0xe0ad ∷ 0xc019 ∷ 0x7097 ∷ 0x208a ∷ 0x9004 ∷ 0xa05a ∷ 0x10d4 ∷ 0x40c9
    ∷ 0xf047 ∷ 0xd0f3 ∷ 0x607d ∷ 0x3060 ∷ 0x80ee ∷ 0xc086 ∷ 0x7008 ∷ 0x2015 ∷ 0x909b ∷ 0xb02f
    ∷ 0x00a1 ∷ 0x50bc ∷ 0xe032 ∷ 0x90d9 ∷ 0x2057 ∷ 0x704a ∷ 0xc0c4 ∷ 0xe070 ∷ 0x50fe ∷ 0x00e3
    ∷ 0xb06d ∷ 0xf005 ∷ 0x408b ∷ 0x1096 ∷ 0xa018 ∷ 0x80ac ∷ 0x3022 ∷ 0x603f ∷ 0xd0b1 ∷ 0xe0ef
    ∷ 0x5061 ∷ 0x007c ∷ 0xb0f2 ∷ 0x9046 ∷ 0x20c8 ∷ 0x70d5 ∷ 0xc05b ∷ 0x8033 ∷ 0x30bd ∷ 0x60a0
    ∷ 0xd02e ∷ 0xf09a ∷ 0x4014 ∷ 0x1009 ∷ 0xa087 ∷ 0x40b5 ∷ 0xf03b ∷ 0xa026 ∷ 0x10a8 ∷ 0x301c
    ∷ 0x8092 ∷ 0xd08f ∷ 0x6001 ∷ 0x2069 ∷ 0x90e7 ∷ 0xc0fa ∷ 0x7074 ∷ 0x50c0 ∷ 0xe04e ∷ 0xb053
    ∷ 0x00dd ∷ 0x3083 ∷ 0x800d ∷ 0xd010 ∷ 0x609e ∷ 0x402a ∷ 0xf0a4 ∷ 0xa0b9 ∷ 0x1037 ∷ 0x505f
    ∷ 0xe0d1 ∷ 0xb0cc ∷ 0x0042 ∷ 0x20f6 ∷ 0x9078 ∷ 0xc065 ∷ 0x70eb ∷ 0xa03d ∷ 0x10b3 ∷ 0x40ae
    ∷ 0xf020 ∷ 0xd094 ∷ 0x601a ∷ 0x3007 ∷ 0x8089 ∷ 0xc0e1 ∷ 0x706f ∷ 0x2072 ∷ 0x90fc ∷ 0xb048
    ∷ 0x00c6 ∷ 0x50db ∷ 0xe055 ∷ 0xd00b ∷ 0x6085 ∷ 0x3098 ∷ 0x8016 ∷ 0xa0a2 ∷ 0x102c ∷ 0x4031
    ∷ 0xf0bf ∷ 0xb0d7 ∷ 0x0059 ∷ 0x5044 ∷ 0xe0ca ∷ 0xc07e ∷ 0x70f0 ∷ 0x20ed ∷ 0x9063 ∷ 0x7051
    ∷ 0xc0df ∷ 0x90c2 ∷ 0x204c ∷ 0x00f8 ∷ 0xb076 ∷ 0xe06b ∷ 0x50e5 ∷ 0x108d ∷ 0xa003 ∷ 0xf01e
    ∷ 0x4090 ∷ 0x6024 ∷ 0xd0aa ∷ 0x80b7 ∷ 0x3039 ∷ 0x0067 ∷ 0xb0e9 ∷ 0xe0f4 ∷ 0x507a ∷ 0x70ce
    ∷ 0xc040 ∷ 0x905d ∷ 0x20d3 ∷ 0x60bb ∷ 0xd035 ∷ 0x8028 ∷ 0x30a6 ∷ 0x1012 ∷ 0xa09c ∷ 0xf081
    ∷ 0x400f ∷ 0x30e4 ∷ 0x806a ∷ 0xd077 ∷ 0x60f9 ∷ 0x404d ∷ 0xf0c3 ∷ 0xa0de ∷ 0x1050 ∷ 0x5038
    ∷ 0xe0b6 ∷ 0xb0ab ∷ 0x0025 ∷ 0x2091 ∷ 0x901f ∷ 0xc002 ∷ 0x708c ∷ 0x40d2 ∷ 0xf05c ∷ 0xa041
    ∷ 0x10cf ∷ 0x307b ∷ 0x80f5 ∷ 0xd0e8 ∷ 0x6066 ∷ 0x200e ∷ 0x9080 ∷ 0xc09d ∷ 0x7013 ∷ 0x50a7
    ∷ 0xe029 ∷ 0xb034 ∷ 0x00ba ∷ 0xe088 ∷ 0x5006 ∷ 0x001b ∷ 0xb095 ∷ 0x9021 ∷ 0x20af ∷ 0x70b2
    ∷ 0xc03c ∷ 0x8054 ∷ 0x30da ∷ 0x60c7 ∷ 0xd049 ∷ 0xf0fd ∷ 0x4073 ∷ 0x106e ∷ 0xa0e0 ∷ 0x90be
    ∷ 0x2030 ∷ 0x702d ∷ 0xc0a3 ∷ 0xe017 ∷ 0x5099 ∷ 0x0084 ∷ 0xb00a ∷ 0xf062 ∷ 0x40ec ∷ 0x10f1
    ∷ 0xa07f ∷ 0x80cb ∷ 0x3045 ∷ 0x6058 ∷ 0xd0d6 ∷ []
