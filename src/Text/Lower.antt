-- ===== src/Text/Lower.antt =====
-- strings.ToLower and strings.EqualFold, by the simple lower-case mappings of Unicode 15.
use context_bridge.Prelude.{
  ℕ, ◌+◌, ◌-◌, ◌%◌, Bool, true, false, ◌&&◌, List, [], ◌∷◌, map, ltb, leb, ◌==◌, if◌then◌else◌, ◌≡◌,
  refl,
}
use context_bridge.Text.Equality.{Text, text_eq}

-- Characters that are lowered alike: those from `first` to `last` at every `step`, the first to `to`.
record Range : Type 0 where
  first : ℕ
  last : ℕ
  step : ℕ
  to : ℕ

abbrev range : ℕ → ℕ → ℕ → ℕ → Range
range a b step to = record { first = a; last = b; step = step; to = to }

-- The characters outside ASCII that have another lower case.
ranges : List Range
ranges =
    range 0xC0 0xD6 1 0xE0
    ∷ range 0xD8 0xDE 1 0xF8
    ∷ range 0x100 0x12E 2 0x101
    ∷ range 0x130 0x130 1 0x69
    ∷ range 0x132 0x136 2 0x133
    ∷ range 0x139 0x147 2 0x13A
    ∷ range 0x14A 0x176 2 0x14B
    ∷ range 0x178 0x178 1 0xFF
    ∷ range 0x179 0x17D 2 0x17A
    ∷ range 0x181 0x181 1 0x253
    ∷ range 0x182 0x184 2 0x183
    ∷ range 0x186 0x186 1 0x254
    ∷ range 0x187 0x187 1 0x188
    ∷ range 0x189 0x18A 1 0x256
    ∷ range 0x18B 0x18B 1 0x18C
    ∷ range 0x18E 0x18E 1 0x1DD
    ∷ range 0x18F 0x18F 1 0x259
    ∷ range 0x190 0x190 1 0x25B
    ∷ range 0x191 0x191 1 0x192
    ∷ range 0x193 0x193 1 0x260
    ∷ range 0x194 0x194 1 0x263
    ∷ range 0x196 0x196 1 0x269
    ∷ range 0x197 0x197 1 0x268
    ∷ range 0x198 0x198 1 0x199
    ∷ range 0x19C 0x19C 1 0x26F
    ∷ range 0x19D 0x19D 1 0x272
    ∷ range 0x19F 0x19F 1 0x275
    ∷ range 0x1A0 0x1A4 2 0x1A1
    ∷ range 0x1A6 0x1A6 1 0x280
    ∷ range 0x1A7 0x1A7 1 0x1A8
    ∷ range 0x1A9 0x1A9 1 0x283
    ∷ range 0x1AC 0x1AC 1 0x1AD
    ∷ range 0x1AE 0x1AE 1 0x288
    ∷ range 0x1AF 0x1AF 1 0x1B0
    ∷ range 0x1B1 0x1B2 1 0x28A
    ∷ range 0x1B3 0x1B5 2 0x1B4
    ∷ range 0x1B7 0x1B7 1 0x292
    ∷ range 0x1B8 0x1B8 1 0x1B9
    ∷ range 0x1BC 0x1BC 1 0x1BD
    ∷ range 0x1C4 0x1C4 1 0x1C6
    ∷ range 0x1C5 0x1C5 1 0x1C6
    ∷ range 0x1C7 0x1C7 1 0x1C9
    ∷ range 0x1C8 0x1C8 1 0x1C9
    ∷ range 0x1CA 0x1CA 1 0x1CC
    ∷ range 0x1CB 0x1DB 2 0x1CC
    ∷ range 0x1DE 0x1EE 2 0x1DF
    ∷ range 0x1F1 0x1F1 1 0x1F3
    ∷ range 0x1F2 0x1F4 2 0x1F3
    ∷ range 0x1F6 0x1F6 1 0x195
    ∷ range 0x1F7 0x1F7 1 0x1BF
    ∷ range 0x1F8 0x21E 2 0x1F9
    ∷ range 0x220 0x220 1 0x19E
    ∷ range 0x222 0x232 2 0x223
    ∷ range 0x23A 0x23A 1 0x2C65
    ∷ range 0x23B 0x23B 1 0x23C
    ∷ range 0x23D 0x23D 1 0x19A
    ∷ range 0x23E 0x23E 1 0x2C66
    ∷ range 0x241 0x241 1 0x242
    ∷ range 0x243 0x243 1 0x180
    ∷ range 0x244 0x244 1 0x289
    ∷ range 0x245 0x245 1 0x28C
    ∷ range 0x246 0x24E 2 0x247
    ∷ range 0x370 0x372 2 0x371
    ∷ range 0x376 0x376 1 0x377
    ∷ range 0x37F 0x37F 1 0x3F3
    ∷ range 0x386 0x386 1 0x3AC
    ∷ range 0x388 0x38A 1 0x3AD
    ∷ range 0x38C 0x38C 1 0x3CC
    ∷ range 0x38E 0x38F 1 0x3CD
    ∷ range 0x391 0x3A1 1 0x3B1
    ∷ range 0x3A3 0x3AB 1 0x3C3
    ∷ range 0x3CF 0x3CF 1 0x3D7
    ∷ range 0x3D8 0x3EE 2 0x3D9
    ∷ range 0x3F4 0x3F4 1 0x3B8
    ∷ range 0x3F7 0x3F7 1 0x3F8
    ∷ range 0x3F9 0x3F9 1 0x3F2
    ∷ range 0x3FA 0x3FA 1 0x3FB
    ∷ range 0x3FD 0x3FF 1 0x37B
    ∷ range 0x400 0x40F 1 0x450
    ∷ range 0x410 0x42F 1 0x430
    ∷ range 0x460 0x480 2 0x461
    ∷ range 0x48A 0x4BE 2 0x48B
    ∷ range 0x4C0 0x4C0 1 0x4CF
    ∷ range 0x4C1 0x4CD 2 0x4C2
    ∷ range 0x4D0 0x52E 2 0x4D1
    ∷ range 0x531 0x556 1 0x561
    ∷ range 0x10A0 0x10C5 1 0x2D00
    ∷ range 0x10C7 0x10C7 1 0x2D27
    ∷ range 0x10CD 0x10CD 1 0x2D2D
    ∷ range 0x13A0 0x13EF 1 0xAB70
    ∷ range 0x13F0 0x13F5 1 0x13F8
    ∷ range 0x1C90 0x1CBA 1 0x10D0
    ∷ range 0x1CBD 0x1CBF 1 0x10FD
    ∷ range 0x1E00 0x1E94 2 0x1E01
    ∷ range 0x1E9E 0x1E9E 1 0xDF
    ∷ range 0x1EA0 0x1EFE 2 0x1EA1
    ∷ range 0x1F08 0x1F0F 1 0x1F00
    ∷ range 0x1F18 0x1F1D 1 0x1F10
    ∷ range 0x1F28 0x1F2F 1 0x1F20
    ∷ range 0x1F38 0x1F3F 1 0x1F30
    ∷ range 0x1F48 0x1F4D 1 0x1F40
    ∷ range 0x1F59 0x1F5F 2 0x1F51
    ∷ range 0x1F68 0x1F6F 1 0x1F60
    ∷ range 0x1F88 0x1F8F 1 0x1F80
    ∷ range 0x1F98 0x1F9F 1 0x1F90
    ∷ range 0x1FA8 0x1FAF 1 0x1FA0
    ∷ range 0x1FB8 0x1FB9 1 0x1FB0
    ∷ range 0x1FBA 0x1FBB 1 0x1F70
    ∷ range 0x1FBC 0x1FBC 1 0x1FB3
    ∷ range 0x1FC8 0x1FCB 1 0x1F72
    ∷ range 0x1FCC 0x1FCC 1 0x1FC3
    ∷ range 0x1FD8 0x1FD9 1 0x1FD0
    ∷ range 0x1FDA 0x1FDB 1 0x1F76
    ∷ range 0x1FE8 0x1FE9 1 0x1FE0
    ∷ range 0x1FEA 0x1FEB 1 0x1F7A
    ∷ range 0x1FEC 0x1FEC 1 0x1FE5
    ∷ range 0x1FF8 0x1FF9 1 0x1F78
    ∷ range 0x1FFA 0x1FFB 1 0x1F7C
    ∷ range 0x1FFC 0x1FFC 1 0x1FF3
    ∷ range 0x2126 0x2126 1 0x3C9
    ∷ range 0x212A 0x212A 1 0x6B
    ∷ range 0x212B 0x212B 1 0xE5
    ∷ range 0x2132 0x2132 1 0x214E
    ∷ range 0x2160 0x216F 1 0x2170
    ∷ range 0x2183 0x2183 1 0x2184
    ∷ range 0x24B6 0x24CF 1 0x24D0
    ∷ range 0x2C00 0x2C2F 1 0x2C30
    ∷ range 0x2C60 0x2C60 1 0x2C61
    ∷ range 0x2C62 0x2C62 1 0x26B
    ∷ range 0x2C63 0x2C63 1 0x1D7D
    ∷ range 0x2C64 0x2C64 1 0x27D
    ∷ range 0x2C67 0x2C6B 2 0x2C68
    ∷ range 0x2C6D 0x2C6D 1 0x251
    ∷ range 0x2C6E 0x2C6E 1 0x271
    ∷ range 0x2C6F 0x2C6F 1 0x250
    ∷ range 0x2C70 0x2C70 1 0x252
    ∷ range 0x2C72 0x2C72 1 0x2C73
    ∷ range 0x2C75 0x2C75 1 0x2C76
    ∷ range 0x2C7E 0x2C7F 1 0x23F
    ∷ range 0x2C80 0x2CE2 2 0x2C81
    ∷ range 0x2CEB 0x2CED 2 0x2CEC
    ∷ range 0x2CF2 0x2CF2 1 0x2CF3
    ∷ range 0xA640 0xA66C 2 0xA641
    ∷ range 0xA680 0xA69A 2 0xA681
    ∷ range 0xA722 0xA72E 2 0xA723
    ∷ range 0xA732 0xA76E 2 0xA733
    ∷ range 0xA779 0xA77B 2 0xA77A
    ∷ range 0xA77D 0xA77D 1 0x1D79
    ∷ range 0xA77E 0xA786 2 0xA77F
    ∷ range 0xA78B 0xA78B 1 0xA78C
    ∷ range 0xA78D 0xA78D 1 0x265
    ∷ range 0xA790 0xA792 2 0xA791
    ∷ range 0xA796 0xA7A8 2 0xA797
    ∷ range 0xA7AA 0xA7AA 1 0x266
    ∷ range 0xA7AB 0xA7AB 1 0x25C
    ∷ range 0xA7AC 0xA7AC 1 0x261
    ∷ range 0xA7AD 0xA7AD 1 0x26C
    ∷ range 0xA7AE 0xA7AE 1 0x26A
    ∷ range 0xA7B0 0xA7B0 1 0x29E
    ∷ range 0xA7B1 0xA7B1 1 0x287
    ∷ range 0xA7B2 0xA7B2 1 0x29D
    ∷ range 0xA7B3 0xA7B3 1 0xAB53
    ∷ range 0xA7B4 0xA7C2 2 0xA7B5
    ∷ range 0xA7C4 0xA7C4 1 0xA794
    ∷ range 0xA7C5 0xA7C5 1 0x282
    ∷ range 0xA7C6 0xA7C6 1 0x1D8E
    ∷ range 0xA7C7 0xA7C9 2 0xA7C8
    ∷ range 0xA7D0 0xA7D0 1 0xA7D1
    ∷ range 0xA7D6 0xA7D8 2 0xA7D7
    ∷ range 0xA7F5 0xA7F5 1 0xA7F6
    ∷ range 0xFF21 0xFF3A 1 0xFF41
    ∷ range 0x10400 0x10427 1 0x10428
    ∷ range 0x104B0 0x104D3 1 0x104D8
    ∷ range 0x10570 0x10594 2 0x10597
    ∷ range 0x10571 0x10579 2 0x10598
    ∷ range 0x1057D 0x10589 2 0x105A4
    ∷ range 0x1058D 0x10591 2 0x105B4
    ∷ range 0x10595 0x10595 1 0x105BC
    ∷ range 0x10C80 0x10CB2 1 0x10CC0
    ∷ range 0x118A0 0x118BF 1 0x118C0
    ∷ range 0x16E40 0x16E5F 1 0x16E60
    ∷ range 0x1E900 0x1E921 1 0x1E922
    ∷ []

is_in : Range → ℕ → Bool
is_in r c = leb r.first c && (leb c r.last && (c - r.first) % r.step == 0)

lower_in : List Range → ℕ → ℕ
unfolding is_in
lower_in [] c = c
lower_in (r ∷ rs) c = let rest = lower_in rs c in if is_in r c then r.to + (c - r.first) else rest

-- unicode.ToLower.
unfoldable pub lower_rune : ℕ → ℕ
unfolding ranges lower_in
lower_rune c = elim (ltb c 0x80) [
  | true ↦ if leb b'A' c && leb c b'Z' then c + 32 else c
  | false ↦ lower_in ranges c
]

-- strings.ToLower.
unfoldable pub to_lower : List ℕ → List ℕ
unfolding lower_rune
to_lower s = map lower_rune s

-- The ASCII letter to which unicode.SimpleFold leads, in lower case: besides the letters themselves
-- the long s and the Kelvin sign have one.
unfoldable pub fold_rune : ℕ → ℕ
fold_rune c =
    if leb b'A' c && leb c b'Z'
    then c + 32
    else if c == 0x17F
    then b's'
    else if c == 0x212A
    then b'k'
    else c

-- strings.EqualFold of a text with one in ASCII.
unfoldable pub equal_fold : Text → Text → Bool
unfolding fold_rune text_eq
equal_fold s ascii = text_eq (map fold_rune s) (map fold_rune ascii)

lowered :
    to_lower (0x130 ∷ 0xC9 ∷ 0x212A ∷ 0x41 ∷ 0x17F ∷ []) ≡ (0x69 ∷ 0xE9 ∷ 0x6B ∷ 0x61 ∷ 0x17F ∷ [])
unfolding to_lower lower_rune ranges lower_in is_in
lowered = refl
