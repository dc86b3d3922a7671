-- ===== src/Jobs/Labels.antt =====
-- internal/cluster/store.go and relay.go: labels, with lengths counted in bytes of UTF-8.
use context_bridge.Prelude.{
  ℕ, ◌+◌, ◌-◌, Bool, false, not, ◌&&◌, ◌||◌, [], ◌∷◌, ltb, leb, ◌==◌, if◌then◌else◌, filter,
}
use context_bridge.Text.{Text, codes, text_eq, trim_space, equal_fold}
use context_bridge.Pipeline.Graph.Template.{is_empty}

-- The bytes of one rune in UTF-8.
abbrev pub rune_bytes : ℕ → ℕ
rune_bytes c = if ltb c 0x80 then 1 else if ltb c 0x800 then 2 else if ltb c 0x10000 then 3 else 4

-- len(value).
unfoldable pub bytes : Text → ℕ
bytes [] = 0
bytes (c ∷ cs) = rune_bytes c + bytes cs

-- truncateUTF8Bytes: the runes that fit in whole.
unfoldable pub truncate : Text → ℕ → Text
truncate [] limit = []
truncate (c ∷ cs) limit =
    let rest = truncate cs (limit - rune_bytes c) in
    if leb (rune_bytes c) limit then c ∷ rest else []

abbrev pub is_printed : ℕ → Bool
is_printed c = not (ltb c 32 || c == 127)

-- cleanLabel.
unfoldable pub clean_label : Text → ℕ → Text
unfolding bytes truncate
clean_label value limit =
    let value = filter is_printed (trim_space value) in
    if ltb limit (bytes value) then truncate value limit else value

-- unicode.IsControl, and the categories Cf, Zl and Zp.
abbrev pub is_hidden : ℕ → Bool
is_hidden c =
    ltb c 0x20
    || (leb 0x7F c && leb c 0x9F)
    || c == 0xAD
    || (leb 0x600 c && leb c 0x605)
    || c == 0x61C
    || c == 0x6DD
    || c == 0x70F
    || (leb 0x890 c && leb c 0x891)
    || c == 0x8E2
    || c == 0x180E
    || (leb 0x200B c && leb c 0x200F)
    || (leb 0x2028 c && leb c 0x202E)
    || (leb 0x2060 c && leb c 0x2064)
    || (leb 0x2066 c && leb c 0x206F)
    || c == 0xFEFF
    || (leb 0xFFF9 c && leb c 0xFFFB)
    || c == 0x110BD
    || c == 0x110CD
    || (leb 0x13430 c && leb c 0x1343F)
    || (leb 0x1BCA0 c && leb c 0x1BCA3)
    || (leb 0x1D173 c && leb c 0x1D17A)
    || c == 0xE0001
    || (leb 0xE0020 c && leb c 0xE007F)

unfoldable pub any_hidden : Text → Bool
any_hidden [] = false
any_hidden (c ∷ cs) = is_hidden c || any_hidden cs

-- validRoutingLabel.
unfoldable pub valid_routing_label : Text → ℕ → Bool
unfolding bytes any_hidden
valid_routing_label value maximum =
    not (is_empty value)
    && (leb (bytes value) maximum && (text_eq (trim_space value) value && not (any_hidden value)))

-- strings.EqualFold(value, "adapter").
unfoldable pub is_adapter : Text → Bool
is_adapter value = equal_fold value (codes "adapter")
