-- ===== src/Archive/Runes.antt =====
-- The runes that `for _, r := range s` yields: UTF-8 as Go decodes it (unicode/utf8), where each
-- byte that starts no valid sequence is U+FFFD.
use loxbak.Base.{
  ℕ, zero, suc, ◌+◌, ◌-◌, ◌*◌, Bool, ◌&&◌, List, [], ◌∷◌, leb, ltb, if◌then◌else◌, ◌==◌,
}
use loxbak.Base.Text.{Text}

abbrev pub rune_error : ℕ
rune_error = 0xFFFD

abbrev between : ℕ → ℕ → ℕ → Bool
between lo hi c = leb lo c && leb c hi

-- Each returns the rune and the number of further bytes that it takes.
decode_two : ℕ → Text → ℕ × ℕ
decode_two b (c ∷ _) =
    if between 0x80 0xBF c then ((b - 0xC0) * 64 + (c - 0x80), 1) else (rune_error, 0)
decode_two b [] = (rune_error, 0)

decode_three : ℕ → Text → ℕ × ℕ
decode_three b (c ∷ d ∷ _) =
    if between (if b == 0xE0 then 0xA0 else 0x80) (if b == 0xED then 0x9F else 0xBF) c
      && between 0x80 0xBF d
    then ((b - 0xE0) * 4096 + (c - 0x80) * 64 + (d - 0x80), 2)
    else (rune_error, 0)
decode_three b _ = (rune_error, 0)

decode_four : ℕ → Text → ℕ × ℕ
decode_four b (c ∷ d ∷ e ∷ _) =
    if between (if b == 0xF0 then 0x90 else 0x80) (if b == 0xF4 then 0x8F else 0xBF) c
      && between 0x80 0xBF d
      && between 0x80 0xBF e
    then ((b - 0xF0) * 262144 + (c - 0x80) * 4096 + (d - 0x80) * 64 + (e - 0x80), 3)
    else (rune_error, 0)
decode_four b _ = (rune_error, 0)

unfoldable pub decode_rune : ℕ → Text → ℕ × ℕ
unfolding decode_two decode_three decode_four
decode_rune b rest =
    if ltb b 0x80
    then (b, 0)
    else if between 0xC2 0xDF b
    then decode_two b rest
    else if between 0xE0 0xEF b
    then decode_three b rest
    else if between 0xF0 0xF4 b
    then decode_four b rest
    else (rune_error, 0)

-- `skip` counts the bytes that the last rune still takes.
unfoldable pub runes_from : ℕ → Text → List ℕ
runes_from skip [] = []
runes_from (suc skip) (b ∷ rest) = runes_from skip rest
runes_from zero (b ∷ rest) = (decode_rune b rest).0 ∷ runes_from (decode_rune b rest).1 rest

unfoldable pub runes : Text → List ℕ
unfolding runes_from decode_rune
runes s = runes_from 0 s
