-- ===== src/Archive/Names.antt =====
-- What `SanitizeName` guarantees.
use loxbak.Base.{ℕ, zero, ◌<◌, ◌≡◌, refl, ◌≢◌, true, List, [], ◌∷◌, map, arith, if◌then◌else◌, All}
use loxbak.Base.Text.{Text, txt, encode_rune, is_empty}
use loxbak.Archive.{is_safe, sanitize_rune, encode_runes, sanitize_name}
use loxbak.Archive.Runes.{runes, runes_from, decode_rune}

abbrev pub IsSafeText : Text → Type 0
IsSafeText = All (λ c. is_safe c ≡ true)

lt_of_is_safe : (c : ℕ) → is_safe c ≡ true → c < 128
lt_of_is_safe c h = ground arith

is_safe-sanitize_rune : (r : ℕ) → is_safe (sanitize_rune r) ≡ true
unfolding sanitize_rune
is_safe-sanitize_rune r = ground arith

encode_rune_of_lt : (c : ℕ) → c < 128 → encode_rune c ≡ c ∷ []
encode_rune_of_lt c h = ground arith

map-sanitize_rune-IsSafeText : (rs : List ℕ) → IsSafeText (map sanitize_rune rs)
map-sanitize_rune-IsSafeText [] = tt
map-sanitize_rune-IsSafeText (r ∷ rs) = (is_safe-sanitize_rune r, map-sanitize_rune-IsSafeText rs)

encode_runes_of_safe : (t : Text) → IsSafeText t → encode_runes t ≡ t
unfolding encode_runes
encode_runes_of_safe [] h = refl
encode_runes_of_safe (c ∷ t) (p, h) =
    rw (encode_rune_of_lt c (lt_of_is_safe c p), encode_runes_of_safe t h)

-- The two outcomes, with the runes of the result as its bytes.
sanitize_name_lem :
    (name : Text)
    → sanitize_name name ≡ (
        if is_empty (map sanitize_rune (runes name))
        then txt "backup"
        else map sanitize_rune (runes name))
unfolding sanitize_name
sanitize_name_lem name = rw (encode_runes_of_safe _ (map-sanitize_rune-IsSafeText (runes name)))

if-empty-IsSafeText :
    (t : Text) → IsSafeText t → IsSafeText (if is_empty t then txt "backup" else t)
unfolding txt
if-empty-IsSafeText [] h = (refl, (refl, (refl, (refl, (refl, (refl, tt))))))
if-empty-IsSafeText (c ∷ t) h = h

if-empty-ne-nil : (t : Text) → (if is_empty t then txt "backup" else t) ≢ []
unfolding txt
if-empty-ne-nil [] = cc
if-empty-ne-nil (c ∷ t) = cc

pub sanitize_name-IsSafeText :
    (name : Text) → IsSafeText (sanitize_name name) × (sanitize_name name ≢ [])
sanitize_name-IsSafeText name = rw sanitize_name_lem (
  if-empty-IsSafeText _ (map-sanitize_rune-IsSafeText (runes name)),
  if-empty-ne-nil (map sanitize_rune (runes name)),
)

runes_from_of_safe : (t : Text) → IsSafeText t → runes_from zero t ≡ t
unfolding runes_from decode_rune
runes_from_of_safe [] h = refl
runes_from_of_safe (c ∷ t) (p, h) = ground (arith, lt_of_is_safe c p, runes_from_of_safe t h)

map-sanitize_rune_of_safe : (t : Text) → IsSafeText t → map sanitize_rune t ≡ t
unfolding sanitize_rune
map-sanitize_rune_of_safe [] h = refl
map-sanitize_rune_of_safe (c ∷ t) (p, h) = ground (arith, map-sanitize_rune_of_safe t h)

if-empty_of_ne_nil : (t : Text) → t ≢ [] → (if is_empty t then txt "backup" else t) ≡ t
if-empty_of_ne_nil [] h = absurd (h refl)
if-empty_of_ne_nil (c ∷ t) h = refl

-- A name of safe characters is kept as it is.
pub sanitize_name_of_safe : (t : Text) → IsSafeText t → t ≢ [] → sanitize_name t ≡ t
unfolding runes
sanitize_name_of_safe t h n =
    rw (sanitize_name_lem, runes_from_of_safe t h, map-sanitize_rune_of_safe t h)
      (if-empty_of_ne_nil t n)

-- Sanitizing a second time changes nothing.
pub sanitize_name_idem : (name : Text) → sanitize_name (sanitize_name name) ≡ sanitize_name name
sanitize_name_idem name =
    let (safe, full) = sanitize_name-IsSafeText name in sanitize_name_of_safe _ safe full
