-- ===== src/Archive.antt =====
-- Archive names (internal/scheduler/job.go): `SanitizeName`, the file name that `archiveDir` gives
-- an archive, and `ParseArchiveTimestamp`. Text is bytes; `SanitizeName` ranges over runes.
mod Runes
pub mod Timestamps
pub mod Names
pub mod Order
use loxbak.Base.{
  ℕ, ◌+◌, ◌-◌, ◌*◌, ◌/◌, ◌%◌, Bool, not, true, false, ◌&&◌, ◌||◌, Option, none, some, List, [], ◌∷◌,
  ◌++◌, map, leb, ltb, ◌==◌, if◌then◌else◌, length, take, drop,
}
use loxbak.Base.Text.{Text, txt, encode_rune, is_empty}
use loxbak.Archive.Runes.{runes}

-- `r >= 'a' && r <= 'z', …, r == '-', r == '_'`
abbrev pub is_safe : ℕ → Bool
is_safe r =
    leb b'a' r && leb r b'z'
    || leb b'A' r && leb r b'Z'
    || leb b'0' r && leb r b'9'
    || r == b'-'
    || r == b'_'

unfoldable pub sanitize_rune : ℕ → ℕ
sanitize_rune r = if is_safe r then r else b'-'

-- `string(out)` for a slice of runes
unfoldable pub encode_runes : List ℕ → Text
encode_runes [] = []
encode_runes (r ∷ rs) = encode_rune r ++ encode_runes rs

unfoldable pub sanitize_name : Text → Text
unfolding runes encode_runes sanitize_rune
sanitize_name name =
    let out = map sanitize_rune (runes name) in
    if is_empty out then txt "backup" else encode_runes out

-- A `time.Time` in UTC, as the fields that the layout prints.
pub record Stamp : Type 0 where
  pub year : ℕ
  pub month : ℕ
  pub day : ℕ
  pub hour : ℕ
  pub minute : ℕ
  pub second : ℕ

abbrev pub pad2 : ℕ → Text
pad2 n = (48 + n / 10 % 10) ∷ (48 + n % 10) ∷ []

abbrev pub pad4 : ℕ → Text
pad4 n = pad2 (n / 100) ++ pad2 (n % 100)

-- `t.Format("20060102T150405Z")`, for the years that have four digits
unfoldable pub format_stamp : Stamp → Text
format_stamp s =
    pad4 s.year
    ++ (pad2 s.month
        ++ (pad2 s.day ++ b'T' ∷ (pad2 s.hour ++ (pad2 s.minute ++ (pad2 s.second ++ b'Z' ∷ [])))))

abbrev pub zip_suffix : Text
zip_suffix = b'.' ∷ b'z' ∷ b'i' ∷ b'p' ∷ []

-- `SanitizeName(scheduleName) + "-"`, as `pruneOldBackups` and `hasArchivePrefix` build it
unfoldable pub archive_prefix : Text → Text
archive_prefix schedule_name = sanitize_name schedule_name ++ b'-' ∷ []

-- `fmt.Sprintf("%s-%s.zip", SanitizeName(scheduleName), now)` in `archiveDir`
unfoldable pub archive_filename : Text → Stamp → Text
archive_filename schedule_name now =
    sanitize_name schedule_name ++ b'-' ∷ (format_stamp now ++ zip_suffix)

-- The pieces of the regular expression `-(\d{8}T\d{6}Z)\.zip$`. It has one length, so a match that
-- ends at the end of the text is a match of the text's last 21 bytes.
pub data Piece : Type 0 where
  digit : Piece
  lit : ℕ → Piece

abbrev pub is_digit : ℕ → Bool
is_digit c = leb b'0' c && leb c b'9'

abbrev pub fits : Piece → ℕ → Bool
fits digit c = is_digit c
fits (lit l) c = c == l

unfoldable pub match_pieces : List Piece → Text → Bool
match_pieces [] [] = true
match_pieces [] (_ ∷ _) = false
match_pieces (_ ∷ _) [] = false
match_pieces (p ∷ ps) (c ∷ cs) = fits p c && match_pieces ps cs

abbrev pub archive_filename_re : List Piece
archive_filename_re =
    lit b'-'
    ∷ digit
    ∷ digit
    ∷ digit
    ∷ digit
    ∷ digit
    ∷ digit
    ∷ digit
    ∷ digit
    ∷ lit b'T'
    ∷ digit
    ∷ digit
    ∷ digit
    ∷ digit
    ∷ digit
    ∷ digit
    ∷ lit b'Z'
    ∷ lit b'.'
    ∷ lit b'z'
    ∷ lit b'i'
    ∷ lit b'p'
    ∷ []

-- `archiveFilenameRe.FindStringSubmatch(filename)`, its group 1
unfoldable pub find_submatch : Text → Option Text
unfolding match_pieces
find_submatch filename =
    let last = drop (length filename - 21) filename in
    if match_pieces archive_filename_re last then some (take 16 (drop 1 last)) else none

abbrev number_from : ℕ → Text → ℕ
number_from n [] = n
number_from n (c ∷ cs) = number_from (n * 10 + (c - 48)) cs

-- The value of a run of decimal digits.
abbrev pub number : Text → ℕ
number = number_from 0

abbrev pub is_leap : ℕ → Bool
is_leap y = y % 4 == 0 && (not (y % 100 == 0) || y % 400 == 0)

-- `daysIn` of package `time`
abbrev pub days_in : ℕ → ℕ → ℕ
days_in m y =
    if m == 2
    then (if is_leap y then 29 else 28)
    else if m == 4 || m == 6 || m == 9 || m == 11
    then 30
    else 31

-- The range checks of `time.Parse`.
abbrev pub stamp_ok : Stamp → Bool
stamp_ok s =
    leb 1 s.month
    && leb s.month 12
    && (leb 1 s.day && leb s.day (days_in s.month s.year))
    && (ltb s.hour 24 && ltb s.minute 60 && ltb s.second 60)

-- The fields that `time.Parse` reads from sixteen bytes in the shape of the layout.
abbrev pub read_stamp : Text → Stamp
read_stamp t = record {
  year = number (take 4 t);
  month = number (take 2 (drop 4 t));
  day = number (take 2 (drop 6 t));
  hour = number (take 2 (drop 9 t));
  minute = number (take 2 (drop 11 t));
  second = number (take 2 (drop 13 t));
}

abbrev parse_submatch : Option Text → Option Stamp
parse_submatch none = none
parse_submatch (some t) = let s = read_stamp t in if stamp_ok s then some s else none

unfoldable pub parse_archive_timestamp : Text → Option Stamp
unfolding find_submatch
parse_archive_timestamp filename = parse_submatch (find_submatch filename)
