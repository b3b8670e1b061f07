-- ===== src/Tests/Archives.antt =====
-- Archive names.
use loxbak.Base.{◌≡◌, refl, none, some, [], arith}
use loxbak.Base.Text.{txt, text_lt}
use loxbak.Archive.{sanitize_name, Stamp, format_stamp, archive_filename, parse_archive_timestamp}
use loxbak.Archive.Order.{stamp_lt, archive_filename_lt}
use loxbak.Archive.Timestamps.{IsValid, parse-archive_filename}

abbrev noon : Stamp
noon = record { year = 2026; month = 7; day = 17; hour = 12; minute = 0; second = 5 }

abbrev leap_day : Stamp
leap_day = record { year = 2024; month = 2; day = 29; hour = 23; minute = 59; second = 59 }

noon-IsValid : IsValid noon
noon-IsValid = record { four_digits = omega arith; in_range = refl }

leap_day-IsValid : IsValid leap_day
leap_day-IsValid = record { four_digits = omega arith; in_range = refl }

named : archive_filename (txt "Täglich 1/2") noon ≡ txt "T-glich-1-2-20260717T120005Z.zip"
unfolding archive_filename sanitize_name format_stamp txt
named = refl

unnamed : sanitize_name [] ≡ txt "backup"
unfolding sanitize_name
unnamed = refl

parsed :
    (parse_archive_timestamp (txt "x-20260717T120005Z.zip") ≡ some noon)
    × (parse_archive_timestamp (txt "x-20260231T120005Z.zip") ≡ none)
    × (parse_archive_timestamp (txt "20260717T120005Z.zip") ≡ none)
unfolding parse_archive_timestamp txt
parsed = (refl, refl, refl)

parse-archive_filename_example :
    parse_archive_timestamp (archive_filename (txt "a") leap_day) ≡ some leap_day
parse-archive_filename_example = parse-archive_filename (txt "a") leap_day leap_day-IsValid

archive_filename_lt_example :
    text_lt (archive_filename (txt "a") leap_day) (archive_filename (txt "a") noon)
    ≡ stamp_lt leap_day noon
archive_filename_lt_example =
    archive_filename_lt leap_day noon leap_day-IsValid noon-IsValid (txt "a")
