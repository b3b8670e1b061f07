-- ===== src/Archive/Timestamps.antt =====
-- The timestamp of an archive file name can be read back.
use mathlib.Core.Path.{subst}
use mathlib.Core.Option.{none}
use loxbak.Base.{
  if◌then◌else◌, ℕ, ◌+◌, ◌-◌, ◌%◌, ◌<◌, ◌≡◌, refl, sym, ◌∙◌, ap, true, some, ◌∷◌, ◌++◌, arith,
  length, drop, length-append, drop-append,
}
use loxbak.Base.Text.{Text}
use loxbak.Archive.{
  sanitize_name, Stamp, is_digit, read_stamp, pad2, pad4, format_stamp, zip_suffix,
  archive_filename, number, stamp_ok, match_pieces, archive_filename_re, find_submatch,
  parse_archive_timestamp,
}

number-pad2 : (n : ℕ) → n < 100 → number (pad2 n) ≡ n
number-pad2 n h = omega arith

number-pad4 : (n : ℕ) → n < 10000 → number (pad4 n) ≡ n
number-pad4 n h = omega arith

-- The valid stamps that the layout can print: a date of the calendar before the year 10000.
pub record IsValid (s : Stamp) : Type 0 where
  pub four_digits : s.year < 10000
  pub in_range : stamp_ok s ≡ true

-- The last 21 bytes of a file name.
abbrev tail_of : Stamp → Text
tail_of s = b'-' ∷ (format_stamp s ++ zip_suffix)

drop_to_tail : (a t : Text) → drop (length (a ++ t) - length t) (a ++ t) ≡ t
drop_to_tail a t = ap (λ n. drop n (a ++ t)) (omega (arith, length-append a t)) ∙ drop-append a t

drop-append-tail_of :
    (a : Text) (s : Stamp) → drop (length (a ++ tail_of s) - 21) (a ++ tail_of s) ≡ tail_of s
unfolding format_stamp
drop-append-tail_of a s = drop_to_tail a (tail_of s)

digit_ok : (n : ℕ) → is_digit (48 + n % 10) ≡ true
digit_ok n = ground arith

match_tail : (s : Stamp) → match_pieces archive_filename_re (tail_of s) ≡ true
unfolding match_pieces format_stamp
match_tail s = simp digit_ok

find_submatch-tail_of :
    (a : Text) (s : Stamp) → find_submatch (a ++ tail_of s) ≡ some (format_stamp s)
unfolding find_submatch
find_submatch-tail_of a s =
    rw (drop-append-tail_of a s) (rw (match_tail s) (unfold format_stamp in refl))

pub small_fields :
    (s : Stamp)
    → stamp_ok s ≡ true
    → (s.month < 100) × (s.day < 100) × (s.hour < 100) × (s.minute < 100) × (s.second < 100)
small_fields s h = ground arith

read-format_stamp :
    (s : Stamp) → stamp_ok s ≡ true → s.year < 10000 → read_stamp (format_stamp s) ≡ s
unfolding format_stamp
read-format_stamp s h y =
    let b = small_fields s h in
    λ i. record {
      year = number-pad4 s.year y i;
      month = number-pad2 s.month b.0 i;
      day = number-pad2 s.day b.1 i;
      hour = number-pad2 s.hour b.2 i;
      minute = number-pad2 s.minute b.3 i;
      second = number-pad2 s.second b.4 i;
    }

-- The timestamp in the file name of an archive, made at a valid time before the year 10000, is read
-- back as it was written, whatever the schedule's name.
pub parse-archive_filename :
    (name : Text) (s : Stamp)
    → IsValid s
    → parse_archive_timestamp (archive_filename name s) ≡ some s
unfolding archive_filename parse_archive_timestamp
parse-archive_filename name s v = rw (find_submatch-tail_of (sanitize_name name) s) (
    subst (λ t. (if stamp_ok t then some t else none) ≡ some s)
      (sym (read-format_stamp s v.in_range v.four_digits)) (rw v.in_range))
