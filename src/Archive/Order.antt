-- ===== src/Archive/Order.antt =====
-- File names of one schedule sort as their timestamps do (the comment in `Prune` of
-- internal/destinations/destination.go), and what happens between schedules.
use mathlib.Core.List.{append_assoc}
use loxbak.Base.{
  ℕ, ap, ◌/◌, ◌%◌, ◌<◌, ◌≡◌, refl, ◌∙◌, Bool, true, false, ◌&&◌, ◌||◌, [], ◌∷◌, ◌++◌, arith, ltb,
  ◌==◌,
}
use loxbak.Base.Text.{Text, text_lt, has_prefix, has_prefix-append, text_lt-append_left}
use loxbak.Archive.{
  sanitize_name, Stamp, pad2, format_stamp, zip_suffix, archive_prefix, archive_filename,
}
use loxbak.Archive.Timestamps.{IsValid, small_fields}

small_year : (s : Stamp) → IsValid s → s.year / 100 < 100
small_year s v = let y = v.four_digits in omega arith

abbrev lex : ℕ → ℕ → Bool → Bool
lex m n rest = ltb m n || m == n && rest

-- Chronological order: by year, then month, and so on.
pub stamp_lt : Stamp → Stamp → Bool
stamp_lt s t = lex s.year t.year (
    lex s.month t.month
      (lex s.day t.day (lex s.hour t.hour (lex s.minute t.minute (ltb s.second t.second)))))

text_lt-pad2 :
    (m n : ℕ) (a b : Text)
    → m < 100
    → n < 100
    → text_lt (pad2 m ++ a) (pad2 n ++ b) ≡ lex m n (text_lt a b)
unfolding text_lt
text_lt-pad2 m n a b h k = ground arith

lex-divide : (m n : ℕ) (r : Bool) → lex (m / 100) (n / 100) (lex (m % 100) (n % 100) r) ≡ lex m n r
lex-divide m n r = ground arith

text_lt-cons_self : (c : ℕ) (a b : Text) → text_lt (c ∷ a) (c ∷ b) ≡ text_lt a b
text_lt-cons_self c a b = text_lt-append_left (c ∷ []) a b

step :
    (m n : ℕ) (a b : Text) (r : Bool)
    → m < 100
    → n < 100
    → text_lt a b ≡ r
    → text_lt (pad2 m ++ a) (pad2 n ++ b) ≡ lex m n r
step m n a b r h k e = text_lt-pad2 m n a b h k ∙ ap (lex m n) e

-- The bytes behind the year, and those behind the date.
abbrev from_hour : Stamp → Text
from_hour s = pad2 s.hour ++ (pad2 s.minute ++ (pad2 s.second ++ b'Z' ∷ zip_suffix))

abbrev from_month : Stamp → Text
from_month s = pad2 s.month ++ (pad2 s.day ++ b'T' ∷ from_hour s)

zip_lt : text_lt (b'Z' ∷ zip_suffix) (b'Z' ∷ zip_suffix) ≡ false
unfolding text_lt
zip_lt = refl

lex_last : (m n : ℕ) → lex m n false ≡ ltb m n
lex_last m n = ground arith

module _ (s t : Stamp) (v : IsValid s) (w : IsValid t) where
  from_hour_lt :
      text_lt (from_hour s) (from_hour t)
      ≡ lex s.hour t.hour (lex s.minute t.minute (ltb s.second t.second))
  from_hour_lt =
      let a = small_fields s v.in_range in
      let b = small_fields t w.in_range in
      step s.hour t.hour _ _ _ a.2 b.2 (
        step s.minute t.minute _ _ _ a.3 b.3
          (step s.second t.second _ _ _ a.4 b.4 zip_lt ∙ lex_last s.second t.second))

  from_month_lt :
      text_lt (from_month s) (from_month t)
      ≡ lex s.month t.month
          (lex s.day t.day (lex s.hour t.hour (lex s.minute t.minute (ltb s.second t.second))))
  from_month_lt =
      let a = small_fields s v.in_range in
      let b = small_fields t w.in_range in
      step s.month t.month _ _ _ a.0 b.0
        (step s.day t.day _ _ _ a.1 b.1 (text_lt-cons_self b'T' _ _ ∙ from_hour_lt))

  format_stamp_lt :
      text_lt (format_stamp s ++ zip_suffix) (format_stamp t ++ zip_suffix) ≡ stamp_lt s t
  unfolding format_stamp stamp_lt
  format_stamp_lt =
      step (s.year / 100) (t.year / 100) _ _ _ (small_year s v) (small_year t w)
        (step (s.year % 100) (t.year % 100) _ _ _ (omega arith) (omega arith) from_month_lt)
      ∙ lex-divide s.year t.year _

  -- Of two archives of one schedule, made at valid times before the year 10000, the file name of
  -- one is the smaller string exactly when its time is the earlier.
  pub archive_filename_lt :
      (name : Text) → text_lt (archive_filename name s) (archive_filename name t) ≡ stamp_lt s t
  unfolding archive_filename
  archive_filename_lt name =
      text_lt-append_left (sanitize_name name) _ _ ∙ text_lt-cons_self b'-' _ _ ∙ format_stamp_lt

has_prefix-append_cons :
    (a : Text) (c : ℕ) (t : Text) → has_prefix (a ++ c ∷ t) (a ++ c ∷ []) ≡ true
unfolding has_prefix
has_prefix-append_cons [] c t = ground (arith, has_prefix-append [] t)
has_prefix-append_cons (x ∷ a) c t = ground (arith, has_prefix-append_cons a c t)

-- Every archive of a schedule matches the prefix by which its backups are found and pruned.
pub has_prefix-archive_filename :
    (name : Text) (s : Stamp) → has_prefix (archive_filename name s) (archive_prefix name) ≡ true
unfolding archive_filename archive_prefix
has_prefix-archive_filename name s = has_prefix-append_cons (sanitize_name name) b'-' _

-- If one schedule's sanitized name extends another's by `-…`, its archives match the other's prefix.
pub has_prefix_of_extension :
    (name other rest : Text) (s : Stamp)
    → sanitize_name other ≡ sanitize_name name ++ b'-' ∷ rest
    → has_prefix (archive_filename other s) (archive_prefix name) ≡ true
unfolding archive_filename archive_prefix
has_prefix_of_extension name other rest s extends =
    rw (extends, append_assoc) (has_prefix-append_cons (sanitize_name name) b'-' _)

-- They sort behind every archive of the schedule `name` if the extension starts behind the digits,
-- as a letter does.
pub extension_lt :
    (name other rest : Text) (c : ℕ) (s t : Stamp)
    → sanitize_name other ≡ sanitize_name name ++ b'-' ∷ c ∷ rest
    → b'9' < c
    → text_lt (archive_filename name s) (archive_filename other t) ≡ true
unfolding archive_filename format_stamp
extension_lt name other rest c s t extends h =
    rw (extends, append_assoc (sanitize_name name) (b'-' ∷ c ∷ rest) _)
      (text_lt-append_left (sanitize_name name) _ _
        ∙ text_lt-cons_self b'-' _ _
        ∙ (unfold text_lt in ground arith))
