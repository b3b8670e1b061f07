-- ===== src/Db/Migrations.antt =====
-- internal/db/migrations.go and the opening of internal/db/db.go. The embedded files are a parameter, and so is
-- running a script, which works on the tables behind the connection.
use loxbak.Base.{
  ℕ, zero, suc, ◌+◌, ◌-◌, ◌*◌, ◌/◌, ◌%◌, Bool, true, false, Option, none, some, List, [], ◌∷◌, ◌++◌,
  ltb, leb, ◌==◌, if◌then◌else◌, Error, Result, ok, err, errorf, wrap,
}
use loxbak.Base.Int.{ℤ, pos, negsuc}
use loxbak.Base.Text.{Text, txt, text_lt}
use loxbak.Archive.{is_digit}
use loxbak.Db.{Db, M}
use loxbak.Db.Settings.{get_setting, set_setting}
use loxbak.Db.Sql.{exec, pure, fail, wrapping, ◌>>=◌, ◌>>◌}

pub record Embedded : Type 0 where
  -- the directory's entries: a name, and whether it is a directory
  pub read_dir : Result (List (Text × Bool))
  pub read_file : Text → Result Text
  pub run_script : Text → M (Unit {0})

-- The digits that a text begins with, and what follows them.
unfoldable pub span_digits : Text → Text × Text
span_digits [] = ([], [])
span_digits (c ∷ cs) =
    let rest = span_digits cs in if is_digit c then (c ∷ rest.0, rest.1) else ([], c ∷ cs)

-- `^(\d+)_`, with its group. A `_` is no digit, so the longest run of digits is the group.
abbrev pub underscored : Text → Text → Option Text
underscored [] rest = none
underscored (d ∷ digits) [] = none
underscored (d ∷ digits) (c ∷ rest) = if c == b'_' then some (d ∷ digits) else none

unfoldable pub version_prefix : Text → Option Text
unfolding span_digits
version_prefix name = underscored (span_digits name).0 (span_digits name).1

-- The value of digits behind a number; `none` where a character is no digit.
unfoldable pub digits_value : ℕ → Text → Option ℕ
digits_value n [] = some n
digits_value n (c ∷ cs) =
    let rest = digits_value (n * 10 + (c - 48)) cs in if is_digit c then rest else none

abbrev pub in_range : ℕ → Option ℕ → Option ℕ
in_range bound none = none
in_range bound (some n) = if ltb n bound then some n else none

abbrev pub magnitude : ℕ → Text → Option ℕ
magnitude bound [] = none
magnitude bound (c ∷ cs) = in_range bound (digits_value 0 (c ∷ cs))

abbrev pub max_int : ℕ
max_int = 9223372036854775807

abbrev negated : Option ℕ → Option ℤ
negated none = none
negated (some zero) = some (pos 0)
negated (some (suc n)) = some (negsuc n)

abbrev pub positive : Option ℕ → Option ℤ
positive none = none
positive (some n) = some (pos n)

abbrev atoi_signed : ℕ → Text → Option ℤ
atoi_signed c cs =
    if c == b'-'
    then negated (magnitude (suc (suc max_int)) cs)
    else if c == b'+'
    then positive (magnitude (suc max_int) cs)
    else positive (magnitude (suc max_int) (c ∷ cs))

-- `strconv.Atoi`, for an `int` of 64 bits.
unfoldable pub atoi : Text → Option ℤ
unfolding digits_value
atoi [] = none
atoi (c ∷ cs) = atoi_signed c cs

-- `strconv.Itoa` of a number that is not negative: `fuel` is at least the number of its digits.
unfoldable pub itoa_loop : ℕ → ℕ → Text
itoa_loop zero n = []
itoa_loop (suc fuel) n =
    let front = itoa_loop fuel (n / 10) in
    if ltb n 10 then (48 + n) ∷ [] else front ++ (48 + n % 10) ∷ []

unfoldable pub itoa : ℕ → Text
unfolding itoa_loop
itoa n = itoa_loop (suc n) n

-- `sort.Strings`
unfoldable pub insert_name : Text → List Text → List Text
insert_name x [] = x ∷ []
insert_name x (y ∷ ys) =
    let later = insert_name x ys in if text_lt y x then y ∷ later else x ∷ y ∷ ys

unfoldable pub sort_names : List Text → List Text
unfolding insert_name
sort_names [] = []
sort_names (x ∷ xs) = insert_name x (sort_names xs)

unfoldable pub file_names : List (Text × Bool) → List Text
file_names [] = []
file_names ((name, is_dir) ∷ rest) =
    let later = file_names rest in if is_dir then later else name ∷ later

-- `version <= current`, where only the current version may be negative.
abbrev pub up_to_current : ℕ → ℤ → Bool
up_to_current version (pos n) = leb version n
up_to_current version (negsuc n) = false

abbrev pub schema_version : Text
schema_version = txt "schema_version"

abbrev pub parsed_version : Option Text → Option ℤ
parsed_version none = some (pos 0)
parsed_version (some v) = atoi v

abbrev pub or_fail : {A : Type 0} → Option A → Error → M A
or_fail none e = fail e
or_fail (some a) e = pure a

abbrev pub returning : {A : Type 0} → Result A → M A
returning r d = (r, d)

-- The version in a file's name.
abbrev pub parsed_prefix : Option ℕ → Result ℕ
parsed_prefix none =
    err (wrap (txt "migration: parse version prefix") (errorf (txt "strconv.Atoi")))
parsed_prefix (some version) = ok version

abbrev pub numbered : Option Text → Result ℕ
numbered none =
    err (errorf (txt "migration: filename must start with a numeric prefix (e.g. 0002_)"))
numbered (some digits) = parsed_prefix (magnitude (suc max_int) digits)

unfoldable pub version_of : Text → Result ℕ
unfolding version_prefix digits_value
version_of name = numbered (version_prefix name)

-- `PRAGMA foreign_keys = ON` changes the connection.
abbrev pub switch_on : Result (Unit {0}) × Db → Result (Unit {0}) × Db
switch_on (err e, d) = (err e, d)
switch_on (ok _, d) = (ok tt, record d { foreign_keys = true })

abbrev pub enable_foreign_keys : M (Unit {0})
enable_foreign_keys d = switch_on (exec (λ t. some (tt, t)) d)

module _ (files : Embedded) where
  abbrev pub run_file : Text → M (Unit {0})
  run_file name =
      wrapping (txt "read migration") (returning (files.read_file name))
      >>= (λ contents. wrapping (txt "apply migration") (files.run_script contents))

  abbrev pub apply : Text → ℕ → M (Unit {0})
  apply name version =
      run_file name
      >> wrapping (txt "record schema_version") (set_setting schema_version (itoa version))

  -- The loop over the sorted names.
  unfoldable pub migrate : List Text → ℤ → M (Unit {0})
  unfolding version_of set_setting itoa
  migrate [] current = pure tt
  migrate (name ∷ rest) current = returning (version_of name) >>= (λ version.
      let skipped = migrate rest current in
      let applied = apply name version >> migrate rest (pos version) in
      if up_to_current version current then skipped else applied)

  abbrev pub migrations : M (List (Text × Bool))
  migrations = wrapping (txt "read migrations dir") (returning files.read_dir)

  -- `CREATE TABLE IF NOT EXISTS settings`, which the model's tables hold from the start.
  abbrev pub bootstrap : M (Unit {0})
  bootstrap = wrapping (txt "bootstrap settings table") (exec (λ t. some (tt, t)))

  abbrev pub from_version : ℤ → M (Unit {0})
  from_version current =
      migrations >>= (λ entries. migrate (sort_names (file_names entries)) current)

  abbrev pub from_stored : Option Text → M (Unit {0})
  from_stored stored =
      or_fail (parsed_version stored)
        (wrap (txt "parse schema_version") (errorf (txt "strconv.Atoi")))
      >>= from_version

  abbrev pub reading : M (Option Text)
  reading = wrapping (txt "read schema_version") (get_setting schema_version)

  unfoldable pub run_migrations : M (Unit {0})
  unfolding exec get_setting atoi migrate sort_names file_names
  run_migrations = bootstrap >> (reading >>= from_stored)

  -- `Open`, on the connection that `sql.Open` makes. The journal mode is nothing that the model shows.
  unfoldable pub open_db : M (Unit {0})
  unfolding exec run_migrations
  open_db =
      wrapping (txt "db: enable foreign_keys") enable_foreign_keys
      >> (wrapping (txt "db: enable WAL") (exec (λ t. some (tt, t)))
          >> wrapping (txt "db: run migrations") run_migrations)
