-- ===== src/Db/Upgrades.antt =====
-- `RunMigrations` (internal/db/migrations.go) over two runs, and the setting that holds the version.
use loxbak.Base.{
  ℕ, suc, ◌<◌, ◌≡◌, refl, ap, sym, ◌∙◌, Bool, true, false, Option, none, some, List, [], ◌∷◌, All,
  Bool-cases, inl, inr, arith, Error, Result, ok, ok-injective, err-ne-ok, wrap, errorf,
}
use loxbak.Base.Int.{ℤ, pos, negsuc}
use loxbak.Base.Text.{Text, txt}
use loxbak.Db.{Tables, Db}
use loxbak.Db.Migrations.{
  Embedded, max_int, itoa, up_to_current, schema_version, parsed_version, or_fail, returning,
  migrations, bootstrap, version_of, apply, run_file, migrate, from_version, from_stored, reading,
  run_migrations, sort_names, file_names,
}
use loxbak.Db.Versions.{atoi-itoa, lookup-upsert, version_of_lt}
use loxbak.Db.Settings.{lookup_setting, get_setting, set_setting}
use loxbak.Db.Sql.{exec, query, wrapping, bind-ok, wrapping-ok, ◌>>=◌, ◌>>◌}

pub set_setting-lookup :
    (key value : Text) (d : Db)
    → (set_setting key value d).0 ≡ ok tt
    → lookup_setting key (set_setting key value d).1.tables.settings ≡ some value
unfolding set_setting exec
set_setting-lookup key value d e = elim (Bool-cases (d.fails d.step)) [
  | inl x ↦ absurd (err-ne-ok (rw x at e))
  | inr x ↦ rw x (lookup-upsert key value d.tables.settings)
]

pub get_setting-ok :
    (key : Text) (d : Db) (v : Option Text)
    → (get_setting key d).0 ≡ ok v
    → (lookup_setting key d.tables.settings ≡ v) × ((get_setting key d).1.tables ≡ d.tables)
unfolding get_setting query
get_setting-ok key d v e = elim (Bool-cases (d.fails d.step)) [
  | inl x ↦ absurd (err-ne-ok (rw x at e))
  | inr x ↦ rw x (ok-injective _ v (rw x at e), refl)
]

or_fail-ok :
    {A : Type 0} (o : Option A) (x : Error) (d : Db) (a : A)
    → (or_fail o x d).0 ≡ ok a
    → (o ≡ some a) × ((or_fail o x d).1 ≡ d)
or_fail-ok none x d a e = absurd (err-ne-ok e)
or_fail-ok (some b) x d a e = (ap some (ok-injective b a e), refl)

-- The settings hold a version.
abbrev pub Recorded : ℤ → Db → Type 0
Recorded current d = parsed_version (lookup_setting schema_version d.tables.settings) ≡ some current

-- A file's version is not above a version.
abbrev pub Done : ℤ → Text → Type 0
Done final name = (v : ℕ) × (version_of name ≡ ok v) × (up_to_current v final ≡ true)

abbrev Reaches : ℤ → ℤ → Type 0
Reaches current final = (v : ℕ) → up_to_current v current ≡ true → up_to_current v final ≡ true

above :
    (current : ℤ) (n v : ℕ)
    → up_to_current n current ≡ false
    → up_to_current v current ≡ true
    → up_to_current v (pos n) ≡ true
above (pos m) n v h k = ground arith
above (negsuc m) n v h k = cc

module _ (files : Embedded) where
  apply-Recorded :
      (name : Text) (version : ℕ) (d : Db)
      → version < suc max_int
      → (apply files name version d).0 ≡ ok tt
      → Recorded (pos version) (apply files name version d).1
  apply-Recorded name version d h e =
      let set = set_setting schema_version (itoa version) in
      let (u, ran, same) =
        bind-ok (run_file files name) (λ _. wrapping (txt "record schema_version") set) d tt e in
      let written =
        wrapping-ok (txt "record schema_version") set _ tt (ap (λ r. r.0) (sym same) ∙ e) in
      ap
        (λ (r : Result (Unit {0}) × Db).
          parsed_version (lookup_setting schema_version r.1.tables.settings))
        same
      ∙ ap parsed_version (set_setting-lookup schema_version (itoa version) _ written)
      ∙ atoi-itoa version h

  -- A loop that succeeds records a version that no file is above.
  abbrev Migrated : List Text → ℤ → Db → Type 0
  Migrated names current d =
      (final : ℤ) × (Recorded final d) × (Reaches current final) × All (Done final) names

  migrate-Migrated :
      (names : List Text) (current : ℤ) (d : Db)
      → Recorded current d
      → (migrate files names current d).0 ≡ ok tt
      → Migrated names current (migrate files names current d).1
  unfolding migrate
  migrate-Migrated [] current d h e = (current, h, (λ v k. k), tt)
  migrate-Migrated (name ∷ rest) current d h e =
      let (version, got, same) = bind-ok (returning (version_of name)) _ d tt e in
      elim (Bool-cases (up_to_current version current)) [
        | inl old ↦
            let skip : migrate files (name ∷ rest) current d ≡ migrate files rest current d =
              same ∙ rw old refl in
            let (final, recorded, up, done) =
              migrate-Migrated rest current d h (ap (λ r. r.0) (sym skip) ∙ e) in
            rw skip (final, recorded, up, ((version, got, up version old), done))
        | inr new ↦
            let run : migrate files (name ∷ rest) current d
                ≡ (apply files name version >> migrate files rest (pos version)) d =
              same ∙ rw new refl in
            let (u, applied, next) =
              bind-ok (apply files name version) (λ _. migrate files rest (pos version)) d tt
                (ap (λ r. r.0) (sym run) ∙ e) in
            let kept = apply-Recorded name version d (version_of_lt name version got) applied in
            let (final, recorded, up, done) =
              migrate-Migrated rest (pos version) (apply files name version d).1 kept
                (ap (λ r. r.0) (sym (run ∙ next)) ∙ e) in
            let own : up_to_current version (pos version) ≡ true = ground arith in
            rw (run, next)
              (
                final,
                recorded,
                (λ v k. up v (above current version v new k)),
                ((version, got, up version own), done),
              )
      ]

  migrate-skips :
      (names : List Text) (current : ℤ) (d : Db)
      → All (Done current) names
      → migrate files names current d ≡ (ok tt, d)
  unfolding migrate
  migrate-skips [] current d h = refl
  migrate-skips (name ∷ rest) current d ((v, got, old), h) =
      rw (got, old, migrate) (migrate-skips rest current d h)

  -- What a run that succeeds leaves behind.
  abbrev Finished : Db → Type 0
  Finished d =
      (entries : List (Text × Bool)) × (final : ℤ) × (files.read_dir ≡ ok entries)
      × Recorded final d
      × All (Done final) (sort_names (file_names entries))

  from_version-Finished :
      (current : ℤ) (d : Db)
      → Recorded current d
      → (from_version files current d).0 ≡ ok tt
      → Finished (from_version files current d).1
  from_version-Finished current d h e =
      let go =
        λ (entries : List (Text × Bool)). migrate files (sort_names (file_names entries)) current in
      let (entries, got, same) = bind-ok (migrations files) go d tt e in
      let read = wrapping-ok (txt "read migrations dir") (returning files.read_dir) d entries got in
      let (final, recorded, up, done) =
        migrate-Migrated (sort_names (file_names entries)) current d h
          (ap (λ r. r.0) (sym same) ∙ e) in
      rw same (entries, final, read, recorded, done)

  from_stored-Finished :
      (stored : Option Text) (d : Db)
      → lookup_setting schema_version d.tables.settings ≡ stored
      → (from_stored files stored d).0 ≡ ok tt
      → Finished (from_stored files stored d).1
  from_stored-Finished stored d h e =
      let x = wrap (txt "parse schema_version") (errorf (txt "strconv.Atoi")) in
      let (current, got, same) =
        bind-ok (or_fail (parsed_version stored) x) (from_version files) d tt e in
      let (parsed, kept) = or_fail-ok (parsed_version stored) x d current got in
      let onward : from_stored files stored d ≡ from_version files current d =
        same ∙ ap (from_version files current) kept in
      rw onward (
        from_version-Finished current d (ap parsed_version h ∙ parsed)
          (ap (λ r. r.0) (sym onward) ∙ e))

  run_migrations-Finished :
      (d : Db) → (run_migrations files d).0 ≡ ok tt → Finished (run_migrations files d).1
  unfolding run_migrations
  run_migrations-Finished d e =
      let (u, began, same) =
        bind-ok (bootstrap files) (λ _. reading files >>= from_stored files) d tt e in
      let d1 = (bootstrap files d).1 in
      let (stored, read, next) =
        bind-ok (reading files) (from_stored files) d1 tt (ap (λ r. r.0) (sym same) ∙ e) in
      let (there, kept) =
        get_setting-ok schema_version d1 stored
          (wrapping-ok (txt "read schema_version") (get_setting schema_version) d1 stored read) in
      rw (same, next)
        (from_stored-Finished stored (reading files d1).1
          (ap (λ (t : Tables). lookup_setting schema_version t.settings) kept ∙ there)
          (ap (λ r. r.0) (sym (same ∙ next)) ∙ e))

  -- Once the migrations have run without an error, running them again on these tables, where its two statements
  -- go through, succeeds and runs nothing else: no script, and no write of the version.
  pub run_migrations_again :
      (d d2 : Db)
      → (run_migrations files d).0 ≡ ok tt
      → d2.tables ≡ (run_migrations files d).1.tables
      → d2.fails d2.step ≡ false
      → d2.fails (suc d2.step) ≡ false
      → run_migrations files d2 ≡ (ok tt, record d2 { step = suc (suc d2.step) })
  unfolding run_migrations exec get_setting query
  run_migrations_again d d2 e same works works2 =
      let (entries, final, read, recorded, done) = run_migrations-Finished d e in
      let there : Recorded final d2 =
        ap (λ (t : Tables). parsed_version (lookup_setting schema_version t.settings)) same
        ∙ recorded in
      rw (works, works2, there, read)
        (migrate-skips (sort_names (file_names entries)) final
          (record d2 { step = suc (suc d2.step) }) done)
