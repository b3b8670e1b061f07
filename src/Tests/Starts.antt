-- ===== src/Tests/Starts.antt =====
-- Starts on an empty database and on the one that a start has left behind.
use loxbak.Base.{true, suc, ◌≡◌, refl, true, false, [], ◌∷◌, ok}
use loxbak.Base.Text.{text_eq, text_lt}
use loxbak.Db.{Db}
use loxbak.Db.Migrations.{
  Embedded, run_migrations, migrate, version_of, version_prefix, span_digits, digits_value, atoi,
  itoa, itoa_loop, insert_name, sort_names, file_names,
}
use loxbak.Db.Settings.{get_setting, set_setting, lookup_setting, upsert_setting}
use loxbak.Db.Sql.{next_step}
use loxbak.Db.Upgrades.{run_migrations_again}
use loxbak.Session.{generate_secret, hex_encode}
use loxbak.Startup.{ensure_session_secret}
use loxbak.Startup.Secret.{ensure_session_secret_again}
use loxbak.Tests.Tables.{working}

-- "0002_b" before "0001_a", and a directory.
abbrev scripts : Embedded
scripts = record {
  read_dir = ok (
      (b'0' ∷ b'0' ∷ b'0' ∷ b'2' ∷ b'_' ∷ b'b' ∷ [], false)
      ∷ (b'o' ∷ [], true)
      ∷ (b'0' ∷ b'0' ∷ b'0' ∷ b'1' ∷ b'_' ∷ b'a' ∷ [], false)
      ∷ []);
  read_file = λ name. ok name;
  run_script = λ text d. (ok tt, next_step d);
}

migrated : (run_migrations scripts working).0 ≡ ok tt
unfolding run_migrations migrate version_of version_prefix span_digits digits_value atoi itoa
    itoa_loop insert_name sort_names file_names get_setting set_setting lookup_setting
    upsert_setting text_eq text_lt
migrated = refl

run_migrations_again_example : run_migrations scripts (run_migrations scripts working).1 ≡ (
  ok tt,
  record ((run_migrations scripts working).1) {
    step = suc (suc (run_migrations scripts working).1.step);
  },
)
unfolding run_migrations migrate version_of version_prefix span_digits digits_value atoi itoa
    itoa_loop insert_name sort_names file_names get_setting set_setting lookup_setting
    upsert_setting text_eq text_lt
run_migrations_again_example =
    run_migrations_again scripts working (run_migrations scripts working).1 migrated refl refl refl

-- A connection as `sql.Open` makes it.
abbrev unopened : Db
unopened = record working { foreign_keys = false }

established : (ensure_session_secret (ok (171 ∷ [])) working).0 ≡ ok (b'a' ∷ b'b' ∷ [])
unfolding ensure_session_secret get_setting set_setting generate_secret hex_encode lookup_setting
established = refl

restarted : Db
restarted = (ensure_session_secret (ok (171 ∷ [])) working).1

ensure_session_secret_again_example :
    ensure_session_secret (ok (7 ∷ [])) restarted
    ≡ (ok (b'a' ∷ b'b' ∷ []), record restarted { step = suc restarted.step })
unfolding restarted ensure_session_secret get_setting set_setting generate_secret hex_encode
    lookup_setting
ensure_session_secret_again_example =
    ensure_session_secret_again (ok (171 ∷ [])) (ok (7 ∷ [])) (b'a' ∷ b'b' ∷ []) working restarted
      established refl refl
