-- ===== src/Startup.antt =====
-- The start of the process (cmd/loxbak/main.go): what it needs before it serves, and how it ends.
pub mod Secret
use loxbak.Base.{
  Bool, true, false, Option, none, some, List, [], ◌∷◌, if◌then◌else◌, Error, Result, ok, err,
  wrap_err,
}
use loxbak.Base.Text.{Text, txt, is_empty}
use loxbak.Db.{Db, M}
use loxbak.Db.Migrations.{Embedded, returning, open_db}
use loxbak.Db.Settings.{get_setting, set_setting}
use loxbak.Db.Sql.{pure, ◌>>=◌, ◌>>◌}
use loxbak.Scheduler.Cron.{Cron, CronLoop, Entries, new_entries, start, stop, reload}
use loxbak.Scheduler.World.{World, on_db, on_outside}
use loxbak.Session.{generate_secret}

abbrev pub settings_session_secret_key : Text
settings_session_secret_key = txt "session_signing_secret"

abbrev pub existing_or : Result Text → Option Text → M Text
existing_or random (some existing) = pure existing
existing_or random none =
    returning (generate_secret random)
    >>= (λ secret. set_setting settings_session_secret_key secret >> pure secret)

-- `random` is what `rand.Read` yields.
unfoldable pub ensure_session_secret : Result Text → M Text
unfolding get_setting set_setting generate_secret
ensure_session_secret random = get_setting settings_session_secret_key >>= existing_or random

-- What `api.New` is given, besides the database and the scheduler.
pub record Started : Type 0 where
  pub master_key : Text
  pub session_key : Text
  pub addr : Text
  pub entries : Entries

-- How `ListenAndServe` ends: without an error or with `http.ErrServerClosed`, or with another error.
pub data Listened : Type 0 where
  closed : Listened
  failed : Error → Listened

-- What the goroutine sends to `errCh`.
abbrev pub sent : Option Listened → Option Error
sent none = none
sent (some closed) = none
sent (some (failed e)) = some e

-- The environment and the libraries, on the state `E` of the outside.
pub record Host (E : Type 0) : Type 0 where
  pub master_key : Text
  pub port : Text
  pub data_dir : Text
  pub mkdir_all : Text → E → Result (Unit {0}) × E
  -- `filepath.Join(dataDir, "loxbak.db")` and `sql.Open`
  pub open_sql : Text → E → Result (Unit {0}) × E
  pub files : Embedded
  pub random : Result Text
  pub cron : Cron E
  pub loop : CronLoop E
  -- serving until a signal comes, with how `ListenAndServe` of `net/http` has ended before, if it has; where that
  -- is an error that is sent, no signal is waited for
  pub serve : Started → World E → Option Listened × World E
  -- `Shutdown` of `net/http`
  pub http_shutdown : E → Result (Unit {0}) × E

-- `os.Exit(1)`, or what `run` returns.
pub data Ending : Type 0 where
  exited : Ending
  returned : Result (Unit {0}) → Ending

module _ {E : Type 0} (host : Host E) where
  abbrev pub or_exit :
      {A : Type 0} → Result A × World E → (A → World E → Ending × World E) → Ending × World E
  or_exit (err e, w) next = (exited, w)
  or_exit (ok a, w) next = next a w

  -- `Server.Shutdown` (internal/api/server.go)
  abbrev pub shutdown : E → Result (Unit {0}) × E
  shutdown x = let (r, x1) = host.http_shutdown x in (wrap_err (txt "api: shutdown") r, x1)

  abbrev pub after_serving : Option Error × World E → Ending × World E
  after_serving (some e, w) = (returned (err e), w)
  after_serving (none, w) =
      let (r, x) = shutdown (stop host.loop w.outside) in (returned r, record w { outside = x })

  abbrev pub or_default : Text → Text → Text
  or_default t default = if is_empty t then default else t

  abbrev pub listening : Text → Entries → World E → Ending × World E
  listening session_key entries w =
      let started : Started = record {
        master_key = host.master_key;
        session_key = session_key;
        addr = b':' ∷ or_default host.port (txt "8080");
        entries = entries;
      } in
      let (ended, w1) = host.serve started (record w { outside = start host.loop w.outside }) in
      after_serving (sent ended, w1)

  abbrev pub loaded : Text → (Result (Unit {0}) × Entries) × World E → Ending × World E
  loaded session_key ((err e, entries), w) = (exited, w)
  loaded session_key ((ok _, entries), w) = listening session_key entries w

  unfoldable pub run : World E → Ending × World E
  unfolding open_db ensure_session_secret reload
  run w =
      if is_empty host.master_key
      then (exited, w)
      else (let dir = or_default host.data_dir (txt "/data") in
          or_exit (on_outside (host.mkdir_all dir) w) (λ _ w1.
            or_exit (on_outside (host.open_sql dir) w1) (λ _ w2.
              or_exit (on_db (open_db host.files) w2) (λ _ w3.
                or_exit (on_db (ensure_session_secret host.random) w3)
                  (λ session_key w4. loaded session_key (reload host.cron new_entries w4))))))
