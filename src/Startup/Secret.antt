-- ===== src/Startup/Secret.antt =====
-- `ensureSessionSecret` (cmd/loxbak/main.go) over two starts of the process.
use loxbak.Base.{suc, ◌≡◌, refl, ap, sym, ◌∙◌, false, Option, none, some, Result, ok, ok-injective}
use loxbak.Base.Text.{Text}
use loxbak.Db.{Db, Tables}
use loxbak.Db.Migrations.{returning}
use loxbak.Db.Settings.{lookup_setting, get_setting, set_setting}
use loxbak.Db.Sql.{pure, bind-ok, query, ◌>>◌}
use loxbak.Db.Upgrades.{get_setting-ok, set_setting-lookup}
use loxbak.Session.{generate_secret}
use loxbak.Startup.{settings_session_secret_key, existing_or, ensure_session_secret}

abbrev Stored : Text → Db → Type 0
Stored secret d = lookup_setting settings_session_secret_key d.tables.settings ≡ some secret

set-Stored :
    (made secret : Text) (d : Db)
    → ((set_setting settings_session_secret_key made >> pure made) d).0 ≡ ok secret
    → Stored secret ((set_setting settings_session_secret_key made >> pure made) d).1
set-Stored made secret d e =
    let set = set_setting settings_session_secret_key made in
    let (u, written, same) = bind-ok set (λ _. pure made) d secret e in
    let made_it : made ≡ secret = ok-injective made secret (ap (λ r. r.0) (sym same) ∙ e) in
    rw same (set_setting-lookup settings_session_secret_key made d written ∙ ap some made_it)

existing_or-Stored :
    (random : Result Text) (stored : Option Text) (secret : Text) (d : Db)
    → lookup_setting settings_session_secret_key d.tables.settings ≡ stored
    → (existing_or random stored d).0 ≡ ok secret
    → Stored secret (existing_or random stored d).1
existing_or-Stored random (some existing) secret d h e =
    h ∙ ap some (ok-injective existing secret e)
existing_or-Stored random none secret d h e =
    let save = λ (made : Text). set_setting settings_session_secret_key made >> pure made in
    let (made, got, same) = bind-ok (returning (generate_secret random)) save d secret e in
    rw same (set-Stored made secret d (ap (λ r. r.0) (sym same) ∙ e))

ensure_session_secret-Stored :
    (random : Result Text) (secret : Text) (d : Db)
    → (ensure_session_secret random d).0 ≡ ok secret
    → Stored secret (ensure_session_secret random d).1
unfolding ensure_session_secret
ensure_session_secret-Stored random secret d e =
    let (stored, read, same) =
      bind-ok (get_setting settings_session_secret_key) (existing_or random) d secret e in
    let (there, kept) = get_setting-ok settings_session_secret_key d stored read in
    rw same (
      existing_or-Stored random stored secret (get_setting settings_session_secret_key d).1
        (ap (λ (t : Tables). lookup_setting settings_session_secret_key t.settings) kept ∙ there)
        (ap (λ r. r.0) (sym same) ∙ e))

-- A secret that one start has established is the secret of every later start on the same settings whose query
-- goes through, whatever random bytes it would get, and that start writes nothing. So the sessions of before
-- stay signed with the right key.
pub ensure_session_secret_again :
    (random random2 : Result Text) (secret : Text) (d d2 : Db)
    → (ensure_session_secret random d).0 ≡ ok secret
    → d2.tables.settings ≡ (ensure_session_secret random d).1.tables.settings
    → d2.fails d2.step ≡ false
    → ensure_session_secret random2 d2 ≡ (ok secret, record d2 { step = suc d2.step })
unfolding ensure_session_secret get_setting query
ensure_session_secret_again random random2 secret d d2 e same works =
    let there : Stored secret d2 =
      ap (lookup_setting settings_session_secret_key) same
      ∙ ensure_session_secret-Stored random secret d e in
    rw (works, there) refl
