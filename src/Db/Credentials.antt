-- ===== src/Db/Credentials.antt =====
-- internal/db/credentials.go
use loxbak.Base.{
  ℕ, suc, Option, none, some, List, [], ◌∷◌, ◌++◌, map, ◌==◌, if◌then◌else◌, Result, ok, err,
}
use loxbak.Base.Int.{ℤ}
use loxbak.Base.Results.{credential_not_found}
use loxbak.Base.Text.{Text, txt}
use loxbak.Db.{LoxoneCredential, Tables, M}
use loxbak.Db.Sql.{query, exec, wrapping, pure, fail, time_now, attempt, ◌>>=◌}

-- `ORDER BY id LIMIT 1`: the rows stand in the order of their ids.
abbrev pub first_row {ℓ} : {A : Type ℓ} → List A → Option A
first_row [] = none
first_row (x ∷ _) = some x

abbrev found_credential : Option LoxoneCredential → M LoxoneCredential
found_credential none = fail credential_not_found
found_credential (some c) = pure c

unfoldable pub get_credential : M LoxoneCredential
unfolding query
get_credential = do
  row ← wrapping (txt "db: get credential") (query (λ t. first_row t.credentials))
  found_credential row

abbrev pub insert_credential : Text → ℤ → Text → Text → ℕ → Tables → Option (Unit {0} × Tables)
insert_credential host port username encrypted now t = some (
  tt,
  record t {
    credentials =
        t.credentials
        ++ record {
          id = t.next_credential;
          host = host;
          port = port;
          username = username;
          encrypted_password = encrypted;
          updated_at = now;
        }
          ∷ [];
    next_credential = suc t.next_credential;
  },
)

abbrev pub set_credential : Text → ℤ → Text → Text → ℕ → ℕ → LoxoneCredential → LoxoneCredential
set_credential host port username encrypted now id c =
    if c.id == id
    then record c {
      host = host;
      port = port;
      username = username;
      encrypted_password = encrypted;
      updated_at = now;
    }
    else c

-- `existing == nil` exactly when the error is `ErrCredentialNotFound`.
unfoldable pub upsert_after : Text → ℤ → Text → Text → Result LoxoneCredential → M (Unit {0})
upsert_after host port username encrypted (err credential_not_found) = do
  now ← time_now
  wrapping (txt "db: insert credential") (exec (insert_credential host port username encrypted now))
upsert_after host port username encrypted (err e) = fail e
upsert_after host port username encrypted (ok existing) = do
  now ← time_now
  wrapping (txt "db: update credential") (
      exec (λ t. some (
        tt,
        record t {
          credentials =
              map (set_credential host port username encrypted now existing.id) t.credentials;
        },
      )))

unfoldable pub upsert_credential : Text → ℤ → Text → Text → M (Unit {0})
unfolding get_credential upsert_after exec
upsert_credential host port username encrypted =
    attempt get_credential (upsert_after host port username encrypted)
