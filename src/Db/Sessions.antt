-- ===== src/Db/Sessions.antt =====
-- internal/db/sessions.go
use loxbak.Base.{
  ℕ, Bool, Option, none, some, [], ◌∷◌, ◌++◌, not, ltb, if◌then◌else◌, keep_if, find_first, any_of,
}
use loxbak.Base.Results.{session_not_found}
use loxbak.Base.Text.{Text, txt, text_eq}
use loxbak.Db.{Session, Tables, M}
use loxbak.Db.Sql.{query, exec, wrapping, pure, fail, time_now, ◌>>=◌}

abbrev pub has_session_id : Text → Session → Bool
has_session_id id s = text_eq s.id id

-- `sessions.id` is the primary key.
abbrev pub insert_session : Text → ℕ → ℕ → Tables → Option (Unit {0} × Tables)
insert_session id created expires t =
    if any_of (has_session_id id) t.sessions
    then none
    else some (
      tt,
      record t {
        sessions =
            t.sessions ++ record { id = id; created_at = created; expires_at = expires } ∷ [];
      },
    )

unfoldable pub create_session : Text → ℕ → M (Unit {0})
unfolding exec
create_session id expires_at = do
  now ← time_now
  wrapping (txt "db: create session") (exec (insert_session id now expires_at))

-- `time.Now().After(s.ExpiresAt)`
abbrev check_expiry : Option Session → M Session
check_expiry none = fail session_not_found
check_expiry (some s) = do
  now ← time_now
  if ltb s.expires_at now then fail session_not_found else pure s

unfoldable pub get_session : Text → M Session
unfolding query
get_session id = do
  found ← wrapping (txt "db: get session") (query (λ t. find_first (has_session_id id) t.sessions))
  check_expiry found

unfoldable pub delete_session : Text → M (Unit {0})
unfolding exec
delete_session id = wrapping (txt "db: delete session") (
    exec
      (λ t. some (tt, record t { sessions = keep_if (λ s. not (has_session_id id s)) t.sessions })))

unfoldable pub delete_expired_sessions : M (Unit {0})
unfolding exec
delete_expired_sessions = do
  now ← time_now
  wrapping (txt "db: delete expired sessions") (
      exec (λ t.
        some (tt, record t { sessions = keep_if (λ s. not (ltb s.expires_at now)) t.sessions })))
