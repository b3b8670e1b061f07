-- ===== src/Db/Accounts.antt =====
-- The writes of the credential and of the sessions (internal/db/credentials.go, internal/db/sessions.go) keep
-- what says nothing of those two tables.
use loxbak.Base.{
  ℕ, some, List, [], ◌∷◌, ◌++◌, map, Bool-cases, inl, inr, any_of, keep_if, not, Result, ok, err,
  suc,
}
use loxbak.Base.Int.{ℤ}
use loxbak.Base.Results.{credential_not_found}
use loxbak.Base.Text.{Text}
use loxbak.Db.{Session, LoxoneCredential, Tables}
use loxbak.Db.Credentials.{
  get_credential, insert_credential, set_credential, upsert_after, upsert_credential,
}
use loxbak.Db.Reads.{get_credential-tables}
use loxbak.Db.Sessions.{has_session_id, insert_session, create_session, delete_session}
use loxbak.Db.Sql.{Keeps, exec-Keeps}
use mathlib.Core.Path.{subst, sym}

module _ (P : Tables → Type 0) where
  module _
      (blind : (cs : List LoxoneCredential) (n : ℕ) (t : Tables)
        → P t
        → P (record t { credentials = cs; next_credential = n })) where
    upsert_after-Keeps :
        (host : Text) (port : ℤ) (user blob : Text) (r : Result LoxoneCredential)
        → Keeps P (upsert_after host port user blob r)
    unfolding upsert_after
    upsert_after-Keeps host port user blob (err credential_not_found) d h =
        exec-Keeps P (insert_credential host port user blob (d.clock d.step))
          (λ t k. blind (t.credentials ++ _ ∷ []) (suc t.next_credential) t k) d h
    upsert_after-Keeps host port user blob (err e) d h = h
    upsert_after-Keeps host port user blob (ok c) d h =
        exec-Keeps P
          (λ t. some (
            tt,
            record t {
              credentials =
                  map (set_credential host port user blob (d.clock d.step) c.id) t.credentials;
            },
          ))
          (λ t k. blind (map _ t.credentials) t.next_credential t k) d h

    pub upsert_credential-Keeps :
        (host : Text) (port : ℤ) (user blob : Text)
        → Keeps P (upsert_credential host port user blob)
    unfolding upsert_credential
    upsert_credential-Keeps host port user blob d h =
        upsert_after-Keeps host port user blob (get_credential d).0 (get_credential d).1
          (subst P (sym (get_credential-tables d)) h)

  module _ (blind : (ss : List Session) (t : Tables) → P t → P (record t { sessions = ss })) where
    pub create_session-Keeps : (id : Text) (expires : ℕ) → Keeps P (create_session id expires)
    unfolding create_session
    create_session-Keeps id expires d h =
        exec-Keeps P (insert_session id (d.clock d.step) expires)
          (λ t k. elim (Bool-cases (any_of (has_session_id id) t.sessions)) [
            | inl known ↦ rw known tt
            | inr new ↦ rw new (blind (t.sessions ++ _ ∷ []) t k)
          ])
          d h

    pub delete_session-Keeps : (id : Text) → Keeps P (delete_session id)
    unfolding delete_session
    delete_session-Keeps id =
        exec-Keeps P
          (λ t.
            some (tt, record t { sessions = keep_if (λ s. not (has_session_id id s)) t.sessions }))
          (λ t. blind (keep_if (λ s. not (has_session_id id s)) t.sessions) t)
