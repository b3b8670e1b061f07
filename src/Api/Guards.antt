-- ===== src/Api/Guards.antt =====
-- What `requireSession` lets through.
use loxbak.Base.{◌≡◌, refl, Option, none, some, ◌++◌, ◌∷◌, ◌⊎◌, inl, inr, arith, Result, ok, err}
use loxbak.Base.Text.{Text, txt}
use loxbak.Api.{Response, Backend, Server, Handler, failed_with}
use loxbak.Api.Auth.{require_session}
use loxbak.Db.{Session, Db}
use loxbak.Db.Reads.{get_session-tables}
use loxbak.Session.{check_token, split_token, sign, validate}
use loxbak.Session.Validity.{IsLive, validate_sound}

module _ {E : Type 0} (b : Backend E) where
  check_token-tables :
      (t : Option (Text × Text)) (d : Db)
      → (check_token b.hmac b.session_key t d).1.tables ≡ d.tables
  check_token-tables none d = refl
  check_token-tables (some (id, sig)) d = ground (arith, get_session-tables id d)

  pub validate-tables :
      (cookie : Option Text) (d : Db) → (validate b.hmac b.session_key cookie d).1.tables ≡ d.tables
  unfolding validate
  validate-tables none d = refl
  validate-tables (some value) d = check_token-tables (split_token value) d

  -- The server behind the lookup of the session.
  abbrev pub looked_up : Option Text → Server E → Server E
  looked_up cookie s = record s {
    world = record s.world { db = (validate b.hmac b.session_key cookie s.world.db).1 };
  }

  abbrev Cases :
      (next : Session → Handler E) (cookie : Option Text) (s : Server E)
      → Response × Server E
      → Type 0
  Cases next cookie s r =
      ((row : Session) × (id : Text) × (cookie ≡ some (id ++ b'.' ∷ sign b.hmac b.session_key id))
        × IsLive id row s.world.db
        × (r ≡ next row (looked_up cookie s)))
      ⊎ (r ≡ (failed_with 401 (txt "not authenticated"), looked_up cookie s))

  -- A guarded handler runs only for a request whose cookie is the signed token of a live session,
  -- and is given that session. Every other request is answered with status 401 and changes no
  -- table, nothing outside, no cron entry and no run.
  pub require_session_guards :
      (next : Session → Handler E) (cookie : Option Text) (s : Server E)
      → (((row : Session) × (id : Text) × (cookie
              ≡ some (id ++ b'.' ∷ sign b.hmac b.session_key id))
            × IsLive id row s.world.db
            × (require_session b next cookie s ≡ next row (looked_up cookie s)))
          ⊎ (require_session b next cookie s
              ≡ (failed_with 401 (txt "not authenticated"), looked_up cookie s)))
        × ((looked_up cookie s).world.db.tables ≡ s.world.db.tables)
  unfolding require_session
  require_session_guards next cookie s = (
    split (validate b.hmac b.session_key cookie s.world.db).0 refl,
    validate-tables cookie s.world.db,
  )
    where
      split :
          (r : Result Session)
          → (validate b.hmac b.session_key cookie s.world.db).0 ≡ r
          → Cases next cookie s (require_session b next cookie s)
      split (err x) e = inr (rw e refl)
      split (ok row) e =
          let (id, signed, live) = validate_sound b.hmac b.session_key cookie s.world.db row e in
          inl (row, id, signed, live, rw e refl)
