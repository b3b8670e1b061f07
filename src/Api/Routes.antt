-- ===== src/Api/Routes.antt =====
-- Which requests the server answers without a session.
use loxbak.Base.{ℕ, ◌≡◌, Bool, true, false, Option, is_ok, arith}
use loxbak.Base.Text.{Text, txt}
use loxbak.Api.{Response, Backend, Server, Handler, failed_with}
use loxbak.Api.Auth.{require_session}
use loxbak.Api.Guards.{looked_up}
use loxbak.Api.Router.{Request, get_health, post_login, post_logout, any_other, router}
use loxbak.Archive.{Stamp}
use loxbak.Session.{validate}

-- Health, login, logout, and the files of the frontend.
abbrev pub is_public : Request → Bool
is_public get_health = true
is_public (post_login body) = true
is_public post_logout = true
is_public (any_other path) = true
is_public _ = false

module _ {E : Type 0} (seconds : Stamp → ℕ) (b : Backend E) (static : Text → Response)
    (cookie : Option Text) (s : Server E)
    (invalid : is_ok (validate b.hmac b.session_key cookie s.world.db).0 ≡ false) where
  refused :
      (handler : Handler E)
      → require_session b (λ _. handler) cookie s
        ≡ (failed_with 401 (txt "not authenticated"), looked_up b cookie s)
  unfolding require_session
  refused handler = ground arith

  -- Without a valid session every request but those for health, login, logout and the frontend is answered
  -- with status 401, whatever it asks for, and all that has happened is the lookup of the session.
  pub router_guards :
      (request : Request)
      → is_public request ≡ false
      → router seconds b static cookie request s
        ≡ (failed_with 401 (txt "not authenticated"), looked_up b cookie s)
  unfolding router
  router_guards get_health h = cc
  router_guards (post_login body) h = cc
  router_guards post_logout h = cc
  router_guards (any_other path) h = cc
  router_guards request h = refused _
