-- ===== src/Api/Auth.antt =====
-- internal/api/auth.go and `requireSession` (internal/api/middleware.go)
use loxbak.Base.{Bool, ◌||◌, not, Option, none, some, ◌==◌, if◌then◌else◌, message, ok}
use loxbak.Base.Int.{ℤ, pos, negsuc}
use loxbak.Base.Text.{Text, txt, is_empty}
use loxbak.Api.{
  Response, Backend, Handler, respond, failed_with, me, empty, answer, check, given, call, look,
}
use loxbak.Crypto.{encrypt}
use loxbak.Db.{Session}
use loxbak.Db.Credentials.{get_credential, upsert_credential}
use loxbak.Db.Sessions.{delete_session}
use loxbak.Scheduler.World.{R, on_db, on_outside, returned}
use loxbak.Session.{create, validate, id_from_cookie}

pub record LoginRequest : Type 0 where
  pub host : Text
  pub port : ℤ
  pub username : Text
  pub password : Text

abbrev pub or_default_port : ℤ → ℤ
or_default_port (pos n) = if n == 0 then pos 21 else pos n
or_default_port (negsuc n) = negsuc n

abbrev pub is_full : LoginRequest → Bool
is_full req = not (is_empty req.host || is_empty req.username || is_empty req.password)

module _ {E : Type 0} (b : Backend E) where
  -- `Encrypt`, which asks for the bytes of a nonce.
  abbrev pub encrypted : Text → R E Text
  encrypted plaintext w =
      let (nonce, x) = b.random b.outside.cipher.nonce_size w.outside in
      (encrypt b.outside.cipher b.outside.master_key nonce plaintext, record w { outside = x })

  -- `session.Create`, which asks for the 32 bytes of an id.
  abbrev pub new_session : R E Text
  new_session w =
      let (id, x) = b.random 32 w.outside in
      on_db (create b.hmac b.session_key id) (record w { outside = x })

  abbrev pub logged_in : LoginRequest → Text → Response
  logged_in req token = record {
    status = 200;
    body = me req.host req.username;
    cookie = some token;
  }

  unfoldable pub handle_login : Option LoginRequest → Handler E
  handle_login body = given body (failed_with 400 (txt "invalid request body")) (λ req.
      check (is_full req) (failed_with 400 (txt "host, username, and password are required")) (
        call (on_outside (b.validate req.host (or_default_port req.port) req.username req.password))
          (λ e. failed_with 401 (message e))
          (λ _.
            call (encrypted req.password) (λ _. failed_with 500 (txt "failed to store credential"))
              (λ blob.
                call
                  (on_db (upsert_credential req.host (or_default_port req.port) req.username blob))
                  (λ _. failed_with 500 (txt "failed to store credential"))
                  (λ _.
                    call new_session (λ _. failed_with 500 (txt "failed to create session"))
                      (λ token. answer (logged_in req token)))))))

  abbrev pub forget_session : Option Text → R E (Unit {0})
  forget_session none = returned (ok tt)
  forget_session (some id) = on_db (delete_session id)

  abbrev pub cookie_id : Option Text → Option Text
  cookie_id none = none
  cookie_id (some value) = id_from_cookie value

  -- The error of the deletion is ignored.
  unfoldable pub handle_logout : Option Text → Handler E
  handle_logout cookie =
      look (forget_session (cookie_id cookie))
        (λ _. answer (record { status = 200; body = empty; cookie = some (txt "") }))

  unfoldable pub handle_me : Handler E
  handle_me =
      call (on_db get_credential) (λ _. failed_with 401 (txt "not authenticated"))
        (λ cred. answer (respond 200 (me cred.host cred.username)))

  -- The handler behind `requireSession` is given the session.
  unfoldable pub require_session : (Session → Handler E) → Option Text → Handler E
  require_session next cookie =
      call (on_db (validate b.hmac b.session_key cookie))
        (λ _. failed_with 401 (txt "not authenticated")) next
