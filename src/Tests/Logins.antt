-- ===== src/Tests/Logins.antt =====
-- A login at a Miniserver that accepts it.
use loxbak.Base.{[], ◌∷◌}
use loxbak.Base.Int.{pos}
use loxbak.Base.Text.{Text}
use loxbak.Api.Auth.{LoginRequest}

abbrev pub login_request : LoginRequest
login_request = record {
  host = b'h' ∷ [];
  port = pos 0;
  username = b'u' ∷ [];
  password = b'p' ∷ [];
}
