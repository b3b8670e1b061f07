-- ===== src/Api/Headers.antt =====
-- What stands around the routes: `withCORS` (internal/api/middleware.go), and the handler of the server that
-- `New` makes (internal/api/server.go), with `withLogging` around both.
use loxbak.Base.{ℕ, Bool, ◌||◌, Option, none, some, [], ◌∷◌, if◌then◌else◌}
use loxbak.Base.Text.{Text, txt, text_eq}
use loxbak.Api.{Response, Backend, Server, Handler, respond, empty}
use loxbak.Api.Router.{Request, router}
use loxbak.Archive.{Stamp}
use loxbak.Session.{Cookie, set_cookie, clear_cookie}

-- A response with the headers that the server sets: the origin that may read it, and the session cookie.
pub record Answer : Type 0 where
  pub response : Response
  pub allow_origin : Option Text
  pub cookie : Option Cookie

-- A handler says with an empty value that the cookie is cleared.
abbrev pub cookie_of : Option Text → Option Cookie
cookie_of none = none
cookie_of (some []) = some clear_cookie
cookie_of (some (c ∷ cs)) = some (set_cookie (c ∷ cs))

abbrev pub is_local : Text → Bool
is_local host = text_eq host (txt "localhost") || text_eq host (txt "127.0.0.1")

-- `host` is the host of the request's `Origin`, if that is a URL.
abbrev pub allowed_origin : Text → Option Text → Option Text
allowed_origin origin none = none
allowed_origin origin (some host) = if is_local host then some origin else none

-- `statusWriter`: the status that was written, 200 where none was.
pub record StatusWriter : Type 0 where
  pub status : ℕ

abbrev pub status_writer : StatusWriter
status_writer = record { status = 200 }

abbrev pub write_header : ℕ → StatusWriter → StatusWriter
write_header status w = record w { status = status }

pub record LogLine : Type 0 where
  pub method : Text
  pub path : Text
  pub status : ℕ

module _ {E : Type 0} where
  abbrev answered : Option Text → Response × Server E → Answer × Server E
  answered allow_origin (resp, s) =
      (record { response = resp; allow_origin = allow_origin; cookie = cookie_of resp.cookie }, s)

  -- A request with the method OPTIONS is answered here. `url_host` is `url.Parse` and `Hostname`.
  unfoldable pub with_cors :
      (Text → Option Text) → Text → Bool → Handler E → Server E → Answer × Server E
  with_cors url_host origin is_options next s =
      let allow_origin = allowed_origin origin (url_host origin) in
      if is_options
      then answered allow_origin (respond 204 empty, s)
      else answered allow_origin (next s)

  -- A line of `withLogging`, but for the duration. `request_line` is the method and the path.
  unfoldable pub with_logging :
      Text × Text → (Server E → Answer × Server E) → Server E → LogLine × Answer × Server E
  with_logging (method, path) next s =
      let (answer, s1) = next s in
      let writer = write_header answer.response.status status_writer in
      (record { method = method; path = path; status = writer.status }, answer, s1)

  unfoldable pub served :
      Text × Text
      → (Text → Option Text)
      → (Stamp → ℕ)
      → Backend E
      → (Text → Response)
      → Text
      → Bool
      → Option Text
      → Request
      → Server E
      → LogLine × Answer × Server E
  unfolding with_logging with_cors router
  served request_line url_host seconds b static origin is_options cookie request =
      with_logging request_line
        (with_cors url_host origin is_options (router seconds b static cookie request))
