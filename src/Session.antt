-- ===== src/Session.antt =====
-- Signed session cookies (internal/session/session.go). HMAC-SHA256 is the parameter `hmac`; the
-- bytes of `rand.Read` are an argument.
pub mod Tokens
pub mod Validity
use loxbak.Base.{
  ℕ, zero, suc, ◌+◌, ◌-◌, ◌*◌, ◌/◌, ◌%◌, Bool, true, false, ◌||◌, not, Option, none, some, List, [],
  ◌∷◌, ◌++◌, ltb, ◌==◌, if◌then◌else◌, length, take, drop, Result, ok, err, wrap_err,
}
use loxbak.Base.Int.{ℤ, pos, negsuc}
use loxbak.Base.Results.{session_invalid}
use loxbak.Base.Text.{Text, txt, text_eq, is_empty}
use loxbak.Db.{Session, Db, M}
use loxbak.Db.Sql.{pure, fail, wrapping, time_now, attempt, ◌>>=◌, ◌>>◌}
use loxbak.Db.Sessions.{create_session, get_session}

-- 30 * 24 * time.Hour, in seconds
abbrev pub ttl : ℕ
ttl = 2592000

-- The session cookie of a response, `Path` and `SameSite` as they always are; a negative `MaxAge` clears it.
pub record Cookie : Type 0 where
  pub name : Text
  pub value : Text
  pub http_only : Bool
  pub max_age : ℤ

abbrev pub cookie_name : Text
cookie_name = txt "loxbak_session"

abbrev pub set_cookie : Text → Cookie
set_cookie value = record { name = cookie_name; value = value; http_only = true; max_age = pos ttl }

abbrev pub clear_cookie : Cookie
clear_cookie = record { name = cookie_name; value = []; http_only = true; max_age = negsuc 0 }

-- `encoding/hex`
abbrev pub hex_digit : ℕ → ℕ
hex_digit n = if ltb n 10 then 48 + n else 87 + n

unfoldable pub hex_encode : Text → Text
hex_encode [] = []
hex_encode (b ∷ bs) = hex_digit (b / 16 % 16) ∷ hex_digit (b % 16) ∷ hex_encode bs

-- The alphabet of `base64.RawURLEncoding`.
abbrev pub url_digit : ℕ → ℕ
url_digit n =
    if ltb n 26
    then 65 + n
    else if ltb n 52
    then 71 + n
    else if ltb n 62
    then n - 4
    else if n == 62
    then b'-'
    else b'_'

unfoldable pub url_encode : Text → Text
url_encode [] = []
url_encode (a ∷ []) = url_digit (a / 4 % 64) ∷ url_digit (a % 4 * 16) ∷ []
url_encode (a ∷ b ∷ []) =
    url_digit (a / 4 % 64) ∷ url_digit (a % 4 * 16 + b / 16 % 16) ∷ url_digit (b % 16 * 4) ∷ []
url_encode (a ∷ b ∷ c ∷ rest) =
    url_digit (a / 4 % 64)
    ∷ url_digit (a % 4 * 16 + b / 16 % 16)
    ∷ url_digit (b % 16 * 4 + c / 64 % 4)
    ∷ url_digit (c % 64)
    ∷ url_encode rest

-- `random` is what `rand.Read` put into the 32 bytes, or its error.
unfoldable pub generate_secret : Result Text → Result Text
unfolding hex_encode
generate_secret (ok buf) = ok (hex_encode buf)
generate_secret (err e) = wrap_err (txt "session: generate secret") (err e)

unfoldable pub new_id : Result Text → Result Text
unfolding url_encode
new_id (ok buf) = ok (url_encode buf)
new_id (err e) = wrap_err (txt "session: generate id") (err e)

-- `value[i]`, for an index in range
abbrev pub byte_at : Text → ℕ → ℕ
byte_at [] i = 0
byte_at (c ∷ cs) zero = c
byte_at (c ∷ cs) (suc i) = byte_at cs i

-- The loop from the last byte to the first: the next index to look at is `i - 1`.
unfoldable pub split_loop : ℕ → Text → Option (Text × Text)
split_loop zero value = none
split_loop (suc i) value =
    let earlier = split_loop i value in
    if byte_at value i == b'.' then some (take i value, drop (suc i) value) else earlier

unfoldable pub split_token : Text → Option (Text × Text)
unfolding split_loop
split_token value = split_loop (length value) value

abbrev pub token_id : Option (Text × Text) → Option Text
token_id none = none
token_id (some (id, signature)) = some id

unfoldable pub id_from_cookie : Text → Option Text
unfolding split_token
id_from_cookie value = token_id (split_token value)

module _ (hmac : Text → Text → Text) where
  unfoldable pub sign : Text → Text → Text
  unfolding hex_encode
  sign secret id = hex_encode (hmac secret id)

  abbrev pub from_id : Text → Result Text → M Text
  from_id secret (err e) = fail e
  from_id secret (ok id) = do
    now ← time_now
    wrapping (txt "session: create") (create_session id (now + ttl))
    pure (id ++ b'.' ∷ sign secret id)

  unfoldable pub create : Text → Result Text → M Text
  unfolding new_id sign create_session
  create secret random = from_id secret (new_id random)

  -- Every error of the lookup is `ErrInvalid`.
  abbrev pub lookup_result : Result Session → M Session
  lookup_result (err e) = fail session_invalid
  lookup_result (ok s) = pure s

  abbrev pub check_token : Text → Option (Text × Text) → M Session
  check_token secret none = fail session_invalid
  check_token secret (some (id, signature)) =
      if is_empty id || is_empty signature
      then fail session_invalid
      else if not (text_eq signature (sign secret id))
      then fail session_invalid
      else attempt (get_session id) lookup_result

  -- `cookie` is the value of the request's session cookie, if it has one.
  unfoldable pub validate : Text → Option Text → M Session
  unfolding split_token sign get_session
  validate secret none = fail session_invalid
  validate secret (some value) = check_token secret (split_token value)
