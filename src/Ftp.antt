-- ===== src/Ftp.antt =====
-- The FTP client's control flow (internal/ftp/client.go): `Connect`, `withRetry` and the size-and-mtime
-- check; the mirroring is in Mirror. The network, the context and the clock are functions on a state `W`.
pub mod Retrying
pub mod Mirror
pub mod Fuel
pub mod Pruned
use loxbak.Base.{
  message, ◌++◌, ℕ, zero, suc, ◌+◌, ◌-◌, ◌*◌, ◌^◌, Bool, true, false, not, ◌&&◌, Option, none, some,
  List, [], ◌∷◌, leb, ltb, ◌==◌, if◌then◌else◌, Error, Result, ok, err, errorf, wrap,
}
use loxbak.Base.Text.{Text, txt}

abbrev pub max_retries : ℕ
max_retries = 5

-- 500 * time.Millisecond
abbrev pub retry_base_delay : ℕ
retry_base_delay = 500

-- `context.Canceled` or `context.DeadlineExceeded`
abbrev pub context_error : Error
context_error = errorf (txt "context done")

module _ {W A : Type 0} (wait : ℕ → W → Bool × W) (fn : W → Result A × W) where
  -- The loop of `withRetry` at the attempt `max_retries - left`, so that `left` is 0 exactly when
  -- `attempt >= maxRetries`. `wait delay` is whether the delay passes before the context is done.
  unfoldable pub retry_loop : ℕ → W → Result A × W
  retry_loop zero w = fn w
  retry_loop (suc left) w =
      let (r, w1) = fn w in
      elim r [
        | ok a ↦ (ok a, w1)
        | err e ↦
            let (passed, w2) = wait (retry_base_delay * 2 ^ (max_retries - suc left)) w1 in
            elim passed [ true ↦ retry_loop left w2 | false ↦ (err context_error, w2) ]
      ]

  unfoldable pub with_retry : W → Result A × W
  unfolding retry_loop
  with_retry w = retry_loop max_retries w

module _ {W Conn : Type 0} (dial : Bool → Text → W → Result Conn × W) where
  -- `fmt.Errorf("connect (tried explicit TLS: %v, then plain): %w", tlsErr, err)`
  abbrev pub tried_both : Error → Text
  tried_both tls_err =
      txt "connect (tried explicit TLS: " ++ (message tls_err ++ txt ", then plain)")

  abbrev pub plain_result : Error → Result Conn → Result Conn
  plain_result tls_err (ok c) = ok c
  plain_result tls_err (err e) = err (wrap (tried_both tls_err) e)

  abbrev pub fall_back : Text → Result Conn × W → Result Conn × W
  fall_back addr (ok conn, w) = (ok conn, w)
  fall_back addr (err tls_err, w) = let (r, w') = dial false addr w in (plain_result tls_err r, w')

  -- Explicit TLS first (`dial true`), then a plain connection.
  unfoldable pub connect : Text → W → Result Conn × W
  connect addr w = fall_back addr (dial true addr w)

-- 2 * time.Minute, in seconds
abbrev pub mtime_tolerance : ℕ
mtime_tolerance = 120

abbrev pub abs_diff : ℕ → ℕ → ℕ
abs_diff a b = if ltb a b then b - a else a - b

-- What `os.Stat` tells of a local path: nothing, a directory, or a file's size and mtime.
pub data LocalInfo : Type 0 where
  missing : LocalInfo
  directory : LocalInfo
  regular : (size mtime : ℕ) → LocalInfo

pub data EntryKind : Type 0 where
  file folder other : EntryKind

-- An entry of a directory listing; a zero `Time` is `none`, which is further than the tolerance from
-- any time.
pub record Entry : Type 0 where
  pub name : Text
  pub size : ℕ
  pub time : Option ℕ
  pub kind : EntryKind

abbrev close_to : ℕ → Option ℕ → Bool
close_to mtime none = false
close_to mtime (some t) = leb (abs_diff mtime t) mtime_tolerance

unfoldable pub file_up_to_date : LocalInfo → Entry → Bool
file_up_to_date missing entry = false
file_up_to_date directory entry = false
file_up_to_date (regular size mtime) entry =
    if not (size == entry.size) then false else close_to mtime entry.time
