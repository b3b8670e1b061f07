-- ===== src/Destinations/Connections.antt =====
-- The connections that an FTP destination opens.
use loxbak.Base.{ℕ, suc, ◌-◌, ◌≡◌, refl, ap, ◌∙◌, Bool, true, false, Error, Result, ok, err, arith}
use loxbak.Base.Text.{Text, txt}
use loxbak.Destinations.{BackupMeta}
use loxbak.Destinations.Locations.{Location, clean, join}
use loxbak.Destinations.Remote.{
  FtpLibrary, FtpServer, after_login, after_dial, ftp_connect, on_connection, with_connection,
  wrapped, map_ok, ftp_store, ftp_list, ftp_delete,
}
use loxbak.Ftp
use loxbak.Ftp.{Entry, plain_result, fall_back}

-- The documented behaviour of the library: `open_count` is the number of open connections. Dialling opens one
-- where it succeeds, `Quit` closes one, and no other call opens or closes any.
pub record Counted {S Conn : Type 0} (lib : FtpLibrary S Conn) : Type 0 where
  pub open_count : S → ℕ
  pub dial_ok :
      (tls : Bool) (addr : Text) (s : S) (conn : Conn)
      → (lib.dial tls addr s).0 ≡ ok conn
      → open_count (lib.dial tls addr s).1 ≡ suc (open_count s)
  pub dial_err :
      (tls : Bool) (addr : Text) (s : S) (e : Error)
      → (lib.dial tls addr s).0 ≡ err e
      → open_count (lib.dial tls addr s).1 ≡ open_count s
  pub login_lem :
      (conn : Conn) (username password : Text) (s : S)
      → open_count (lib.login conn username password s).1 ≡ open_count s
  pub make_dir_lem :
      (conn : Conn) (dir : Text) (s : S) → open_count (lib.make_dir conn dir s).1 ≡ open_count s
  pub stor_lem :
      (conn : Conn) (path : Location) (content : Text) (s : S)
      → open_count (lib.stor conn path content s).1 ≡ open_count s
  pub list_lem :
      (conn : Conn) (dir : Text) (s : S) → open_count (lib.list conn dir s).1 ≡ open_count s
  pub delete_lem :
      (conn : Conn) (path : Location) (s : S) → open_count (lib.delete conn path s).1 ≡ open_count s
  pub quit_lem : (conn : Conn) (s : S) → open_count (lib.quit conn s) ≡ open_count s - 1

module _ {S Conn : Type 0} (lib : FtpLibrary S Conn) (law : Counted lib) (f : FtpServer) where
  open law use {
    open_count, dial_ok, dial_err, login_lem, make_dir_lem, stor_lem, list_lem, delete_lem,
    quit_lem,
  }

  -- One connection more where a call succeeds, and none where it fails.
  abbrev Opens : S → Result Conn × S → Type 0
  Opens s (ok conn, s1) = open_count s1 ≡ suc (open_count s)
  Opens s (err e, s1) = open_count s1 ≡ open_count s

  dial-Opens : (tls : Bool) (addr : Text) (s : S) → Opens s (lib.dial tls addr s)
  dial-Opens tls addr s = by_result (lib.dial tls addr s).0 refl
    where
      by_result : (r : Result Conn) → (lib.dial tls addr s).0 ≡ r → Opens s (lib.dial tls addr s)
      by_result (ok conn) e = rw e (dial_ok tls addr s conn e)
      by_result (err x) e = rw e (dial_err tls addr s x e)

  Opens-from : (s v : S) (m : Result Conn × S) → open_count v ≡ open_count s → Opens v m → Opens s m
  Opens-from s v (ok conn, s1) e h = omega (arith, e, h)
  Opens-from s v (err x, s1) e h = omega (arith, e, h)

  plain_result-Opens :
      (s : S) (tls_err : Error) (m : Result Conn × S)
      → Opens s m
      → Opens s (plain_result lib.dial tls_err m.0, m.1)
  plain_result-Opens s tls_err (ok conn, s1) h = h
  plain_result-Opens s tls_err (err x, s1) h = h

  fall_back-Opens :
      (s : S) (addr : Text) (m : Result Conn × S) → Opens s m → Opens s (fall_back lib.dial addr m)
  fall_back-Opens s addr (ok conn, s1) h = h
  fall_back-Opens s addr (err x, s1) h =
      plain_result-Opens s x (lib.dial false addr s1)
        (Opens-from s s1 (lib.dial false addr s1) h (dial-Opens false addr s1))

  after_login-Opens :
      (s : S) (conn : Conn) (m : Result (Unit {0}) × S)
      → open_count m.1 ≡ suc (open_count s)
      → Opens s (after_login lib f conn m)
  after_login-Opens s conn (ok _, s1) h = h
  after_login-Opens s conn (err x, s1) h = omega (arith, quit_lem conn s1)

  after_dial-Opens : (s : S) (m : Result Conn × S) → Opens s m → Opens s (after_dial lib f m)
  after_dial-Opens s (err x, s1) h = h
  after_dial-Opens s (ok conn, s1) h =
      after_login-Opens s conn (lib.login conn f.username f.password s1)
        (login_lem conn f.username f.password s1 ∙ h)

  ftp_connect-Opens : (s : S) → Opens s (ftp_connect lib f s)
  unfolding ftp_connect Ftp.connect
  ftp_connect-Opens s =
      let addr = lib.address f.host f.port in
      after_dial-Opens s (fall_back lib.dial addr (lib.dial true addr s))
        (fall_back-Opens s addr (lib.dial true addr s) (dial-Opens true addr s))

  module _ {A : Type 0} (next : Conn → S → Result A × S)
      (keeps : (conn : Conn) (s : S) → open_count (next conn s).1 ≡ open_count s) where
    on_connection-count :
        (s : S) (m : Result Conn × S)
        → Opens s m
        → open_count (on_connection lib f next m).1 ≡ open_count s
    on_connection-count s (err x, s1) h = h
    on_connection-count s (ok conn, s1) h =
        omega (arith, quit_lem conn (next conn s1).1, keeps conn s1, h)

    with_connection-count : (s : S) → open_count (with_connection lib f next s).1 ≡ open_count s
    unfolding with_connection
    with_connection-count s = on_connection-count s (ftp_connect lib f s) (ftp_connect-Opens s)

  wrapped-state : {A : Type 0} (t : Text) (m : Result A × S) → (wrapped t m).1 ≡ m.1
  wrapped-state t (r, s) = refl

  map_ok-state : {A B : Type 0} (g : A → B) (m : Result A × S) → (map_ok g m).1 ≡ m.1
  map_ok-state g (ok a, s) = refl
  map_ok-state g (err e, s) = refl

  -- An FTP destination closes every connection that it opens: behind storing, listing and deleting there are as
  -- many connections open as before, whether dialling, logging in or what follows succeeds or fails.
  pub ftp_closes :
      (meta : BackupMeta) (content filename : Text) (s : S)
      → (open_count (ftp_store lib f meta content s).1 ≡ open_count s)
        × (open_count (ftp_list lib f s).1 ≡ open_count s)
        × (open_count (ftp_delete lib f filename s).1 ≡ open_count s)
  unfolding ftp_store ftp_list ftp_delete
  ftp_closes meta content filename s = (
    with_connection-count _
        (λ conn v.
          let made = (lib.make_dir conn f.dir v).1 in
          ap open_count (
            wrapped-state (txt "destinations: ftp: store")
              (lib.stor conn (join (clean f.dir) meta.filename) content made))
          ∙ stor_lem conn (join (clean f.dir) meta.filename) content made
          ∙ make_dir_lem conn f.dir v)
        s,
    with_connection-count _
        (λ conn v.
          ap open_count (
            map_ok-state _ (wrapped (txt "destinations: ftp: list") (lib.list conn f.dir v))
            ∙ wrapped-state (txt "destinations: ftp: list") (lib.list conn f.dir v))
          ∙ list_lem conn f.dir v)
        s,
    with_connection-count _
        (λ conn v.
          ap open_count (
            wrapped-state (txt "destinations: ftp: delete")
              (lib.delete conn (join (clean f.dir) filename) v))
          ∙ delete_lem conn (join (clean f.dir) filename) v)
        s,
  )
