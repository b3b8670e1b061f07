-- ===== src/Destinations/Remote.antt =====
-- internal/destinations/ftp.go: archives on an FTP server. The FTP library is a parameter, on a state `S`.
use loxbak.Base.{
  ℕ, zero, suc, Bool, Option, none, some, List, [], ◌∷◌, if◌then◌else◌, Result, ok, err, errorf,
  wrap, wrap_err,
}
use loxbak.Base.Int.{ℤ, pos, negsuc}
use loxbak.Base.Text.{Text, txt, is_empty}
use loxbak.Destinations.{BackupMeta, BackupEntry, Destination}
use loxbak.Destinations.Locations.{Location, slash, clean, join}
use loxbak.Ftp
use loxbak.Ftp.{Entry, EntryKind, file, folder, other}

pub record FtpConfig : Type 0 where
  pub host : Text
  pub port : ℤ
  pub username : Text
  pub dir : Text

-- `FTP`
pub record FtpServer : Type 0 where
  pub name : Text
  pub host : Text
  pub port : ℤ
  pub username : Text
  pub password : Text
  pub dir : Text

abbrev pub or_ftp_port : ℤ → ℤ
or_ftp_port (pos zero) = pos 21
or_ftp_port (pos (suc n)) = pos (suc n)
or_ftp_port (negsuc n) = negsuc n

-- Of FTP and WebDAV alike.
abbrev pub or_root : Text → Text
or_root dir = if is_empty dir then slash ∷ [] else dir

abbrev ftp_of : Text → Text → FtpConfig → Result FtpServer
ftp_of name secret cfg =
    if is_empty cfg.host
    then err (errorf (txt "destinations: ftp: config missing host"))
    else ok (record {
      name = name;
      host = cfg.host;
      port = or_ftp_port cfg.port;
      username = cfg.username;
      password = secret;
      dir = or_root cfg.dir;
    })

-- `unmarshal` is `json.Unmarshal` into `ftpConfig`.
unfoldable pub new_ftp : (Text → Result FtpConfig) → Text → Text → Text → Result FtpServer
new_ftp unmarshal name config_json secret = elim (unmarshal config_json) [
  | err e ↦ err (wrap (txt "destinations: ftp: invalid config") e)
  | ok cfg ↦ ftp_of name secret cfg
]

pub record FtpLibrary (S Conn : Type 0) : Type 0 where
  -- `net.JoinHostPort`
  pub address : Text → ℤ → Text
  pub dial : Bool → Text → S → Result Conn × S
  pub login : Conn → Text → Text → S → Result (Unit {0}) × S
  pub make_dir : Conn → Text → S → Result (Unit {0}) × S
  pub stor : Conn → Location → Text → S → Result (Unit {0}) × S
  pub list : Conn → Text → S → Result (List Entry) × S
  pub delete : Conn → Location → S → Result (Unit {0}) × S
  pub quit : Conn → S → S

-- A zero `Time` is 0.
abbrev pub or_zero : Option ℕ → ℕ
or_zero none = 0
or_zero (some t) = t

unfoldable pub file_backups : List Entry → List BackupEntry
file_backups [] = []
file_backups (e ∷ rest) = elim e.kind [
  | file ↦
      record { filename = e.name; size = e.size; mod_time = or_zero e.time } ∷ file_backups rest
  | folder ↦ file_backups rest
  | other ↦ file_backups rest
]

abbrev pub wrapped : {A S : Type 0} → Text → Result A × S → Result A × S
wrapped t (r, s) = (wrap_err t r, s)

abbrev pub map_ok : {A B S : Type 0} → (A → B) → Result A × S → Result B × S
map_ok f (ok a, s) = (ok (f a), s)
map_ok f (err e, s) = (err e, s)

module _ {S Conn : Type 0} (lib : FtpLibrary S Conn) (f : FtpServer) where
  abbrev pub after_login : Conn → Result (Unit {0}) × S → Result Conn × S
  after_login conn (err e, s) = (err (wrap (txt "destinations: ftp: login") e), lib.quit conn s)
  after_login conn (ok _, s) = (ok conn, s)

  abbrev pub after_dial : Result Conn × S → Result Conn × S
  after_dial (err e, s) = (err (wrap (txt "destinations: ftp: connect") e), s)
  after_dial (ok conn, s) = after_login conn (lib.login conn f.username f.password s)

  unfoldable pub ftp_connect : S → Result Conn × S
  unfolding Ftp.connect
  ftp_connect s = after_dial (Ftp.connect lib.dial (lib.address f.host f.port) s)

  -- The calls between `connect` and the deferred `Quit`.
  module _ {A : Type 0} (next : Conn → S → Result A × S) where
    abbrev pub on_connection : Result Conn × S → Result A × S
    on_connection (err e, s) = (err e, s)
    on_connection (ok conn, s) = let (r, s1) = next conn s in (r, lib.quit conn s1)

    unfoldable pub with_connection : S → Result A × S
    unfolding ftp_connect
    with_connection s = on_connection (ftp_connect s)

  -- The error of `MakeDir` is left aside.
  unfoldable pub ftp_store : BackupMeta → Text → S → Result (Unit {0}) × S
  unfolding with_connection clean join
  ftp_store meta content = with_connection (λ conn s.
      wrapped (txt "destinations: ftp: store")
        (lib.stor conn (join (clean f.dir) meta.filename) content (lib.make_dir conn f.dir s).1))

  unfoldable pub ftp_list : S → Result (List BackupEntry) × S
  unfolding with_connection file_backups
  ftp_list = with_connection (λ conn s.
      map_ok file_backups (wrapped (txt "destinations: ftp: list") (lib.list conn f.dir s)))

  unfoldable pub ftp_delete : Text → S → Result (Unit {0}) × S
  unfolding with_connection clean join
  ftp_delete filename = with_connection (λ conn s.
      wrapped (txt "destinations: ftp: delete") (lib.delete conn (join (clean f.dir) filename) s))

  unfoldable pub ftp_destination : Destination S
  unfolding ftp_store ftp_list ftp_delete
  ftp_destination = record {
    name = f.name;
    store = ftp_store;
    lister = some (record { list = ftp_list; delete = ftp_delete });
    reader = none;
  }
