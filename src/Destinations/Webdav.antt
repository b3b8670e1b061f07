-- ===== src/Destinations/Webdav.antt =====
-- internal/destinations/webdav.go: archives on a WebDAV server. The WebDAV library is a parameter, on a
-- state `S`.
use loxbak.Base.{
  ℕ, Bool, none, some, List, [], ◌∷◌, ltb, if◌then◌else◌, Result, ok, err, errorf, wrap,
}
use loxbak.Base.Text.{Text, txt, is_empty}
use loxbak.Destinations.{BackupMeta, BackupEntry, Destination}
use loxbak.Destinations.Locations.{Location, clean, join}
use loxbak.Destinations.Remote.{or_root, wrapped, map_ok}

pub record WebdavConfig : Type 0 where
  pub url : Text
  pub username : Text
  pub dir : Text

-- What `gowebdav.NewClient` keeps, and the directory.
pub record WebdavServer : Type 0 where
  pub name : Text
  pub url : Text
  pub username : Text
  pub password : Text
  pub dir : Text

abbrev webdav_of : Text → Text → WebdavConfig → Result WebdavServer
webdav_of name secret cfg =
    if is_empty cfg.url
    then err (errorf (txt "destinations: webdav: config missing url"))
    else ok (record {
      name = name;
      url = cfg.url;
      username = cfg.username;
      password = secret;
      dir = or_root cfg.dir;
    })

-- `unmarshal` is `json.Unmarshal` into `webdavConfig`.
unfoldable pub new_webdav : (Text → Result WebdavConfig) → Text → Text → Text → Result WebdavServer
new_webdav unmarshal name config_json secret = elim (unmarshal config_json) [
  | err e ↦ err (wrap (txt "destinations: webdav: invalid config") e)
  | ok cfg ↦ webdav_of name secret cfg
]

pub record FileInfo : Type 0 where
  pub name : Text
  pub is_dir : Bool
  pub size : ℕ
  pub mod_time : ℕ

-- The client of a server.
pub record WebdavClient (S : Type 0) : Type 0 where
  pub mkdir_all : Text → S → Result (Unit {0}) × S
  pub write_stream_with_length : Location → Text → ℕ → S → Result (Unit {0}) × S
  pub write_stream : Location → Text → S → Result (Unit {0}) × S
  pub read_dir : Text → S → Result (List FileInfo) × S
  pub remove : Location → S → Result (Unit {0}) × S

unfoldable pub file_infos : List FileInfo → List BackupEntry
file_infos [] = []
file_infos (info ∷ rest) =
    let later = file_infos rest in
    if info.is_dir
    then later
    else record { filename = info.name; size = info.size; mod_time = info.mod_time } ∷ later

module _ {S : Type 0} (client : WebdavServer → WebdavClient S) (w : WebdavServer) where
  abbrev pub write : Location → Text → ℕ → S → Result (Unit {0}) × S
  write path content size =
      if ltb 0 size
      then (client w).write_stream_with_length path content size
      else (client w).write_stream path content

  abbrev pub then_write :
      (S → Result (Unit {0}) × S) → Result (Unit {0}) × S → Result (Unit {0}) × S
  then_write next (err e, s) = (err (wrap (txt "destinations: webdav: mkdir") e), s)
  then_write next (ok _, s) = wrapped (txt "destinations: webdav: write") (next s)

  unfoldable pub webdav_store : BackupMeta → Text → S → Result (Unit {0}) × S
  unfolding clean join
  webdav_store meta content s =
      then_write (write (join (clean w.dir) meta.filename) content meta.size)
        ((client w).mkdir_all w.dir s)

  unfoldable pub webdav_list : S → Result (List BackupEntry) × S
  unfolding file_infos
  webdav_list s =
      map_ok file_infos (wrapped (txt "destinations: webdav: list") ((client w).read_dir w.dir s))

  unfoldable pub webdav_delete : Text → S → Result (Unit {0}) × S
  unfolding clean join
  webdav_delete filename s =
      wrapped (txt "destinations: webdav: delete")
        ((client w).remove (join (clean w.dir) filename) s)

  unfoldable pub webdav_destination : Destination S
  unfolding webdav_store webdav_list webdav_delete
  webdav_destination = record {
    name = w.name;
    store = webdav_store;
    lister = some (record { list = webdav_list; delete = webdav_delete });
    reader = none;
  }
