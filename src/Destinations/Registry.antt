-- ===== src/Destinations/Registry.antt =====
-- The registry of destination types (internal/destinations/destination.go), and what the three `init`
-- functions of the package put there.
use loxbak.Base.{Option, none, some, List, [], ◌∷◌, map, if◌then◌else◌, Result, ok, err, errorf}
use loxbak.Base.Text.{Text, txt, text_eq}
use loxbak.Destinations.{Destination}
use loxbak.Destinations.Local.{Disk, new_local, local_destination}
use loxbak.Destinations.Remote.{FtpConfig, FtpLibrary, new_ftp, ftp_destination}
use loxbak.Destinations.Webdav.{
  WebdavConfig, WebdavServer, WebdavClient, new_webdav, webdav_destination,
}

-- Of a name, a configuration and a secret.
abbrev pub Constructor : Type 0 → Type 0
Constructor S = Text → Text → Text → Result (Destination S)

abbrev pub Registry : Type 0 → Type 0
Registry S = List (Text × Constructor S)

module _ {S : Type 0} where
  -- `registry[typ] = ctor`
  unfoldable pub register : Text → Constructor S → Registry S → Registry S
  register type constructor [] = (type, constructor) ∷ []
  register type constructor ((t, c) ∷ rest) =
      let later = register type constructor rest in
      if text_eq t type then (type, constructor) ∷ rest else (t, c) ∷ later

  -- `registry[typ]`
  unfoldable pub registered : Text → Registry S → Option (Constructor S)
  registered type [] = none
  registered type ((t, c) ∷ rest) =
      let later = registered type rest in if text_eq t type then some c else later

  abbrev pub build_with : Option (Constructor S) → Text → Text → Text → Result (Destination S)
  build_with none name config_json secret =
      err (errorf (txt "destinations: unknown destination type"))
  build_with (some constructor) name config_json secret = constructor name config_json secret

  unfoldable pub build : Registry S → Text → Text → Text → Text → Result (Destination S)
  unfolding registered
  build registry type = build_with (registered type registry)

  -- The code leaves their order open.
  abbrev pub types : Registry S → List Text
  types = map (λ (e : Text × Constructor S). e.0)

abbrev made : {A S : Type 0} → (A → Destination S) → Result A → Result (Destination S)
made destination (ok a) = ok (destination a)
made destination (err e) = err e

-- The libraries, the variable `DATA_DIR`, and `json.Unmarshal` into each configuration.
pub record Libraries (S Conn : Type 0) : Type 0 where
  pub data_dir : Text
  pub disk : Disk S
  pub ftp : FtpLibrary S Conn
  pub webdav : WebdavServer → WebdavClient S
  pub local_config : Text → Result (Unit {0})
  pub ftp_config : Text → Result FtpConfig
  pub webdav_config : Text → Result WebdavConfig

-- The `init` functions run in the order of the files' names.
module _ {S Conn : Type 0} (libs : Libraries S Conn) where
  unfoldable pub init_ftp : Registry S → Registry S
  unfolding register new_ftp ftp_destination
  init_ftp = register (b'f' ∷ b't' ∷ b'p' ∷ []) (λ name config_json secret.
      made (ftp_destination libs.ftp) (new_ftp libs.ftp_config name config_json secret))

  unfoldable pub init_local : Registry S → Registry S
  unfolding register new_local local_destination
  init_local = register (b'l' ∷ b'o' ∷ b'c' ∷ b'a' ∷ b'l' ∷ []) (λ name config_json secret.
      made (local_destination libs.disk)
        (new_local libs.local_config libs.data_dir name config_json))

  unfoldable pub init_webdav : Registry S → Registry S
  unfolding register new_webdav webdav_destination
  init_webdav = register (b'w' ∷ b'e' ∷ b'b' ∷ b'd' ∷ b'a' ∷ b'v' ∷ []) (λ name config_json secret.
      made (webdav_destination libs.webdav) (new_webdav libs.webdav_config name config_json secret))

  unfoldable pub registry : Registry S
  unfolding init_ftp init_local init_webdav
  registry = init_webdav (init_local (init_ftp []))
