-- ===== src/Destinations/Local.antt =====
-- internal/destinations/local.go. The file system is a parameter, on a state `S`.
use loxbak.Base.{
  ℕ, Bool, some, List, [], ◌∷◌, if◌then◌else◌, Error, Result, ok, err, wrap, wrap_err,
}
use loxbak.Base.Text.{Text, txt, is_empty}
use loxbak.Destinations.{BackupMeta, BackupEntry, Destination}
use loxbak.Destinations.Locations.{Location, clean, join}

-- An `os.DirEntry`; `info` is the size and the mtime, which are read apart from the directory.
pub record DirEntry : Type 0 where
  pub name : Text
  pub is_dir : Bool
  pub info : Result (ℕ × ℕ)

pub data Listing : Type 0 where
  not_there : Listing
  unreadable : Error → Listing
  listing : List DirEntry → Listing

pub record Disk (S : Type 0) : Type 0 where
  pub mkdir_all : Location → S → Result (Unit {0}) × S
  pub create : Location → S → Result (Unit {0}) × S
  -- `io.Copy` into the file that was created
  pub copy : Location → Text → S → Result (Unit {0}) × S
  pub read_dir : Location → S → Listing
  pub remove : Location → S → Result (Unit {0}) × S
  pub open_file : Location → S → Result Text

-- `Local`
pub record LocalDir : Type 0 where
  pub name : Text
  pub data_dir : Text

abbrev pub or_data : Text → Text
or_data dir = if is_empty dir then txt "/data" else dir

-- `unmarshal` is `json.Unmarshal` into the empty configuration, `data_dir` the variable `DATA_DIR`.
unfoldable pub new_local : (Text → Result (Unit {0})) → Text → Text → Text → Result LocalDir
new_local unmarshal data_dir name config_json =
    let made : LocalDir = record { name = name; data_dir = or_data data_dir } in
    if is_empty config_json then ok made else elim (unmarshal config_json) [
      | ok _ ↦ ok made
      | err e ↦ err (wrap (txt "destinations: local: invalid config") e)
    ]

unfoldable pub local_dir : LocalDir → Location
unfolding clean join
local_dir l =
    join (join (clean l.data_dir) (b'b' ∷ b'a' ∷ b'c' ∷ b'k' ∷ b'u' ∷ b'p' ∷ b's' ∷ [])) l.name

module _ {S : Type 0} (disk : Disk S) (l : LocalDir) where
  abbrev pub then_do :
      Text → Result (Unit {0}) × S → (S → Result (Unit {0}) × S) → Result (Unit {0}) × S
  then_do t (err e, s) next = (err (wrap t e), s)
  then_do t (ok _, s) next = next s

  abbrev pub finished : S → Result (Unit {0}) × S
  finished s = (ok tt, s)

  abbrev pub write_file : Location → Text → S → Result (Unit {0}) × S
  write_file path content s =
      then_do (txt "destinations: local: write") (disk.copy path content s) finished

  abbrev pub create_file : Location → Text → S → Result (Unit {0}) × S
  create_file path content s =
      then_do (txt "destinations: local: create") (disk.create path s) (write_file path content)

  unfoldable pub local_store : BackupMeta → Text → S → Result (Unit {0}) × S
  unfolding local_dir join
  local_store meta content s =
      let dir = local_dir l in
      then_do (txt "destinations: local: mkdir") (disk.mkdir_all dir s)
        (create_file (join dir meta.filename) content)

  -- Directories are left out.
  unfoldable pub file_entries : List DirEntry → Result (List BackupEntry)
  file_entries [] = ok []
  file_entries (e ∷ rest) =
      let later = file_entries rest in
      if e.is_dir then later else elim e.info [
        | err x ↦ err (wrap (txt "destinations: local: list: stat") x)
        | ok (size, mtime) ↦ elim later [
          | err x ↦ err x
          | ok out ↦ ok (record { filename = e.name; size = size; mod_time = mtime } ∷ out)
        ]
      ]

  abbrev pub listed_files : Listing → Result (List BackupEntry)
  listed_files not_there = ok []
  listed_files (unreadable e) = err (wrap (txt "destinations: local: list: read dir") e)
  listed_files (listing entries) = file_entries entries

  unfoldable pub local_list : S → Result (List BackupEntry) × S
  unfolding local_dir file_entries
  local_list s = (listed_files (disk.read_dir (local_dir l) s), s)

  unfoldable pub local_delete : Text → S → Result (Unit {0}) × S
  unfolding local_dir join
  local_delete filename s =
      then_do (txt "destinations: local: delete") (disk.remove (join (local_dir l) filename) s)
        finished

  unfoldable pub local_open : Text → S → Result Text × S
  unfolding local_dir join
  local_open filename s = (
    wrap_err (txt "destinations: local: open") (disk.open_file (join (local_dir l) filename) s),
    s,
  )

  unfoldable pub local_destination : Destination S
  unfolding local_store local_list local_delete local_open
  local_destination = record {
    name = l.name;
    store = local_store;
    lister = some (record { list = local_list; delete = local_delete });
    reader = some local_open;
  }
