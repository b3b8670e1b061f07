-- ===== src/Tests/Stores.antt =====
-- A local destination on a disk that is a function from paths to contents, and an FTP destination whose server
-- takes plain connections only.
use loxbak.Base.{
  ℕ, suc, ◌-◌, ◌≡◌, refl, Bool, true, false, List, [], ◌∷◌, ◌++◌, All, arith, Error, Result, ok,
  err, errorf, err-ne-ok, wrap_err, is_ok,
}
use loxbak.Base.Int.{pos}
use loxbak.Base.Text.{Text, txt, text_eq}
use loxbak.Destinations.{BackupMeta, BackupEntry, prune}
use loxbak.Destinations.Connections.{Counted, ftp_closes}
use loxbak.Destinations.Erasing.{Erases, local_lister, prune_local}
use loxbak.Destinations.Retention.{names, Plain, Splits}
use loxbak.Destinations.Escapes.{data_file, local_escapes}
use loxbak.Destinations.Local.{
  file_entries, local_list, local_dir, local_store, local_delete, local_open,
}
use loxbak.Destinations.Locations.{join, clean, walk, split_slash, is_plain}
use loxbak.Destinations.Plain.{up}
use loxbak.Destinations.Remote.{FtpLibrary, FtpServer, ftp_store, ftp_list, ftp_delete}
use loxbak.Destinations.Shelf.{Op, put, remove, HasPlainName, effects}
use loxbak.Destinations.Storage.{shelf, run_all, all_succeed, local_refines}
use loxbak.Tests.Disks.{Files, ram, ram-IsLawful, nas, blank}

abbrev meta : Text → BackupMeta
meta name = record { schedule_name = []; filename = name; size = 1 }

abbrev ops : List Op
ops =
    put (meta (b'a' ∷ [])) (1 ∷ [])
    ∷ put (meta (b'b' ∷ [])) (2 ∷ [])
    ∷ put (meta (b'a' ∷ [])) (3 ∷ [])
    ∷ remove (b'b' ∷ [])
    ∷ []

ops-HasPlainName : All HasPlainName ops
unfolding text_eq
ops-HasPlainName = (refl, (refl, (refl, (refl, tt))))

ops_succeed : all_succeed ram nas ops blank ≡ true
unfolding local_store local_delete
ops_succeed = refl

a_plain : is_plain (b'a' ∷ []) ≡ true
unfolding text_eq
a_plain = refl

local_refines_example :
    shelf ram nas ram-IsLawful (run_all ram nas ops blank) (b'a' ∷ [])
    ≡ effects ops (shelf ram nas ram-IsLawful blank) (b'a' ∷ [])
local_refines_example =
    local_refines ram nas ram-IsLawful ops blank (b'a' ∷ []) ops-HasPlainName ops_succeed a_plain

left_behind :
    ((local_open ram nas (b'a' ∷ []) (run_all ram nas ops blank)).0 ≡ ok (3 ∷ []))
    × (is_ok (local_open ram nas (b'b' ∷ []) (run_all ram nas ops blank)).0 ≡ false)
unfolding local_open local_store local_delete local_dir clean join walk split_slash text_eq
left_behind = (refl, refl)

n_plain : is_plain nas.name ≡ true
unfolding text_eq
n_plain = refl

local_escapes_example :
    (local_open ram nas (up ++ up ++ b'a' ∷ []) blank ≡ (
      wrap_err (txt "destinations: local: open") (ram.open_file (data_file nas (b'a' ∷ [])) blank),
      blank,
    ))
    × ((local_delete ram nas (up ++ up ++ b'a' ∷ []) blank).1
        ≡ (ram.remove (data_file nas (b'a' ∷ [])) blank).1)
local_escapes_example = local_escapes ram nas (b'a' ∷ []) blank n_plain a_plain

-- Behind two stores.
abbrev two : Files
unfolding local_store
two = run_all ram nas (put (meta (b'a' ∷ [])) (1 ∷ []) ∷ put (meta (b'b' ∷ [])) (2 ∷ []) ∷ []) blank

abbrev listed : List BackupEntry
listed =
    record { filename = b'a' ∷ []; size = 1; mod_time = 0 }
    ∷ record { filename = b'b' ∷ []; size = 1; mod_time = 0 }
    ∷ []

lists_two : (local_list ram nas two).0 ≡ ok listed
unfolding local_list file_entries local_dir clean join walk split_slash text_eq two
lists_two = refl

listed-Plain : All Plain listed
unfolding text_eq
listed-Plain = (refl, (refl, tt))

-- The older one goes.
prune_local_example :
    (kept gone : List BackupEntry) × Splits [] 1 listed kept gone
    × Erases ram nas ram-IsLawful
        (names gone)
        []
        two
        (prune (local_lister ram nas ram-IsLawful) [] (pos 1) two)
prune_local_example =
    prune_local ram nas ram-IsLawful [] 1 two listed (omega arith) lists_two listed-Plain

-- The state is the number of open connections.
abbrev dialled : Bool → Text → ℕ → Result ℕ × ℕ
dialled true addr n = (err (errorf []), n)
dialled false addr n = (ok n, suc n)

abbrev library : FtpLibrary ℕ ℕ
library = record {
  address = λ host port. host;
  dial = dialled;
  login = λ conn username password n. (ok tt, n);
  make_dir = λ conn dir n. (err (errorf []), n);
  stor = λ conn path content n. (ok tt, n);
  list = λ conn dir n. (err (errorf []), n);
  delete = λ conn path n. (ok tt, n);
  quit = λ conn n. n - 1;
}

dialled_ok :
    (tls : Bool) (addr : Text) (n conn : ℕ)
    → (dialled tls addr n).0 ≡ ok conn
    → (dialled tls addr n).1 ≡ suc n
dialled_ok true addr n conn e = absurd (err-ne-ok e)
dialled_ok false addr n conn e = refl

dialled_err :
    (tls : Bool) (addr : Text) (n : ℕ) (x : Error)
    → (dialled tls addr n).0 ≡ err x
    → (dialled tls addr n).1 ≡ n
dialled_err true addr n x e = refl
dialled_err false addr n x e = cc

library-Counted : Counted library
library-Counted = record {
  open_count = λ n. n;
  dial_ok = dialled_ok;
  dial_err = dialled_err;
  login_lem = λ conn username password n. refl;
  make_dir_lem = λ conn dir n. refl;
  stor_lem = λ conn path content n. refl;
  list_lem = λ conn dir n. refl;
  delete_lem = λ conn path n. refl;
  quit_lem = λ conn n. refl;
}

abbrev remote : FtpServer
remote = record {
  name = [];
  host = b'h' ∷ [];
  port = pos 21;
  username = [];
  password = [];
  dir = 47 ∷ [];
}

ftp_closes_example :
    (library-Counted.open_count (ftp_store library remote (meta (b'a' ∷ [])) [] 2).1
      ≡ library-Counted.open_count 2)
    × (library-Counted.open_count (ftp_list library remote 2).1 ≡ library-Counted.open_count 2)
    × (library-Counted.open_count (ftp_delete library remote (b'a' ∷ []) 2).1
        ≡ library-Counted.open_count 2)
ftp_closes_example = ftp_closes library library-Counted remote (meta (b'a' ∷ [])) [] (b'a' ∷ []) 2
