-- ===== src/Tests/Kept.antt =====
-- A round of the loop over the destinations at a local destination that holds an older archive of the schedule.
use loxbak.Base.{some, List, [], ◌∷◌, ok}
use loxbak.Base.Text.{Text, text_eq}
use loxbak.Db
use loxbak.Db.Calls
use loxbak.Db.Calls.{Call, perform, perform_all}
use loxbak.Destinations.{BackupMeta, BackupEntry}
use loxbak.Destinations.Erasing.{path}
use loxbak.Destinations.Local.{local_destination, local_dir}
use loxbak.Destinations.Locations.{join, clean, walk, split_slash}
use loxbak.Scheduler.World.{Outside, World}
use loxbak.Tests.Secrets.{plain_cipher}
use loxbak.Tests.Disks.{Files, ram, ram-IsLawful, nas, blank, updated, older, newer}
use loxbak.Tests.Tables.{working}

abbrev outside : Outside Files
outside = record {
  mirror = λ host port user password s. (ok tt, s);
  archive_dir = λ name s. (ok (record { filename = newer; size = 1 }), s);
  open_archive = λ s. (ok (7 ∷ []), s);
  remove_archive = λ s. s;
  build = λ type name config secret. ok (local_destination ram nas);
  cipher = plain_cipher;
  master_key = [];
}

abbrev world : World Files
unfolding perform_all perform local_dir join clean walk split_slash text_eq
world = record {
  db = perform_all (Calls.create_destination (b'n' ∷ []) (b'l' ∷ []) [] [] ∷ []) working;
  outside = updated (path ram nas ram-IsLawful older) (some (6 ∷ [])) blank;
  pending = [];
}

abbrev meta : BackupMeta
meta = record { schedule_name = b'd' ∷ []; filename = newer; size = 1 }

abbrev row : Db.Destination
row = record {
  id = 1;
  name = b'n' ∷ [];
  type = b'l' ∷ [];
  config_json = [];
  encrypted_secret = [];
  created_at = 0;
  updated_at = 0;
}

abbrev listed : List BackupEntry
listed =
    record { filename = older; size = 1; mod_time = 0 }
    ∷ record { filename = newer; size = 1; mod_time = 0 }
    ∷ []
