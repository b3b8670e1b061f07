-- ===== src/Api/Listing.antt =====
-- `handleListBackups` (internal/api/backups.go): what is stored at every destination, with what the
-- history knows of it.
use loxbak.Base.{
  ℕ, Bool, true, false, Option, none, some, List, [], ◌∷◌, ◌++◌, ltb, if◌then◌else◌, Result, ok,
  err,
}
use loxbak.Base.Text.{Text, txt, has_prefix}
use loxbak.Api.{BackupEntryResponse, Backend, Handler, respond, failed_with, backups, call}
use loxbak.Api.Destinations.{build_destination}
use loxbak.Archive.{Stamp, archive_prefix, parse_archive_timestamp}
use loxbak.Db
use loxbak.Db.{Schedule}
use loxbak.Db.Destinations.{list_destinations}
use loxbak.Db.Runs.{RunInfo, find_run_info_by_destination_and_filename}
use loxbak.Db.Schedules.{list_schedules}
use loxbak.Destinations.{BackupEntry, Lister, Destination}
use loxbak.Scheduler.World.{World, on_db, on_outside}

unfoldable pub has_archive_prefix : Text → Text → Bool
unfolding archive_prefix
has_archive_prefix filename schedule_name = has_prefix filename (archive_prefix schedule_name)

-- The first schedule whose prefix the name has.
abbrev pub guessed_schedule : Text → List Schedule → Option ℕ
guessed_schedule filename [] = none
guessed_schedule filename (sched ∷ rest) =
    let later = guessed_schedule filename rest in
    if has_archive_prefix filename sched.name then some sched.id else later

-- `sort.Slice`, the newest first.
unfoldable pub insert_started :
    BackupEntryResponse → List BackupEntryResponse → List BackupEntryResponse
insert_started x [] = x ∷ []
insert_started x (y ∷ ys) =
    if ltb y.started_at x.started_at then x ∷ y ∷ ys else y ∷ insert_started x ys

unfoldable pub sort_started : List BackupEntryResponse → List BackupEntryResponse
unfolding insert_started
sort_started [] = []
sort_started (x ∷ xs) = insert_started x (sort_started xs)

abbrev pub is_some : {A : Type 0} → Option A → Bool
is_some none = false
is_some (some _) = true

-- `seconds` is the instant of a time in UTC.
module _ (seconds : Stamp → ℕ) where
  abbrev or_parsed : ℕ → Option Stamp → ℕ
  or_parsed mod_time none = mod_time
  or_parsed mod_time (some t) = seconds t

  abbrev pub described :
      ℕ → Bool → List Schedule → BackupEntry → Result (Option RunInfo) → BackupEntryResponse
  described dest_id downloadable schedules e (ok (some info)) = record {
    destination_id = dest_id;
    filename = e.filename;
    size_bytes = e.size;
    schedule_id = info.schedule_id;
    started_at = info.started_at;
    finished_at = info.finished_at;
    downloadable = downloadable;
  }
  described dest_id downloadable schedules e _ = record {
    destination_id = dest_id;
    filename = e.filename;
    size_bytes = e.size;
    schedule_id = guessed_schedule e.filename schedules;
    started_at = or_parsed e.mod_time (parse_archive_timestamp e.filename);
    finished_at = none;
    downloadable = downloadable;
  }

  module _ {E : Type 0} where
    unfoldable pub describe_all :
        ℕ → Bool → List Schedule → List BackupEntry → World E → List BackupEntryResponse × World E
    unfolding has_archive_prefix
    describe_all dest_id downloadable schedules [] w = ([], w)
    describe_all dest_id downloadable schedules (e ∷ es) w =
        let (r, w1) = on_db (find_run_info_by_destination_and_filename dest_id e.filename) w in
        let (rest, w2) = describe_all dest_id downloadable schedules es w1 in
        (described dest_id downloadable schedules e r ∷ rest, w2)

    abbrev pub describe_listed :
        ℕ
        → Bool
        → List Schedule
        → Result (List BackupEntry) × World E
        → List BackupEntryResponse × World E
    describe_listed dest_id downloadable schedules (err _, w) = ([], w)
    describe_listed dest_id downloadable schedules (ok es, w) =
        describe_all dest_id downloadable schedules es w

    abbrev pub describe_lister :
        ℕ → Bool → List Schedule → Option (Lister E) → World E → List BackupEntryResponse × World E
    describe_lister dest_id downloadable schedules none w = ([], w)
    describe_lister dest_id downloadable schedules (some lister) w =
        describe_listed dest_id downloadable schedules (on_outside lister.list w)

    abbrev pub describe_built :
        ℕ → List Schedule → Result (Destination E) × World E → List BackupEntryResponse × World E
    describe_built dest_id schedules (err _, w) = ([], w)
    describe_built dest_id schedules (ok dest, w) =
        describe_lister dest_id (is_some dest.reader) schedules dest.lister w

    module _ (b : Backend E) where
      abbrev pub describe_destination :
          List Schedule → Db.Destination → World E → List BackupEntryResponse × World E
      describe_destination schedules row w =
          describe_built row.id schedules (build_destination b row w)

      -- The loop over the destinations; errors are logged only.
      unfoldable pub describe_destinations :
          List Schedule → List Db.Destination → World E → List BackupEntryResponse × World E
      unfolding build_destination describe_all
      describe_destinations schedules [] w = ([], w)
      describe_destinations schedules (row ∷ rows) w =
          let (out, w1) = describe_destination schedules row w in
          let (rest, w2) = describe_destinations schedules rows w1 in (out ++ rest, w2)

      abbrev pub list_backups : List Schedule → List Db.Destination → Handler E
      list_backups schedules rows s =
          let (out, w) = describe_destinations schedules rows s.world in
          (respond 200 (backups (sort_started out)), record s { world = w })

      unfoldable pub handle_list_backups : Handler E
      unfolding describe_destinations sort_started
      handle_list_backups =
          call (on_db list_destinations) (λ _. failed_with 500 (txt "failed to list destinations"))
            (λ rows.
              call (on_db list_schedules) (λ _. failed_with 500 (txt "failed to list schedules"))
                (λ schedules. list_backups schedules rows))
