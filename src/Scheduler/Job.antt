-- ===== src/Scheduler/Job.antt =====
-- `RunSchedule`, `TriggerRun` and what they call.
use loxbak.Base.{
  ℕ, Bool, false, ◌&&◌, ◌||◌, not, is_ok, Option, none, some, List, [], ◌∷◌, ◌++◌, ltb,
  if◌then◌else◌, Error, Result, ok, err, errorf, message,
}
use loxbak.Base.Int.{ℤ, not_positive}
use loxbak.Base.Text.{Text, txt, is_empty}
use loxbak.Archive.{archive_prefix}
use loxbak.Crypto.{decrypt}
use loxbak.Db.{ScheduleDestination, Status, success, failed}
use loxbak.Db.Credentials.{get_credential}
use loxbak.Db.Destinations.{get_destination}
use loxbak.Db.Schedules.{list_schedule_destinations, get_schedule}
use loxbak.Db.Runs.{
  create_run, finish_run, create_run_destination_result, delete_run_destination_result_by_filename,
}
use loxbak.Destinations.{BackupMeta, Destination, Lister, prune}
use loxbak.Scheduler.World.{
  Archive, Outside, Pending, World, R, on_db, on_outside, returned, wrapping, ◌>>=◌, ◌>>◌,
}

-- A run is prepared once its archive is there.
pub record Prepared : Type 0 where
  pub links : List ScheduleDestination
  pub schedule_name : Text
  pub archive : Archive

-- The three results of `doRun`.
pub record Outcome : Type 0 where
  pub size : ℕ
  pub filename : Text
  pub error : Option Error

module _ {E : Type 0} (o : Outside E) where
  abbrev pub some_links : List ScheduleDestination → R E (Unit {0})
  some_links [] = returned (err (errorf (txt "schedule has no destinations configured")))
  some_links (_ ∷ _) = returned (ok tt)

  -- `doRun` up to the archive. (`mirrorMu` is held over the mirroring and the archiving.)
  unfoldable pub prepare : ℕ → R E Prepared
  prepare schedule_id = do
    cred ← wrapping (txt "no Loxone credential stored") (on_db get_credential)
    password ←
        wrapping (txt "decrypt stored Loxone credential")
          (returned (decrypt o.cipher o.master_key cred.encrypted_password))
    links ←
        wrapping (txt "list schedule destinations") (on_db (list_schedule_destinations schedule_id))
    some_links links
    sched ← wrapping (txt "get schedule") (on_db (get_schedule schedule_id))
    wrapping (txt "mirror Miniserver files")
        (on_outside (o.mirror cred.host cred.port cred.username password))
    archive ← wrapping (txt "archive backup") (on_outside (o.archive_dir sched.name))
    returned (ok (record { links = links; schedule_name = sched.name; archive = archive }))

  -- Errors of the clean-up are logged only.
  unfoldable pub forget_deleted : ℕ → List Text → World E → World E
  forget_deleted destination_id [] w = w
  forget_deleted destination_id (filename ∷ rest) w =
      forget_deleted destination_id rest
        (on_db (delete_run_destination_result_by_filename destination_id filename) w).1

  abbrev pub prune_with : Option (Lister E) → ℕ → Text → ℤ → World E → World E
  prune_with none destination_id schedule_name retention_count w = w
  prune_with (some lister) destination_id schedule_name retention_count w =
      let ((deleted, e), x) =
        prune lister (archive_prefix schedule_name) retention_count w.outside in
      forget_deleted destination_id deleted (record w { outside = x })

  unfoldable pub prune_old_backups : Destination E → ℕ → Text → ℤ → World E → World E
  unfolding forget_deleted
  prune_old_backups dest destination_id schedule_name retention_count w =
      if not_positive retention_count
      then w
      else prune_with dest.lister destination_id schedule_name retention_count w

  abbrev pub stored_secret : Text → R E Text
  stored_secret encrypted =
      if is_empty encrypted
      then returned (ok [])
      else wrapping (txt "decrypt destination secret")
          (returned (decrypt o.cipher o.master_key encrypted))

  unfoldable pub store_to_destination : ℕ → BackupMeta → ℤ → R E (Unit {0})
  unfolding prune_old_backups
  store_to_destination destination_id meta retention_count = do
    row ← wrapping (txt "get destination") (on_db (get_destination destination_id))
    secret ← stored_secret row.encrypted_secret
    dest ←
        wrapping (txt "build destination")
          (returned (o.build row.type row.name row.config_json secret))
    content ← wrapping (txt "open archive") (on_outside o.open_archive)
    wrapping (txt "store") (on_outside (dest.store meta content))
    λ w. (ok tt, prune_old_backups dest destination_id meta.schedule_name retention_count w)

  abbrev pub result_status : Result (Unit {0}) → Status
  result_status (ok _) = success
  result_status (err _) = failed

  abbrev pub result_text : Result (Unit {0}) → Text
  result_text (ok _) = []
  result_text (err e) = message e

  -- One round of the loop: the outcome is recorded, and a failure to record it is logged only.
  unfoldable pub store_and_record :
      ℕ → BackupMeta → ScheduleDestination → World E → Result (Unit {0}) × World E
  unfolding store_to_destination
  store_and_record run_id meta link w =
      let (r, w1) = store_to_destination link.destination_id meta link.retention_count w in
      (
        r,
        (on_db
            (create_run_destination_result run_id (some link.destination_id) (result_status r)
              (some meta.size) (result_text r))
            w1).1,
      )

  -- The loop over the links, with `anySuccess` and `anyFailure`.
  unfoldable pub store_all :
      ℕ → BackupMeta → List ScheduleDestination → Bool → Bool → World E → (Bool × Bool) × World E
  unfolding store_and_record
  store_all run_id meta [] any_success any_failure w = ((any_success, any_failure), w)
  store_all run_id meta (link ∷ links) any_success any_failure w =
      let (r, w1) = store_and_record run_id meta link w in
      store_all run_id meta links (any_success || is_ok r) (any_failure || not (is_ok r)) w1

  abbrev pub store_error : Bool → Bool → Option Error
  store_error any_success any_failure =
      if any_failure && any_success
      then some (errorf (txt "backup partially failed: some destinations succeeded, others failed"))
      else if any_failure
      then some (errorf (txt "backup failed for all destinations"))
      else none

  abbrev pub run_meta : Prepared → BackupMeta
  run_meta p = record {
    schedule_name = p.schedule_name;
    filename = p.archive.filename;
    size = p.archive.size;
  }

  -- The rest of `doRun`, with the removal of the archive that it defers.
  abbrev pub do_stores : ℕ → Result Prepared × World E → Outcome × World E
  do_stores run_id (err e, w) = (record { size = 0; filename = []; error = some e }, w)
  do_stores run_id (ok p, w) =
      let ((any_success, any_failure), w1) = store_all run_id (run_meta p) p.links false false w in
      (
        record {
          size = p.archive.size;
          filename = p.archive.filename;
          error = store_error any_success any_failure;
        },
        record w1 { outside = o.remove_archive w1.outside },
      )

  unfoldable pub do_run : ℕ → ℕ → World E → Outcome × World E
  unfolding prepare store_all
  do_run schedule_id run_id w = do_stores run_id (prepare schedule_id w)

  abbrev pub run_status : Option Error → Status
  run_status none = success
  run_status (some _) = failed

  abbrev pub run_error : Option Error → Text
  run_error none = []
  run_error (some e) = message e

  abbrev pub run_result : Option Error → Result (Unit {0})
  run_result none = ok tt
  run_result (some e) = err e

  abbrev pub size_ptr : ℕ → Option ℕ
  size_ptr size = if ltb 0 size then some size else none

  unfoldable pub execute_and_finish : ℕ → ℕ → R E (Unit {0})
  unfolding do_run
  execute_and_finish schedule_id run_id w =
      let (out, w1) = do_run schedule_id run_id w in
      let finished_at : ℕ = w1.db.clock w1.db.step in
      (wrapping (txt "scheduler: finish run") (
            on_db (
              finish_run run_id finished_at (run_status out.error) (size_ptr out.size) out.filename
                (run_error out.error)))
          >> returned (run_result out.error))
        w1

  abbrev pub started : ℕ → R E ℕ
  started schedule_id w =
      wrapping (txt "scheduler: create run")
        (on_db (create_run (some schedule_id) (w.db.clock w.db.step))) w

  unfoldable pub run_schedule : ℕ → R E (Unit {0})
  unfolding execute_and_finish
  run_schedule schedule_id = do run_id ← started schedule_id; execute_and_finish schedule_id run_id

  -- The run is left to a goroutine: `pending` holds it until `run_pending` runs it.
  unfoldable pub trigger_run : ℕ → R E ℕ
  trigger_run schedule_id = do
    run_id ← started schedule_id
    λ w. (
      ok run_id,
      record w {
        pending = w.pending ++ record { schedule_id = schedule_id; run_id = run_id } ∷ [];
      },
    )

  -- A goroutine of `TriggerRun`; its error is logged only.
  unfoldable pub run_pending : Pending → World E → World E
  unfolding execute_and_finish
  run_pending p w = (execute_and_finish p.schedule_id p.run_id w).1
