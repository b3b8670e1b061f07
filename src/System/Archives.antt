-- ===== src/System/Archives.antt =====
-- The handlers of internal/api/destinations.go and internal/api/backups.go leave the server settled.
use loxbak.Base.{ℕ, refl, ap, ◌∙◌, Bool, not, Option, map, Error}
use loxbak.Base.Text.{Text, is_empty}
use loxbak.Api.{Response, Backend, Server, Handler, respond, empty, answer, call, reload_scheduler}
use loxbak.Api.Backups.{with_destination, handle_download_backup, handle_delete_backup}
use loxbak.Api.Destinations
use loxbak.Api.Destinations.{
  DestinationRequest, in_use_status, encrypt_destination_secret, build_destination, new_secret,
  purge_target, purge_destination, purged, handle_list_destinations, handle_get_destination,
  handle_create_destination, handle_update_destination, handle_delete_destination,
}
use loxbak.Api.Listing.{handle_list_backups, describe_destinations}
use loxbak.Archive.{Stamp}
use loxbak.Db
use loxbak.Db.{Schedule}
use loxbak.Db.Destinations.{
  list_destinations, get_destination, create_destination, update_destination, delete_destination,
}
use loxbak.Db.Integrity.{IsSafe, IsSafe-Writes}
use loxbak.Db.Reads.{list_schedules-tables, list_destinations-tables, get_destination-tables}
use loxbak.Db.Runs.{delete_run_destination_result_by_filename}
use loxbak.Db.Schedules.{list_schedules}
use loxbak.Db.Writes.{creates_destination, updates_destination, deletes_destination, forgets_result}
use loxbak.Destinations.{Destination}
use loxbak.Scheduler.Frames.{LeavesDestination}
use loxbak.Scheduler.Jobs.{IsLawful, tracked}
use loxbak.Scheduler.World.{on_db, on_outside}
use loxbak.System.Calls.{
  LeavesBackend, read-IsQuiet, write-IsQuiet, outside-IsQuiet, encrypt_destination_secret-IsQuiet,
  new_secret-IsQuiet, build_destination-IsQuiet, build_destination-leaves,
}
use loxbak.System.Listings.{
  LeavesSome, describe_destinations-Stays, purge_destination-view, purge_target-Stays,
}
use loxbak.System.Settled.{
  IsSettled, Settles, world-IsSettled, check-Settles, given-Settles, call-Settles, look-Settles,
  reload_scheduler-IsSettled,
}

module _ {E : Type 0} (b : Backend E) (law : IsLawful b.cron)
    (leaves : LeavesBackend law.jobs b) where
  open law use {jobs}

  -- The row of a destination, with which the handlers begin and end.
  load-Settles :
      (id : ℕ) (bad : Error → Response) (next : Db.Destination → Handler E)
      → ((row : Db.Destination) → Settles b law leaves (next row))
      → Settles b law leaves (call (on_db (get_destination id)) bad next)
  load-Settles id bad next k =
      call-Settles b law leaves (on_db (get_destination id)) bad next
        (read-IsQuiet b jobs leaves (get_destination id) (get_destination-tables id))
        (λ row _ _. k row)

  pub handle_list_destinations-Settles : Settles b law leaves handle_list_destinations
  unfolding handle_list_destinations
  handle_list_destinations-Settles =
      call-Settles b law leaves (on_db list_destinations) _ _
        (read-IsQuiet b jobs leaves list_destinations list_destinations-tables) λ _ _ _ s h. h

  pub handle_get_destination-Settles :
      (param : Option ℕ) → Settles b law leaves (handle_get_destination param)
  unfolding handle_get_destination
  handle_get_destination-Settles param =
      given-Settles b law leaves param _ _ λ id _. load-Settles id _ _ λ row s h. h

  pub handle_create_destination-Settles :
      (body : Option DestinationRequest) → Settles b law leaves (handle_create_destination b body)
  unfolding handle_create_destination
  handle_create_destination-Settles body = given-Settles b law leaves body _ _ λ req _.
      check-Settles b law leaves (Destinations.is_complete req) _ _ (
        call-Settles b law leaves (encrypt_destination_secret b req.secret) _ _
          (encrypt_destination_secret-IsQuiet b jobs leaves req.secret)
          λ blob _ _.
            call-Settles b law leaves
              (on_db (create_destination req.name req.type req.config_json blob)) _ _
              (write-IsQuiet b jobs leaves
                (create_destination req.name req.type req.config_json blob)
                (creates_destination IsSafe IsSafe-Writes req.name req.type req.config_json blob))
              λ id _ _. load-Settles id _ _ λ row s h. h)

  pub handle_update_destination-Settles :
      (param : Option ℕ) (body : Option DestinationRequest)
      → Settles b law leaves (handle_update_destination b param body)
  unfolding handle_update_destination
  handle_update_destination-Settles param body = given-Settles b law leaves param _ _ λ id _.
      given-Settles b law leaves body _ _ λ req _.
        check-Settles b law leaves (Destinations.is_complete req) _ _ (
          load-Settles id _ _ λ existing.
            call-Settles b law leaves (new_secret b existing.encrypted_secret req.secret) _ _
              (new_secret-IsQuiet b jobs leaves existing.encrypted_secret req.secret)
              λ blob _ _.
                call-Settles b law leaves
                  (on_db (update_destination id req.name req.type req.config_json blob)) _ _
                  (write-IsQuiet b jobs leaves
                    (update_destination id req.name req.type req.config_json blob)
                    (updates_destination IsSafe IsSafe-Writes id req.name req.type req.config_json
                      blob))
                  λ _ _ _. load-Settles id _ _ λ row s h. h)

  -- Purging a destination deletes archives only.
  purged-IsSettled :
      (dest : Option (Destination E)) (s : Server E)
      → LeavesSome b jobs leaves dest
      → IsSettled jobs s
      → IsSettled jobs (purged b dest s)
  purged-IsSettled dest s k (p, q) =
      (p, ap (map tracked) (purge_destination-view b jobs leaves dest s.world.outside k) ∙ q)

  pub handle_delete_destination-Settles :
      (param : Option ℕ) (purge : Bool)
      → Settles b law leaves (handle_delete_destination b param purge)
  unfolding handle_delete_destination
  handle_delete_destination-Settles param purge = given-Settles b law leaves param _ _ λ id _ s h.
      let dest = (purge_target b purge id s.world).0 in
      let w = (purge_target b purge id s.world).1 in
      let stays = purge_target-Stays b jobs leaves purge id (jobs s.world.outside) s.world in
      call-Settles b law leaves (on_db (delete_destination id)) in_use_status
        (λ _ s1. (respond 204 empty, reload_scheduler b (purged b dest s1)))
        (write-IsQuiet b jobs leaves (delete_destination id)
          (deletes_destination IsSafe IsSafe-Writes id))
        (λ _ _ _ s1 h1.
          reload_scheduler-IsSettled b law leaves (purged b dest s1)
            (purged-IsSettled dest s1 (stays (h.0, refl)).1 h1))
        (record s { world = w }) (world-IsSettled b law leaves w s (λ c. (stays c).0) h)

  with_destination-Settles :
      (param : Option ℕ) (filename : Text) (next : ℕ → Destination E → Handler E)
      → ((id : ℕ) (dest : Destination E)
          → LeavesDestination jobs dest
          → Settles b law leaves (next id dest))
      → Settles b law leaves (with_destination b param filename next)
  with_destination-Settles param filename next k = given-Settles b law leaves param _ _ λ id _.
      check-Settles b law leaves (not (is_empty filename)) _ _ (
        load-Settles id _ _ λ row.
          call-Settles b law leaves (build_destination b row) _ (next id)
            (build_destination-IsQuiet b jobs leaves row)
            λ dest w made. k id dest (build_destination-leaves b jobs leaves row w dest made))

  pub handle_download_backup-Settles :
      (param : Option ℕ) (filename : Text)
      → Settles b law leaves (handle_download_backup b param filename)
  unfolding handle_download_backup
  handle_download_backup-Settles param filename =
      with_destination-Settles param filename _ λ _ dest k.
        given-Settles b law leaves dest.reader _ _ λ open_backup has.
          call-Settles b law leaves (on_outside (open_backup filename)) _ _
            (outside-IsQuiet b jobs leaves (open_backup filename)
              (k.reader_lem open_backup has filename))
            λ _ _ _ s h. h

  pub handle_delete_backup-Settles :
      (param : Option ℕ) (filename : Text)
      → Settles b law leaves (handle_delete_backup b param filename)
  unfolding handle_delete_backup
  handle_delete_backup-Settles param filename =
      with_destination-Settles param filename _ λ dest_id dest k.
        given-Settles b law leaves dest.lister _ _ λ lister has.
          call-Settles b law leaves (on_outside (lister.delete filename)) _ _
            (outside-IsQuiet b jobs leaves (lister.delete filename)
              ((k.lister_lem lister has).delete_lem filename))
            λ _ _ _.
              look-Settles b law leaves
                (on_db (delete_run_destination_result_by_filename dest_id filename))
                (λ _. answer (respond 204 empty))
                (write-IsQuiet b jobs leaves
                  (delete_run_destination_result_by_filename dest_id filename)
                  (forgets_result IsSafe IsSafe-Writes dest_id filename))
                (λ _ s h. h)

  pub handle_list_backups-Settles :
      (seconds : Stamp → ℕ) → Settles b law leaves (handle_list_backups seconds b)
  unfolding handle_list_backups
  handle_list_backups-Settles seconds =
      call-Settles b law leaves (on_db list_destinations) _ _
        (read-IsQuiet b jobs leaves list_destinations list_destinations-tables)
        λ rows _ _.
          call-Settles b law leaves (on_db list_schedules) _ _
            (read-IsQuiet b jobs leaves list_schedules list_schedules-tables)
            λ schedules _ _ s h.
              world-IsSettled b law leaves
                (describe_destinations seconds b schedules rows s.world).1 s
                (describe_destinations-Stays b jobs leaves seconds schedules rows
                  (jobs s.world.outside) s.world)
                h
