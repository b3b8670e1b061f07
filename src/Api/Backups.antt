-- ===== src/Api/Backups.antt =====
-- The download and the removal of one archive (internal/api/backups.go).
use loxbak.Base.{ℕ, not, Option}
use loxbak.Base.Text.{Text, txt, is_empty}
use loxbak.Api.{
  Backend, Handler, respond, failed_with, empty, archive, answer, check, given, call, look,
}
use loxbak.Api.Destinations.{build_destination}
use loxbak.Db.Destinations.{get_destination}
use loxbak.Db.Runs.{delete_run_destination_result_by_filename}
use loxbak.Destinations.{Destination}
use loxbak.Scheduler.World.{on_db, on_outside}

module _ {E : Type 0} (b : Backend E) where
  -- What both handlers begin with: the destination of the path.
  abbrev pub with_destination : Option ℕ → Text → (ℕ → Destination E → Handler E) → Handler E
  with_destination param filename next =
      given param (failed_with 400 (txt "invalid destination id")) (λ dest_id.
        check (not (is_empty filename)) (failed_with 400 (txt "invalid filename")) (
          call (on_db (get_destination dest_id))
            (λ _. failed_with 404 (txt "destination not found"))
            (λ row.
              call (build_destination b row)
                (λ _. failed_with 500 (txt "failed to build destination")) (next dest_id))))

  -- The content is sent whole.
  unfoldable pub handle_download_backup : Option ℕ → Text → Handler E
  unfolding build_destination
  handle_download_backup param filename = with_destination param filename (λ _ dest.
      given dest.reader
        (failed_with 404 (txt "this destination doesn't support downloading backups"))
        (λ open_backup.
          call (on_outside (open_backup filename)) (λ _. failed_with 404 (txt "backup not found"))
            (λ content. answer (respond 200 (archive filename content)))))

  -- An error of the clean-up of the history is logged only.
  unfoldable pub handle_delete_backup : Option ℕ → Text → Handler E
  unfolding build_destination
  handle_delete_backup param filename = with_destination param filename (λ dest_id dest.
      given dest.lister (failed_with 404 (txt "this destination doesn't support removing backups"))
        (λ lister.
          call (on_outside (lister.delete filename))
            (λ _. failed_with 500 (txt "failed to delete backup"))
            (λ _.
              look (on_db (delete_run_destination_result_by_filename dest_id filename))
                (λ _. answer (respond 204 empty)))))
