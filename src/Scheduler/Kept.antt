-- ===== src/Scheduler/Kept.antt =====
-- A round of the loop over the destinations (`storeToDestination`, internal/scheduler/job.go) at a local destination,
-- with its pruning.
use loxbak.Base.{ℕ, List, drop}
use loxbak.Base.Text.{Text}
use loxbak.Db
use loxbak.Archive.{archive_prefix}
use loxbak.Destinations.{BackupEntry, matched}
use loxbak.Destinations.Retention.{names}
use loxbak.Scheduler.World.{World}

-- The archives that pruning is to delete, of those listed.
abbrev pub surplus : Text → ℕ → List BackupEntry → List Text
surplus schedule_name keep es = names (drop keep (matched (archive_prefix schedule_name) es))
