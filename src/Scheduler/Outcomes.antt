-- ===== src/Scheduler/Outcomes.antt =====
-- What a run reports: every destination is tried, and the run succeeds exactly when all of them do.
use loxbak.Base.{
  ℕ, ◌≡◌, ap, false, is_ok, none, some, List, [], ◌∷◌, arith, any_of, all_of, keep_if, Option,
  errorf, if◌then◌else◌, Error, Result, ok, err,
}
use loxbak.Base.Text.{Text, txt}
use loxbak.Db.{ScheduleDestination, Db}
use loxbak.Db.Schedules.{links_of, list_schedule_destinations}
use loxbak.Db.Reads.{get_credential-tables}
use loxbak.Destinations.{BackupMeta}
use loxbak.Scheduler.World.{Outside, World}
use loxbak.Scheduler.Job.{Prepared, prepare, store_and_record, do_stores, do_run}

-- What a run is to report of these outcomes.
abbrev pub reported : List (Result (Unit {0})) → Option Error
reported rs =
    if all_of is_ok rs
    then none
    else if any_of is_ok rs
    then some (errorf (txt "backup partially failed: some destinations succeeded, others failed"))
    else some (errorf (txt "backup failed for all destinations"))

module _ {E : Type 0} (o : Outside E) where
  -- The outcome of each destination in turn, each in the state that the one before it left.
  pub outcomes : ℕ → BackupMeta → List ScheduleDestination → World E → List (Result (Unit {0}))
  outcomes run_id meta [] w = []
  outcomes run_id meta (link ∷ links) w =
      let (r, w1) = store_and_record o run_id meta link w in r ∷ outcomes run_id meta links w1

  Links : ℕ → World E → Result Prepared → Type 0
  Links id w r = (p : Prepared) → r ≡ ok p → p.links ≡ keep_if (links_of id) w.db.tables.links

  -- A run that gets no archive reports the error, no file name and no size, and stores nothing: it
  -- ends in the state in which the preparation failed.
  pub do_run_unprepared :
      (schedule_id run_id : ℕ) (w : World E) (e : Error)
      → (prepare o schedule_id w).0 ≡ err e
      → do_run o schedule_id run_id w
        ≡ (record { size = 0; filename = []; error = some e }, (prepare o schedule_id w).1)
  unfolding do_run
  do_run_unprepared schedule_id run_id w e bad =
      ap (λ r. do_stores o run_id (r, (prepare o schedule_id w).1)) bad

  -- A schedule without links never reaches the outside: no file is fetched and none is written, and
  -- the run fails.
  pub prepare_no_links :
      (schedule_id : ℕ) (w : World E)
      → keep_if (links_of schedule_id) w.db.tables.links ≡ []
      → ((prepare o schedule_id w).1.outside ≡ w.outside)
        × (is_ok (prepare o schedule_id w).0 ≡ false)
  unfolding prepare list_schedule_destinations
  prepare_no_links schedule_id w h = ground (arith, get_credential-tables w.db)
