-- ===== src/Tests/Tables.antt =====
-- A small database, filled by calls of the package itself.
use loxbak.Base.{
  ℕ, ◌≡◌, refl, true, false, ◌==◌, some, List, [], ◌∷◌, map, ◌⊎◌, Error, ok, err, length,
}
use loxbak.Base.Results.{destination_in_use}
use loxbak.Base.Int.{pos}
use loxbak.Base.Text.{Text}
use loxbak.Db.{Db, ScheduleDestination, success, empty_tables}
use loxbak.Db.Calls
use loxbak.Db.Calls.{Call, perform, perform_all}
use loxbak.Db.Consistency.{IsConsistent}
use loxbak.Db.Destinations.{delete_destination}
use loxbak.Db.Links.{wanted, Replaced, set_schedule_destinations_atomic}
use loxbak.Db.Credentials.{upsert_credential}
use loxbak.Db.Schedules.{set_schedule_destinations}

abbrev pub working : Db
working = record {
  tables = empty_tables;
  step = 0;
  fails = λ n. false;
  clock = λ n. n;
  foreign_keys = true;
}

abbrev pub a_link : ℕ → ℕ → ScheduleDestination
a_link dest keep = record {
  id = 0;
  schedule_id = 0;
  destination_id = dest;
  retention_count = pos keep;
}

abbrev archive : Text
archive = b'a' ∷ b'.' ∷ b'z' ∷ []

abbrev set_up : List Call
set_up =
    Calls.create_schedule (b'd' ∷ []) [] true
    ∷ Calls.create_destination (b'n' ∷ []) [] [] []
    ∷ Calls.create_destination (b'o' ∷ []) [] [] []
    ∷ Calls.set_schedule_destinations 1 (a_link 1 3 ∷ a_link 2 0 ∷ [])
    ∷ Calls.create_run (some 1) 10
    ∷ Calls.finish_run 1 11 success (some 4) archive []
    ∷ Calls.create_run_destination_result 1 (some 1) success (some 4) []
    ∷ Calls.create_run_destination_result 1 (some 2) success (some 4) []
    ∷ Calls.create_run (some 1) 20
    ∷ []

-- The statement of number 9 fails.
abbrev flaky : Db
flaky = record working { fails = λ n. n == 9 }

pub empty-IsConsistent : IsConsistent empty_tables
empty-IsConsistent = record {
  link_schedules = tt;
  link_destinations = tt;
  link_unique = tt;
  run_schedules = tt;
  result_runs = tt;
  result_destinations = tt;
}

abbrev filled : Db
unfolding perform_all perform
filled = perform_all set_up working

refused : (delete_destination 1 filled).0 ≡ err destination_in_use
unfolding delete_destination filled
refused = refl

set_schedule_destinations_atomic_example :
    (((set_schedule_destinations 1 (a_link 2 1 ∷ []) filled).0 ≡ ok tt)
      × Replaced 1
          (map wanted (a_link 2 1 ∷ []))
          filled.tables
          (set_schedule_destinations 1 (a_link 2 1 ∷ []) filled).1.tables)
    ⊎ ((e : Error) × ((set_schedule_destinations 1 (a_link 2 1 ∷ []) filled).0 ≡ err e)
        × ((set_schedule_destinations 1 (a_link 2 1 ∷ []) filled).1.tables ≡ filled.tables))
set_schedule_destinations_atomic_example =
    set_schedule_destinations_atomic 1 (a_link 2 1 ∷ []) filled

duplicate :
    length (set_schedule_destinations 1 (a_link 2 1 ∷ a_link 2 5 ∷ []) filled).1.tables.links ≡ 2
unfolding set_schedule_destinations filled
duplicate = refl

-- A database in which a credential was stored before.
abbrev stored_once : Db
unfolding upsert_credential
stored_once = (upsert_credential (b'o' ∷ []) (pos 21) [] (1 ∷ []) working).1

abbrev stored_twice : Db
unfolding upsert_credential stored_once
stored_twice = (upsert_credential (b'h' ∷ []) (pos 2121) (b'u' ∷ []) (2 ∷ []) stored_once).1

stored_ok : (upsert_credential (b'h' ∷ []) (pos 2121) (b'u' ∷ []) (2 ∷ []) stored_once).0 ≡ ok tt
unfolding upsert_credential stored_once
stored_ok = refl
