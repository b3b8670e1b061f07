-- ===== src/Tests/Runs.antt =====
-- Runs in a small world: two destinations, of which the second refuses every store.
use loxbak.Base.{
  ◌==◌, if◌then◌else◌, ◌≡◌, refl, ◌⊎◌, Bool, true, false, is_ok, any_of, if◌then◌else◌, none, some,
  List, [], ◌∷◌, ◌++◌, map, errorf, ok, err,
}
use loxbak.Base.Int.{pos}
use loxbak.Base.Text.{Text, text_eq}
use loxbak.Crypto.{decrypt}
use loxbak.Db.Calls
use loxbak.Db.Calls.{Call, perform, perform_all}
use loxbak.Db.Credentials.{get_credential, upsert_credential}
use loxbak.Db.Destinations.{get_destination}
use loxbak.Db.Runs.{known_run, create_run, create_run_destination_result}
use loxbak.Db.Schedules.{list_schedule_destinations, get_schedule}
use loxbak.Destinations.{Destination}
use loxbak.Scheduler.Job.{Prepared, do_run, execute_and_finish, trigger_run, run_pending}
use loxbak.Scheduler.Finishes.{unfinished, trigger_run_finishes}
use loxbak.Scheduler.Records.{Answers, ended, execute_and_finish-row}
use loxbak.Scheduler.World.{Outside, World}
use loxbak.Tests.Secrets.{plain_cipher, digest}
use loxbak.Tests.Tables.{working, a_link}

-- The outside is the list of what was stored.
abbrev sink : Bool → Destination (List Text)
sink accepts = record {
  name = [];
  store = λ meta content s. if accepts then (ok tt, content ∷ s) else (err (errorf []), s);
  lister = none;
  reader = none;
}

abbrev pub outside : Outside (List Text)
outside = record {
  mirror = λ host port user password s. (ok tt, s);
  archive_dir = λ name s. (ok (record { filename = name; size = 3 }), s);
  open_archive = λ s. (ok (b'z' ∷ []), s);
  remove_archive = λ s. s;
  build = λ type name config secret. ok (sink (text_eq type (b'l' ∷ [])));
  cipher = plain_cipher;
  master_key = [];
}

abbrev set_up : List Call
set_up =
    Calls.create_schedule (b'd' ∷ []) [] true
    ∷ Calls.create_destination (b'n' ∷ []) (b'l' ∷ []) [] []
    ∷ Calls.create_destination (b'o' ∷ []) (b'f' ∷ []) [] []
    ∷ Calls.set_schedule_destinations 1 (a_link 1 3 ∷ a_link 2 0 ∷ [])
    ∷ Calls.create_run (some 1) 10
    ∷ Calls.create_schedule (b'e' ∷ []) [] true
    ∷ []

abbrev sealed : Text
sealed = 7 ∷ 7 ∷ (digest ++ b'p' ∷ [])

unfoldable pub world : World (List Text)
unfolding perform_all perform upsert_credential
world = record {
  db = perform_all set_up (upsert_credential [] (pos 21) [] sealed working).1;
  outside = [];
  pending = [];
}

abbrev prepared : Prepared
prepared = record {
  links =
      record { id = 1; schedule_id = 1; destination_id = 1; retention_count = pos 3 }
      ∷ record { id = 2; schedule_id = 1; destination_id = 2; retention_count = pos 0 }
      ∷ [];
  schedule_name = b'd' ∷ [];
  archive = record { filename = b'd' ∷ []; size = 3 };
}

stored : (do_run outside 1 1 world).1.outside ≡ (b'z' ∷ []) ∷ []
unfolding do_run decrypt text_eq get_credential world list_schedule_destinations get_schedule
    get_destination
stored = refl

execute_and_finish-row_example :
    let out = (do_run outside 1 1 world).0 in
    let w1 = (do_run outside 1 1 world).1 in
    let r = execute_and_finish outside 1 1 world in
    ((known_run w1.db.tables 1 ≡ true)
      × Answers out.error r.0
      × (r.1.db.tables.runs
          ≡ map
              (λ row. if row.id == 1 then ended (w1.db.clock w1.db.step) out row else row)
              w1.db.tables.runs))
    ⊎ (((w1.db.fails w1.db.step ≡ true) ⊎ (known_run w1.db.tables 1 ≡ false))
        × (is_ok r.0 ≡ false)
        × (r.1.db.tables.runs ≡ w1.db.tables.runs))
execute_and_finish-row_example = execute_and_finish-row outside 1 1 world

triggered : (trigger_run outside 1 world).0 ≡ ok 2
unfolding trigger_run create_run world
triggered = refl

end_works :
    let w2 = (do_run outside 1 2 (trigger_run outside 1 world).1).1 in
    w2.db.fails w2.db.step ≡ false
unfolding trigger_run create_run do_run decrypt text_eq get_credential world
    list_schedule_destinations get_schedule get_destination create_run_destination_result
end_works = refl

trigger_run_finishes_example :
    let w1 = (trigger_run outside 1 world).1 in
    let w3 = run_pending outside (record { schedule_id = 1; run_id = 2 }) w1 in
    (any_of (unfinished 2) w1.db.tables.runs ≡ true)
    × (any_of (unfinished 2) w3.db.tables.runs ≡ false)
    × (known_run w3.db.tables 2 ≡ true)
trigger_run_finishes_example = trigger_run_finishes outside 1 2 world triggered end_works
