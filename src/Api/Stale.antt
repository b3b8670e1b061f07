-- ===== src/Api/Stale.antt =====
-- A change of a schedule (internal/api/schedules.go) whose destinations are refused.
use loxbak.Base.{
  ℕ, ◌≡◌, refl, ap, ◌∙◌, Bool, true, false, not, some, List, [], ◌∷◌, map, any_of, Bool-cases, inl,
  inr, arith, Error, Result, ok, err, is_ok, suc, ◌==◌, if◌then◌else◌,
}
use loxbak.Base.Text.{txt}
use loxbak.Api.{ScheduleDestinationInput, Backend, Server}
use loxbak.Api.Schedules.{ScheduleRequest, is_complete, to_link, handle_update_schedule}
use loxbak.Db.{Schedule, ScheduleDestination, Tables, Db, M}
use loxbak.Db.Runs.{known_schedule, known_destination}
use loxbak.Db.Schedules.{
  set_schedule, update_schedule, link_allowed, insert_links, replace_links,
  set_schedule_destinations,
}
use loxbak.Db.Sql.{roll_back, continue, query, wrapping}

-- A link to a destination that there is not.
abbrev pub dangles : Tables → ScheduleDestination → Bool
dangles t l = not (known_destination t l.destination_id)

refused_at :
    (id : ℕ) (l : ScheduleDestination) (t : Tables)
    → dangles t l ≡ true
    → link_allowed id l.destination_id t ≡ false
refused_at id l t h = ground arith

insert_links-dangles :
    (id : ℕ) (ls : List ScheduleDestination) (d : Db)
    → any_of (dangles d.tables) ls ≡ true
    → is_ok (insert_links id ls d).0 ≡ false
unfolding insert_links
insert_links-dangles id [] d h = cc
insert_links-dangles id (l ∷ ls) d h = elim (Bool-cases (d.fails d.step)) [
  | inl fails ↦ rw fails refl
  | inr works ↦ elim (Bool-cases (link_allowed id l.destination_id d.tables)) [
    | inr refused ↦ rw (works, refused) refl
    | inl allowed ↦ rw (works, allowed) (insert_links-dangles id ls _ (ground arith))
  ]
]

module _ {A B : Type 0} (f : A → M B) where
  continue-refused : (r : Result A) (d : Db) → is_ok r ≡ false → is_ok (continue r f d).0 ≡ false
  continue-refused (ok a) d h = cc
  continue-refused (err e) d h = refl

replace_links-dangles :
    (id : ℕ) (ls : List ScheduleDestination) (d : Db)
    → any_of (dangles d.tables) ls ≡ true
    → is_ok (replace_links id ls d).0 ≡ false
unfolding replace_links
replace_links-dangles id ls d h = elim (Bool-cases (d.fails d.step)) [
  | inl fails ↦ rw fails refl
  | inr begun ↦ elim (Bool-cases (d.fails (suc d.step))) [
    | inl fails ↦ rw (begun, fails) refl
    | inr cleared ↦
        rw (begun, cleared)
          (continue-refused (λ _. wrapping (txt "db: set schedule destinations") (query (λ _. tt)))
            _ _ (insert_links-dangles id ls _ h))
  ]
]

roll_back-refused :
    (t : Tables) (r : Result (Unit {0}) × Db)
    → is_ok r.0 ≡ false
    → (e : Error) × ((roll_back t r).0 ≡ err e) × ((roll_back t r).1.tables ≡ t)
roll_back-refused t (ok x, d) h = cc
roll_back-refused t (err e, d) h = (e, refl, refl)

set_schedule_destinations-dangles :
    (id : ℕ) (ls : List ScheduleDestination) (d : Db)
    → any_of (dangles d.tables) ls ≡ true
    → (e : Error) × ((set_schedule_destinations id ls d).0 ≡ err e)
      × ((set_schedule_destinations id ls d).1.tables ≡ d.tables)
unfolding set_schedule_destinations
set_schedule_destinations-dangles id ls d h =
    roll_back-refused d.tables (replace_links id ls d) (replace_links-dangles id ls d h)

any_to_link :
    (id : ℕ) (known : ℕ → Bool) (inputs : List ScheduleDestinationInput)
    → any_of (λ (l : ScheduleDestination). not (known l.destination_id)) (map (to_link id) inputs)
      ≡ any_of (λ (x : ScheduleDestinationInput). not (known x.destination_id)) inputs
any_to_link id known [] = refl
any_to_link id known (x ∷ inputs) = rw (any_to_link id known inputs) refl

-- A row with what a request to change it asks for.
abbrev pub changed : ScheduleRequest → ℕ → Schedule → Schedule
changed req now x = record {
  id = x.id;
  name = req.name;
  cron_expr = req.cron_expr;
  enabled = req.enabled;
  created_at = x.created_at;
  updated_at = now;
}

module _ {E : Type 0} (b : Backend E) where
  -- If a request to change a schedule that exists names a destination that does not, and the update of the
  -- schedule's row goes through, then the response has status 500, but the row has the new name, expression
  -- and state and the time of the change, and every other schedule is as before, while the entries of the scheduler and everything outside, the jobs of the cron library
  -- included, stay as they were.
  pub handle_update_schedule_stale :
      (id : ℕ) (req : ScheduleRequest) (s : Server E)
      → is_complete req ≡ true
      → known_schedule s.world.db.tables id ≡ true
      → s.world.db.fails s.world.db.step ≡ false
      → any_of (λ x. not (known_destination s.world.db.tables x.destination_id)) req.destinations
        ≡ true
      → let r = handle_update_schedule b (some id) (some req) s in
        let now = s.world.db.clock s.world.db.step in
        (r.0.status ≡ 500)
        × (r.1.world.db.tables.schedules
            ≡ map (λ x. if x.id == id then changed req now x else x) s.world.db.tables.schedules)
        × (r.1.entries ≡ s.entries)
        × (r.1.world.outside ≡ s.world.outside)
  unfolding handle_update_schedule update_schedule
  handle_update_schedule_stale id req s complete there works unknown =
      let now = s.world.db.clock s.world.db.step in
      let set = set_schedule id req.name req.cron_expr req.enabled now in
      let d : Db = record s.world.db {
        tables = record s.world.db.tables { schedules = map set s.world.db.tables.schedules };
        step = suc s.world.db.step;
      } in
      let (e, refused, kept) =
        set_schedule_destinations-dangles id (map (to_link id) req.destinations) d
          (any_to_link id (known_destination s.world.db.tables) req.destinations ∙ unknown) in
      rw (complete, works, there, refused) (refl, ap (λ (t : Tables). t.schedules) kept, refl, refl)
