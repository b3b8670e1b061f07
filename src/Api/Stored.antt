-- ===== src/Api/Stored.antt =====
-- What the tables hold of a schedule that a request creates, with the links that it asks for
-- (internal/api/schedules.go, internal/db/schedules.go).
use loxbak.Base.{
  ℕ, ◌<◌, ◌≡◌, refl, ap, sym, ◌∙◌, Bool, some, List, [], ◌∷◌, ◌++◌, map, All, find_first, keep_if,
  ==_refl, Bool-cases, inl, inr, arith, ok, ok-injective, err-ne-ok,
}
use loxbak.Base.Int.{ℤ}
use loxbak.Base.Text.{Text}
use loxbak.Api.{ScheduleDestinationInput}
use loxbak.Api.Schedules.{ScheduleRequest, to_input, to_link}
use loxbak.Db.{Schedule, ScheduleDestination, Tables, Db}
use loxbak.Db.Links.{wanted, Replaced, set_schedule_destinations_atomic}
use loxbak.Db.Numbering.{IsNumbered}
use loxbak.Db.Schedules.{
  is_schedule, links_of, create_schedule, get_schedule, set_schedule_destinations,
}

-- What the tables hold of a schedule.
pub record Stored (id : ℕ) (req : ScheduleRequest) (t : Tables) : Type 0 where
  pub row : Schedule
  pub found : find_first (is_schedule id) t.schedules ≡ some row
  pub id_lem : row.id ≡ id
  pub name_lem : row.name ≡ req.name
  pub cron_lem : row.cron_expr ≡ req.cron_expr
  pub enabled_lem : row.enabled ≡ req.enabled
  pub links_lem : map to_input (keep_if (links_of id) t.links) ≡ req.destinations

find_first-fresh :
    (n : ℕ) (row : Schedule) (ss : List Schedule)
    → row.id ≡ n
    → All (λ s. s.id < n) ss
    → find_first (is_schedule n) (ss ++ row ∷ []) ≡ some row
find_first-fresh n row [] e h = rw (e, ==_refl n) refl
find_first-fresh n row (s ∷ ss) e (lt, h) = ground (arith, find_first-fresh n row ss e h)

new_row : Text → Text → Bool → Db → Schedule
new_row name cron on d = record {
  id = d.tables.next_schedule;
  name = name;
  cron_expr = cron;
  enabled = on;
  created_at = d.clock d.step;
  updated_at = d.clock d.step;
}

create_schedule-ok :
    (name cron : Text) (on : Bool) (d : Db) (id : ℕ)
    → (create_schedule name cron on d).0 ≡ ok id
    → (id ≡ d.tables.next_schedule)
      × ((create_schedule name cron on d).1.tables.schedules
          ≡ d.tables.schedules ++ new_row name cron on d ∷ [])
unfolding create_schedule new_row
create_schedule-ok name cron on d id e = elim (Bool-cases (d.fails d.step)) [
  | inl fails ↦ absurd (err-ne-ok (rw fails at e))
  | inr works ↦ (sym (ok-injective _ id (rw works at e)), rw works refl)
]

inputs_back :
    (id : ℕ) (ls : List ScheduleDestination) (inputs : List ScheduleDestinationInput)
    → map wanted ls ≡ map wanted (map (to_link id) inputs)
    → map to_input ls ≡ inputs
inputs_back id ls inputs e = back ls ∙ ap (map input) e ∙ forth inputs
  where
    input : ℕ × ℤ → ScheduleDestinationInput
    input (d, r) = record { destination_id = d; retention_count = r }

    back : (ls : List ScheduleDestination) → map to_input ls ≡ map input (map wanted ls)
    back [] = refl
    back (l ∷ ls) = ap (λ t. to_input l ∷ t) (back ls)

    forth : (xs : List ScheduleDestinationInput) → map input (map wanted (map (to_link id) xs)) ≡ xs
    forth [] = refl
    forth (x ∷ xs) = ap (λ t. x ∷ t) (forth xs)

set_schedule_destinations-ok :
    (id : ℕ) (ls : List ScheduleDestination) (d : Db)
    → (set_schedule_destinations id ls d).0 ≡ ok tt
    → Replaced id (map wanted ls) d.tables (set_schedule_destinations id ls d).1.tables
set_schedule_destinations-ok id ls d e = elim (set_schedule_destinations_atomic id ls d) [
  | inl (_, replaced) ↦ replaced
  | inr (x, failed, _) ↦ absurd (err-ne-ok (sym failed ∙ e))
]

pub get_schedule-ok :
    (id : ℕ) (req : ScheduleRequest) (d : Db) (sched : Schedule)
    → Stored id req d.tables
    → (get_schedule id d).0 ≡ ok sched
    → sched.id ≡ id
unfolding get_schedule
get_schedule-ok id req d sched stored e = elim (Bool-cases (d.fails d.step)) [
  | inl fails ↦ absurd (err-ne-ok (rw fails at e))
  | inr works ↦
      ap (λ (x : Schedule). x.id)
        (sym (ok-injective stored.row sched (rw (works, stored.found) at e)))
      ∙ stored.id_lem
]

pub created-Stored :
    (req : ScheduleRequest) (d : Db) (id : ℕ)
    → IsNumbered d.tables
    → let d1 = (create_schedule req.name req.cron_expr req.enabled d).1 in
      let ls = map (to_link id) req.destinations in
      (create_schedule req.name req.cron_expr req.enabled d).0 ≡ ok id
      → (set_schedule_destinations id ls d1).0 ≡ ok tt
      → Stored id req (set_schedule_destinations id ls d1).1.tables
unfolding new_row
created-Stored req d id numbered made linked =
    let d1 = (create_schedule req.name req.cron_expr req.enabled d).1 in
    let ls = map (to_link id) req.destinations in
    let (fresh, rows) = create_schedule-ok req.name req.cron_expr req.enabled d id made in
    let (own, _, same) = set_schedule_destinations-ok id ls d1 linked in
    record {
      row = new_row req.name req.cron_expr req.enabled d;
      found =
          ap (λ (t : Tables). find_first (is_schedule id) t.schedules) same
          ∙ ap (find_first (is_schedule id)) rows
          ∙ rw fresh
              (find_first-fresh d.tables.next_schedule _ d.tables.schedules refl numbered.below);
      id_lem = sym fresh;
      name_lem = refl;
      cron_lem = refl;
      enabled_lem = refl;
      links_lem = inputs_back id _ req.destinations own;
    }
