-- ===== src/Db/Schedules.antt =====
-- internal/db/schedules.go
use loxbak.Base.{
  ℕ, suc, Bool, ◌&&◌, Option, none, some, List, [], ◌∷◌, ◌++◌, map, not, ◌==◌, if◌then◌else◌,
  keep_if, find_first, any_of,
}
use loxbak.Base.Results.{schedule_not_found}
use loxbak.Base.Text.{Text, txt}
use loxbak.Db.{Schedule, ScheduleDestination, Run, Tables, M}
use loxbak.Db.Destinations.{is_destination, forget_id}
use loxbak.Db.Sql.{query, exec, wrapping, pure, fail, time_now, roll_back, ◌>>=◌, ◌>>◌}

abbrev pub is_schedule : ℕ → Schedule → Bool
is_schedule id s = s.id == id

abbrev pub links_of : ℕ → ScheduleDestination → Bool
links_of id l = l.schedule_id == id

unfoldable pub list_schedules : M (List Schedule)
unfolding query
list_schedules = wrapping (txt "db: list schedules") (query (λ t. t.schedules))

unfoldable pub list_enabled_schedules : M (List Schedule)
unfolding query
list_enabled_schedules =
    wrapping (txt "db: list enabled schedules") (query (λ t. keep_if (λ s. s.enabled) t.schedules))

abbrev found_schedule : Option Schedule → M Schedule
found_schedule none = fail schedule_not_found
found_schedule (some s) = pure s

unfoldable pub get_schedule : ℕ → M Schedule
unfolding query
get_schedule id = do
  row ← wrapping (txt "db: get schedule") (query (λ t. find_first (is_schedule id) t.schedules))
  found_schedule row

abbrev pub insert_schedule : Text → Text → Bool → ℕ → Tables → Option (ℕ × Tables)
insert_schedule name cron_expr enabled now t = some (
  t.next_schedule,
  record t {
    schedules =
        t.schedules
        ++ record {
          id = t.next_schedule;
          name = name;
          cron_expr = cron_expr;
          enabled = enabled;
          created_at = now;
          updated_at = now;
        }
          ∷ [];
    next_schedule = suc t.next_schedule;
  },
)

unfoldable pub create_schedule : Text → Text → Bool → M ℕ
unfolding exec
create_schedule name cron_expr enabled = do
  now ← time_now
  wrapping (txt "db: create schedule") (exec (insert_schedule name cron_expr enabled now))

abbrev pub set_schedule : ℕ → Text → Text → Bool → ℕ → Schedule → Schedule
set_schedule id name cron_expr enabled now s =
    if is_schedule id s
    then record s { name = name; cron_expr = cron_expr; enabled = enabled; updated_at = now }
    else s

abbrev pub update_schedule_rows : ℕ → Text → Text → Bool → ℕ → Tables → Option (Bool × Tables)
update_schedule_rows id name cron_expr enabled now t = some (
  any_of (is_schedule id) t.schedules,
  record t { schedules = map (set_schedule id name cron_expr enabled now) t.schedules },
)

unfoldable pub update_schedule : ℕ → Text → Text → Bool → M (Unit {0})
unfolding exec
update_schedule id name cron_expr enabled = do
  now ← time_now
  affected ←
      wrapping (txt "db: update schedule")
        (exec (update_schedule_rows id name cron_expr enabled now))
  if affected then pure tt else fail schedule_not_found

-- `ON DELETE SET NULL` of `runs.schedule_id`
abbrev pub forget_schedule : ℕ → Run → Run
forget_schedule id r = record r { schedule_id = forget_id id r.schedule_id }

-- `DELETE FROM schedules WHERE id = ?`, with the actions of the foreign keys: the links of the
-- schedule go, and its runs forget it.
abbrev pub delete_schedule_rows : ℕ → Tables → Option (Bool × Tables)
delete_schedule_rows id t = some (
  any_of (is_schedule id) t.schedules,
  record t {
    schedules = keep_if (λ s. not (is_schedule id s)) t.schedules;
    links = keep_if (λ l. not (links_of id l)) t.links;
    runs = map (forget_schedule id) t.runs;
  },
)

unfoldable pub delete_schedule : ℕ → M (Unit {0})
unfolding exec
delete_schedule id = do
  affected ← wrapping (txt "db: delete schedule") (exec (delete_schedule_rows id))
  if affected then pure tt else fail schedule_not_found

unfoldable pub list_schedule_destinations : ℕ → M (List ScheduleDestination)
unfolding query
list_schedule_destinations id =
    wrapping (txt "db: list schedule destinations") (query (λ t. keep_if (links_of id) t.links))

abbrev pub clear_links : ℕ → Tables → Option (Unit {0} × Tables)
clear_links id t = some (tt, record t { links = keep_if (λ l. not (links_of id l)) t.links })

-- The two foreign keys, and `UNIQUE (schedule_id, destination_id)`.
abbrev pub link_allowed : ℕ → ℕ → Tables → Bool
link_allowed schedule_id destination_id t =
    any_of (is_schedule schedule_id) t.schedules
    && any_of (is_destination destination_id) t.destinations
    && not (any_of (λ l. links_of schedule_id l && l.destination_id == destination_id) t.links)

-- The caller's row counts for its destination and its retention only.
abbrev pub insert_link : ℕ → ScheduleDestination → Tables → Option (Unit {0} × Tables)
insert_link schedule_id l t =
    if link_allowed schedule_id l.destination_id t
    then some (
      tt,
      record t {
        links =
            t.links
            ++ record {
              id = t.next_link;
              schedule_id = schedule_id;
              destination_id = l.destination_id;
              retention_count = l.retention_count;
            }
              ∷ [];
        next_link = suc t.next_link;
      },
    )
    else none

unfoldable pub insert_links : ℕ → List ScheduleDestination → M (Unit {0})
unfolding exec
insert_links schedule_id [] = pure tt
insert_links schedule_id (l ∷ rest) = do
  wrapping (txt "db: insert schedule destination") (exec (insert_link schedule_id l))
  insert_links schedule_id rest

-- `Begin` and `Commit` are statements that may fail and change no row. A `Commit` that fails ends the transaction
-- without its changes (the deferred `Rollback` has nothing left to do then).
unfoldable pub replace_links : ℕ → List ScheduleDestination → M (Unit {0})
unfolding query exec insert_links
replace_links schedule_id links = do
  wrapping (txt "db: set schedule destinations") (query (λ _. tt))
  wrapping (txt "db: clear schedule destinations") (exec (clear_links schedule_id))
  insert_links schedule_id links
  wrapping (txt "db: set schedule destinations") (query (λ _. tt))

unfoldable pub set_schedule_destinations : ℕ → List ScheduleDestination → M (Unit {0})
unfolding replace_links
set_schedule_destinations schedule_id links d =
    roll_back d.tables (replace_links schedule_id links d)
