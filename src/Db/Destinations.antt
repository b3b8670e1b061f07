-- ===== src/Db/Destinations.antt =====
-- internal/db/destinations.go
use loxbak.Base.{
  ℕ, suc, Bool, Option, none, some, List, [], ◌∷◌, ◌++◌, map, not, ltb, ◌==◌, if◌then◌else◌,
  keep_if, find_first, length, any_of,
}
use loxbak.Base.Results.{destination_not_found, destination_in_use}
use loxbak.Base.Text.{Text, txt}
use loxbak.Db.{Destination, ScheduleDestination, RunDestinationResult, Tables, M}
use loxbak.Db.Sql.{query, exec, wrapping, pure, fail, time_now, ◌>>=◌}

abbrev pub is_destination : ℕ → Destination → Bool
is_destination id d = d.id == id

unfoldable pub list_destinations : M (List Destination)
unfolding query
list_destinations = wrapping (txt "db: list destinations") (query (λ t. t.destinations))

abbrev found_destination : Option Destination → M Destination
found_destination none = fail destination_not_found
found_destination (some d) = pure d

unfoldable pub get_destination : ℕ → M Destination
unfolding query
get_destination id = do
  row ←
      wrapping (txt "db: get destination")
        (query (λ t. find_first (is_destination id) t.destinations))
  found_destination row

abbrev pub insert_destination : Text → Text → Text → Text → ℕ → Tables → Option (ℕ × Tables)
insert_destination name type config secret now t = some (
  t.next_destination,
  record t {
    destinations =
        t.destinations
        ++ record {
          id = t.next_destination;
          name = name;
          type = type;
          config_json = config;
          encrypted_secret = secret;
          created_at = now;
          updated_at = now;
        }
          ∷ [];
    next_destination = suc t.next_destination;
  },
)

unfoldable pub create_destination : Text → Text → Text → Text → M ℕ
unfolding exec
create_destination name type config secret = do
  now ← time_now
  wrapping (txt "db: create destination") (exec (insert_destination name type config secret now))

abbrev pub set_destination : ℕ → Text → Text → Text → Text → ℕ → Destination → Destination
set_destination id name type config secret now d =
    if is_destination id d
    then record d {
      name = name;
      type = type;
      config_json = config;
      encrypted_secret = secret;
      updated_at = now;
    }
    else d

-- The result is whether a row was there (`RowsAffected`).
abbrev pub update_destination_rows :
    ℕ → Text → Text → Text → Text → ℕ → Tables → Option (Bool × Tables)
update_destination_rows id name type config secret now t = some (
  any_of (is_destination id) t.destinations,
  record t { destinations = map (set_destination id name type config secret now) t.destinations },
)

unfoldable pub update_destination : ℕ → Text → Text → Text → Text → M (Unit {0})
unfolding exec
update_destination id name type config secret = do
  now ← time_now
  affected ←
      wrapping (txt "db: update destination")
        (exec (update_destination_rows id name type config secret now))
  if affected then pure tt else fail destination_not_found

abbrev pub links_to : ℕ → ScheduleDestination → Bool
links_to id l = l.destination_id == id

-- `ON DELETE SET NULL` of `run_destination_results.destination_id`
abbrev pub forget_id : ℕ → Option ℕ → Option ℕ
forget_id id none = none
forget_id id (some i) = if i == id then none else some i

abbrev pub forget_destination : ℕ → RunDestinationResult → RunDestinationResult
forget_destination id r = record r { destination_id = forget_id id r.destination_id }

-- `DELETE FROM destinations WHERE id = ?`, with the actions of the foreign keys: the links of the
-- destination go, and the results forget it.
abbrev pub delete_destination_rows : ℕ → Tables → Option (Bool × Tables)
delete_destination_rows id t = some (
  any_of (is_destination id) t.destinations,
  record t {
    destinations = keep_if (λ d. not (is_destination id d)) t.destinations;
    links = keep_if (λ l. not (links_to id l)) t.links;
    results = map (forget_destination id) t.results;
  },
)

unfoldable pub delete_destination : ℕ → M (Unit {0})
unfolding query exec
delete_destination id = do
  in_use ←
      wrapping (txt "db: check destination in use")
        (query (λ t. length (keep_if (links_to id) t.links)))
  if ltb 0 in_use then fail destination_in_use else do
    affected ← wrapping (txt "db: delete destination") (exec (delete_destination_rows id))
    if affected then pure tt else fail destination_not_found
