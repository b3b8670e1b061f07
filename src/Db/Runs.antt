-- ===== src/Db/Runs.antt =====
-- internal/db/runs.go
use loxbak.Base.{
  ℕ, suc, Bool, true, false, ◌&&◌, Option, none, some, List, [], ◌∷◌, ◌++◌, map, not, ltb, ◌==◌,
  if◌then◌else◌, keep_if, find_first, any_of, take, drop,
}
use loxbak.Base.Results.{run_not_found}
use loxbak.Base.Text.{Text, txt, text_eq, is_empty}
use loxbak.Db.{Run, RunDestinationResult, Status, running, Tables, M}
use loxbak.Db.Destinations.{is_destination}
use loxbak.Db.Schedules.{is_schedule}
use loxbak.Db.Sql.{query, exec, wrapping, pure, fail, ◌>>=◌}

abbrev pub is_run : ℕ → Run → Bool
is_run id r = r.id == id

-- A foreign key that may be NULL.
abbrev pub refers : (ℕ → Bool) → Option ℕ → Bool
refers known none = true
refers known (some id) = known id

abbrev pub known_schedule : Tables → ℕ → Bool
known_schedule t id = any_of (is_schedule id) t.schedules

abbrev pub known_destination : Tables → ℕ → Bool
known_destination t id = any_of (is_destination id) t.destinations

abbrev pub known_run : Tables → ℕ → Bool
known_run t id = any_of (is_run id) t.runs

abbrev pub insert_run : Option ℕ → ℕ → Tables → Option (ℕ × Tables)
insert_run schedule_id started_at t =
    if refers (known_schedule t) schedule_id
    then some (
      t.next_run,
      record t {
        runs =
            t.runs
            ++ record {
              id = t.next_run;
              schedule_id = schedule_id;
              started_at = started_at;
              finished_at = none;
              status = running;
              size_bytes = none;
              error = none;
              filename = none;
            }
              ∷ [];
        next_run = suc t.next_run;
      },
    )
    else none

unfoldable pub create_run : Option ℕ → ℕ → M ℕ
unfolding exec
create_run schedule_id started_at =
    wrapping (txt "db: create run") (exec (insert_run schedule_id started_at))

-- A `sql.NullString` that is NULL for the empty string.
abbrev pub null_string : Text → Option Text
null_string s = if is_empty s then none else some s

abbrev pub set_finished : ℕ → ℕ → Status → Option ℕ → Text → Text → Run → Run
set_finished id finished_at status size_bytes filename run_err r =
    if is_run id r
    then record r {
      finished_at = some finished_at;
      status = status;
      size_bytes = size_bytes;
      error = null_string run_err;
      filename = null_string filename;
    }
    else r

abbrev pub finish_run_rows :
    ℕ → ℕ → Status → Option ℕ → Text → Text → Tables → Option (Bool × Tables)
finish_run_rows id finished_at status size_bytes filename run_err t = some (
  known_run t id,
  record t { runs = map (set_finished id finished_at status size_bytes filename run_err) t.runs },
)

unfoldable pub finish_run : ℕ → ℕ → Status → Option ℕ → Text → Text → M (Unit {0})
unfolding exec
finish_run id finished_at status size_bytes filename run_err = do
  affected ←
      wrapping (txt "db: finish run")
        (exec (finish_run_rows id finished_at status size_bytes filename run_err))
  if affected then pure tt else fail run_not_found

abbrev found_run : Option Run → M Run
found_run none = fail run_not_found
found_run (some r) = pure r

unfoldable pub get_run : ℕ → M Run
unfolding query
get_run id = do
  row ← wrapping (txt "db: get run") (query (λ t. find_first (is_run id) t.runs))
  found_run row

-- `ORDER BY started_at DESC`; rows of one time keep the order of their ids.
unfoldable pub insert_by_start : Run → List Run → List Run
insert_by_start r [] = r ∷ []
insert_by_start r (x ∷ xs) =
    if ltb x.started_at r.started_at then r ∷ x ∷ xs else x ∷ insert_by_start r xs

unfoldable pub newest_first : List Run → List Run → List Run
newest_first sorted [] = sorted
newest_first sorted (r ∷ rs) = newest_first (insert_by_start r sorted) rs

-- `column = ?`, which does not hold of NULL
abbrev pub is_id : ℕ → Option ℕ → Bool
is_id id none = false
is_id id (some i) = i == id

abbrev pub of_schedule : Option ℕ → Run → Bool
of_schedule none r = true
of_schedule (some id) r = is_id id r.schedule_id

unfoldable pub list_runs : Option ℕ → ℕ → ℕ → M (List Run)
unfolding query insert_by_start newest_first
list_runs schedule_id limit offset = wrapping (txt "db: list runs") (
    query
      (λ t. take limit (drop offset (newest_first [] (keep_if (of_schedule schedule_id) t.runs)))))

abbrev pub insert_result : ℕ → Option ℕ → Status → Option ℕ → Text → Tables → Option (ℕ × Tables)
insert_result run_id destination_id status size_bytes result_err t =
    if known_run t run_id && refers (known_destination t) destination_id
    then some (
      t.next_result,
      record t {
        results =
            t.results
            ++ record {
              id = t.next_result;
              run_id = run_id;
              destination_id = destination_id;
              status = status;
              size_bytes = size_bytes;
              error = null_string result_err;
            }
              ∷ [];
        next_result = suc t.next_result;
      },
    )
    else none

unfoldable pub create_run_destination_result : ℕ → Option ℕ → Status → Option ℕ → Text → M ℕ
unfolding exec
create_run_destination_result run_id destination_id status size_bytes result_err =
    wrapping (txt "db: create run destination result")
      (exec (insert_result run_id destination_id status size_bytes result_err))

abbrev pub result_of : ℕ → RunDestinationResult → Bool
result_of run_id r = r.run_id == run_id

unfoldable pub list_run_destination_results : ℕ → M (List RunDestinationResult)
unfolding query
list_run_destination_results run_id =
    wrapping (txt "db: list run destination results")
      (query (λ t. keep_if (result_of run_id) t.results))

abbrev pub is_some_text : Text → Option Text → Bool
is_some_text s none = false
is_some_text s (some t) = text_eq t s

-- `r.id = rdr.run_id AND r.filename = ?`
abbrev pub produced : ℕ → Text → Run → Bool
produced run_id filename r = is_run run_id r && is_some_text filename r.filename

-- `destination_id = ? AND run_id IN (SELECT id FROM runs WHERE filename = ?)`
abbrev pub stored_as : Tables → ℕ → Text → RunDestinationResult → Bool
stored_as t destination_id filename r =
    is_id destination_id r.destination_id && any_of (produced r.run_id filename) t.runs

abbrev pub delete_results : ℕ → Text → Tables → Option (Unit {0} × Tables)
delete_results destination_id filename t = some (
  tt,
  record t { results = keep_if (λ r. not (stored_as t destination_id filename r)) t.results },
)

unfoldable pub delete_run_destination_result_by_filename : ℕ → Text → M (Unit {0})
unfolding exec
delete_run_destination_result_by_filename destination_id filename =
    wrapping (txt "db: delete run destination result by filename")
      (exec (delete_results destination_id filename))

pub record RunInfo : Type 0 where
  pub schedule_id : Option ℕ
  pub started_at : ℕ
  pub finished_at : Option ℕ

abbrev run_info : Option Run → Option RunInfo
run_info none = none
run_info (some r) =
    some (record {
      schedule_id = r.schedule_id;
      started_at = r.started_at;
      finished_at = r.finished_at;
    })

-- The join, its rows in the order of the results, `LIMIT 1`.
unfoldable pub find_run_info : List Run → ℕ → Text → List RunDestinationResult → Option RunInfo
find_run_info runs destination_id filename [] = none
find_run_info runs destination_id filename (r ∷ rest) =
    let later = find_run_info runs destination_id filename rest in
    if is_id destination_id r.destination_id && any_of (produced r.run_id filename) runs
    then run_info (find_first (produced r.run_id filename) runs)
    else later

unfoldable pub find_run_info_by_destination_and_filename : ℕ → Text → M (Option RunInfo)
unfolding query find_run_info
find_run_info_by_destination_and_filename destination_id filename =
    wrapping (txt "db: find run info by destination and filename")
      (query (λ t. find_run_info t.runs destination_id filename t.results))
