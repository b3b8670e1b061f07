-- ===== src/Db/Consistency.antt =====
-- Referential integrity: what the foreign keys and the UNIQUE constraint of the schema promise, and
-- that every write of internal/db keeps it.
pub mod Deletes
use loxbak.Db.Sql.{Kept, pure, fail, ◌>>=◌, wrapping, exec}
use loxbak.Base.Results.{schedule_not_found, destination_not_found, run_not_found}
use mathlib.Core.Bool.{false≢true}
use loxbak.Base.{
  Error, Bool-cases, inl, inr, suc, if◌then◌else◌, ℕ, ◌≡◌, refl, ◌≢◌, ap, sym, ◌∙◌, Bool, true,
  false, ◌&&◌, ◌||◌, Option, none, some, List, [], ◌∷◌, ◌++◌, map, arith, ◌==◌, ==_refl, not,
  any_of, keep_if, All, All-append, All-imp, All-map, All-keep_if, any_of-append,
  any_of-append_left, any_of-map, any_of-keep_if, any_of-keep_if-false, and_true,
}
use loxbak.Base.Int.{ℤ}
use loxbak.Base.Text.{Text, txt}
use loxbak.Db.{
  Schedule, Destination, ScheduleDestination, Run, RunDestinationResult, Status, Tables, M,
}
use loxbak.Db.Sql.{Keeps, query-Keeps, exec-Keeps, bind-Keeps, if-Keeps, affected-Keeps}
use loxbak.Db.Destinations.{
  is_destination, insert_destination, set_destination, update_destination_rows, create_destination,
  update_destination,
}
use loxbak.Db.Schedules.{
  is_schedule, links_of, insert_schedule, set_schedule, update_schedule_rows, create_schedule,
  update_schedule, insert_link, clear_links, insert_links, replace_links, set_schedule_destinations,
}
use loxbak.Db.Runs.{
  is_run, refers, known_schedule, known_destination, known_run, insert_run, set_finished,
  finish_run_rows, insert_result, delete_results, stored_as, create_run, finish_run,
  create_run_destination_result, delete_run_destination_result_by_filename,
}

abbrev pub same_link : ScheduleDestination → ScheduleDestination → Bool
same_link l m = links_of l.schedule_id m && m.destination_id == l.destination_id

-- No two links join the same schedule and destination.
abbrev pub UniqueLinks : List ScheduleDestination → Type 0
UniqueLinks [] = Unit
UniqueLinks (l ∷ ls) = (any_of (same_link l) ls ≡ false) × UniqueLinks ls

pub record IsConsistent (t : Tables) : Type 0 where
  pub link_schedules : All (λ l. known_schedule t l.schedule_id ≡ true) t.links
  pub link_destinations : All (λ l. known_destination t l.destination_id ≡ true) t.links
  pub link_unique : UniqueLinks t.links
  pub run_schedules : All (λ r. refers (known_schedule t) r.schedule_id ≡ true) t.runs
  pub result_runs : All (λ r. known_run t r.run_id ≡ true) t.results
  pub result_destinations :
      All (λ r. refers (known_destination t) r.destination_id ≡ true) t.results

refers_imp :
    (p q : ℕ → Bool)
    → ((i : ℕ) → p i ≡ true → q i ≡ true)
    → (o : Option ℕ) → refers p o ≡ true
    → refers q o ≡ true
refers_imp p q h none e = refl
refers_imp p q h (some i) e = h i e

-- The tables of rows that are referred to may grow.
module _ (t u : Tables)
    (schedules : (i : ℕ) → known_schedule t i ≡ true → known_schedule u i ≡ true)
    (destinations : (i : ℕ) → known_destination t i ≡ true → known_destination u i ≡ true)
    (runs : (i : ℕ) → known_run t i ≡ true → known_run u i ≡ true) where
  pub links_grow :
      t.links ≡ u.links
      → IsConsistent t
      → All (λ l. known_schedule u l.schedule_id ≡ true) u.links
        × All (λ l. known_destination u l.destination_id ≡ true) u.links
        × UniqueLinks u.links
  links_grow e c = rw (sym e) (
    All-imp _ _ (λ l. schedules l.schedule_id) t.links c.link_schedules,
    All-imp _ _ (λ l. destinations l.destination_id) t.links c.link_destinations,
    c.link_unique,
  )

  pub results_grow :
      t.results ≡ u.results
      → IsConsistent t
      → All (λ r. known_run u r.run_id ≡ true) u.results
        × All (λ r. refers (known_destination u) r.destination_id ≡ true) u.results
  results_grow e c = rw (sym e) (
    All-imp _ _ (λ r. runs r.run_id) t.results c.result_runs,
    All-imp _ _ (λ r. refers_imp _ _ destinations r.destination_id) t.results c.result_destinations,
  )

  pub runs_grow :
      t.runs ≡ u.runs
      → IsConsistent t
      → All (λ r. refers (known_schedule u) r.schedule_id ≡ true) u.runs
  runs_grow e c =
      rw (sym e) (All-imp _ _ (λ r. refers_imp _ _ schedules r.schedule_id) t.runs c.run_schedules)

  pub IsConsistent-grow :
      t.links ≡ u.links → t.runs ≡ u.runs → t.results ≡ u.results → IsConsistent t → IsConsistent u
  IsConsistent-grow el er es c =
      let (a, b, n) = links_grow el c in
      let (x, y) = results_grow es c in
      record {
        link_schedules = a;
        link_destinations = b;
        link_unique = n;
        run_schedules = runs_grow er c;
        result_runs = x;
        result_destinations = y;
      }

pub create_schedule-Keeps :
    (name cron : Text) (on : Bool) → Keeps IsConsistent (create_schedule name cron on)
unfolding create_schedule
create_schedule-Keeps name cron on d =
    exec-Keeps IsConsistent (insert_schedule name cron on (d.clock d.step))
      (λ t.
        IsConsistent-grow t _ (λ i. any_of-append_left _ t.schedules _) (λ i h. h) (λ i h. h) refl
          refl refl)
      d

pub update_schedule-Keeps :
    (id : ℕ) (name cron : Text) (on : Bool) → Keeps IsConsistent (update_schedule id name cron on)
unfolding update_schedule
update_schedule-Keeps id name cron on d =
    let set = set_schedule id name cron on (d.clock d.step) in
    affected-Keeps IsConsistent (txt "db: update schedule") schedule_not_found
      (update_schedule_rows id name cron on (d.clock d.step))
      (λ t.
        IsConsistent-grow t _
          (λ i h. any_of-map (is_schedule i) set (λ s. ground arith) t.schedules ∙ h) (λ i h. h)
          (λ i h. h) refl refl refl)
      d

pub create_destination-Keeps :
    (name type config secret : Text)
    → Keeps IsConsistent (create_destination name type config secret)
unfolding create_destination
create_destination-Keeps name type config secret d =
    exec-Keeps IsConsistent (insert_destination name type config secret (d.clock d.step))
      (λ t.
        IsConsistent-grow t _ (λ i h. h) (λ i. any_of-append_left _ t.destinations _) (λ i h. h)
          refl refl refl)
      d

pub update_destination-Keeps :
    (id : ℕ) (name type config secret : Text)
    → Keeps IsConsistent (update_destination id name type config secret)
unfolding update_destination
update_destination-Keeps id name type config secret d =
    let set = set_destination id name type config secret (d.clock d.step) in
    affected-Keeps IsConsistent (txt "db: update destination") destination_not_found
      (update_destination_rows id name type config secret (d.clock d.step))
      (λ t.
        IsConsistent-grow t _ (λ i h. h)
          (λ i h. any_of-map (is_destination i) set (λ s. ground arith) t.destinations ∙ h)
          (λ i h. h) refl refl refl)
      d

add_run-IsConsistent :
    (r : Run) (t : Tables)
    → refers (known_schedule t) r.schedule_id ≡ true
    → IsConsistent t
    → IsConsistent (record t { runs = t.runs ++ r ∷ []; next_run = suc t.next_run })
add_run-IsConsistent r t e c =
    let u : Tables = record t { runs = t.runs ++ r ∷ []; next_run = suc t.next_run } in
    let (x, y) =
      results_grow t u (λ i h. h) (λ i h. h) (λ i. any_of-append_left _ t.runs _) refl c in
    record {
      link_schedules = c.link_schedules;
      link_destinations = c.link_destinations;
      link_unique = c.link_unique;
      run_schedules = All-append _ t.runs (r ∷ []) c.run_schedules (e, tt);
      result_runs = x;
      result_destinations = y;
    }

pub create_run-Keeps : (sid : Option ℕ) (at : ℕ) → Keeps IsConsistent (create_run sid at)
unfolding create_run
create_run-Keeps sid at = exec-Keeps IsConsistent (insert_run sid at) λ t c.
    elim (Bool-cases (refers (known_schedule t) sid)) [
      | inl e ↦ rw e (add_run-IsConsistent _ t e c)
      | inr e ↦ rw e tt
    ]

pub finish_run-Keeps :
    (id at : ℕ) (status : Status) (size : Option ℕ) (filename failure : Text)
    → Keeps IsConsistent (finish_run id at status size filename failure)
unfolding finish_run
finish_run-Keeps id at status size filename failure =
    let set = set_finished id at status size filename failure in
    affected-Keeps IsConsistent (txt "db: finish run") run_not_found
      (finish_run_rows id at status size filename failure)
      λ t c.
        let u : Tables = record t { runs = map set t.runs } in
        let (x, y) =
          results_grow t u (λ i h. h) (λ i h. h)
            (λ i h. any_of-map (is_run i) set (λ r. ground arith) t.runs ∙ h) refl c in
        record {
          link_schedules = c.link_schedules;
          link_destinations = c.link_destinations;
          link_unique = c.link_unique;
          run_schedules = All-map _ _ set (λ r h. ground arith) t.runs c.run_schedules;
          result_runs = x;
          result_destinations = y;
        }

add_result-IsConsistent :
    (r : RunDestinationResult) (t : Tables)
    → known_run t r.run_id ≡ true
    → refers (known_destination t) r.destination_id ≡ true
    → IsConsistent t
    → IsConsistent (record t { results = t.results ++ r ∷ []; next_result = suc t.next_result })
add_result-IsConsistent r t e e' c = record {
  link_schedules = c.link_schedules;
  link_destinations = c.link_destinations;
  link_unique = c.link_unique;
  run_schedules = c.run_schedules;
  result_runs = All-append _ t.results (r ∷ []) c.result_runs (e, tt);
  result_destinations = All-append _ t.results (r ∷ []) c.result_destinations (e', tt);
}

pub create_run_destination_result-Keeps :
    (run : ℕ) (dest : Option ℕ) (status : Status) (size : Option ℕ) (failure : Text)
    → Keeps IsConsistent (create_run_destination_result run dest status size failure)
unfolding create_run_destination_result
create_run_destination_result-Keeps run dest status size failure =
    exec-Keeps IsConsistent (insert_result run dest status size failure) λ t c.
      elim (Bool-cases (known_run t run && refers (known_destination t) dest)) [
        | inl e ↦ rw e (add_result-IsConsistent _ t (and_true e).0 (and_true e).1 c)
        | inr e ↦ rw e tt
      ]
