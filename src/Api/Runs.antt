-- ===== src/Api/Runs.antt =====
-- internal/api/runs.go
use loxbak.Base.{ℕ, Option, none, some, List, [], ◌∷◌, map, ltb, if◌then◌else◌, ok}
use loxbak.Base.Int.{ℤ, pos, negsuc}
use loxbak.Base.Text.{Text, txt}
use loxbak.Api.{
  RunDestinationResultResponse, RunResponse, Handler, respond, failed_with, one_run, runs, answer,
  given, call,
}
use loxbak.Db.{Run, RunDestinationResult}
use loxbak.Db.Runs.{get_run, list_runs, list_run_destination_results}
use loxbak.Scheduler.World.{R, on_db, returned, ◌>>=◌}

abbrev pub or_empty : Option Text → Text
or_empty none = []
or_empty (some t) = t

abbrev pub to_result_response : RunDestinationResult → RunDestinationResultResponse
to_result_response r = record {
  id = r.id;
  destination_id = r.destination_id;
  status = r.status;
  size_bytes = r.size_bytes;
  error = or_empty r.error;
}

abbrev pub to_run_response : Run → List RunDestinationResult → RunResponse
to_run_response run results = record {
  id = run.id;
  schedule_id = run.schedule_id;
  started_at = run.started_at;
  finished_at = run.finished_at;
  status = run.status;
  size_bytes = run.size_bytes;
  error = or_empty run.error;
  destinations = map to_result_response results;
}

-- A parameter of the query: absent (or empty), not a number, or a number.
pub data Param (A : Type 0) : Type 0 where
  absent : Param A
  malformed : Param A
  value : A → Param A

-- `schedule_id`; as elsewhere, the ids in a request are natural numbers.
abbrev pub schedule_param : Param ℕ → Option (Option ℕ)
schedule_param absent = some none
schedule_param malformed = none
schedule_param (value id) = some (some id)

-- `err != nil || n <= 0`
abbrev pub limit_param : Param ℤ → Option ℕ
limit_param absent = some 50
limit_param malformed = none
limit_param (value (pos n)) = if ltb 0 n then some n else none
limit_param (value (negsuc n)) = none

-- `err != nil || n < 0`
abbrev pub offset_param : Param ℤ → Option ℕ
offset_param absent = some 0
offset_param malformed = none
offset_param (value (pos n)) = some n
offset_param (value (negsuc n)) = none

module _ {E : Type 0} where
  -- The loop of `handleListRuns`.
  unfoldable pub run_responses : List Run → R E (List RunResponse)
  run_responses [] = returned (ok [])
  run_responses (run ∷ rest) = do
    results ← on_db (list_run_destination_results run.id)
    later ← run_responses rest
    returned (ok (to_run_response run results ∷ later))

  unfoldable pub handle_list_runs : Param ℕ → Param ℤ → Param ℤ → Handler E
  unfolding run_responses
  handle_list_runs schedule_id limit offset =
      given (schedule_param schedule_id) (failed_with 400 (txt "invalid schedule_id")) (λ sid.
        given (limit_param limit) (failed_with 400 (txt "invalid limit")) (λ n.
          given (offset_param offset) (failed_with 400 (txt "invalid offset")) (λ m.
            call (on_db (list_runs sid n m)) (λ _. failed_with 500 (txt "failed to list runs"))
              (λ rs.
                call (run_responses rs)
                  (λ _. failed_with 500 (txt "failed to list run destination results"))
                  (λ out. answer (respond 200 (runs out)))))))

  unfoldable pub handle_get_run : Option ℕ → Handler E
  handle_get_run param = given param (failed_with 400 (txt "invalid run id")) (λ id.
      call (on_db (get_run id)) (λ _. failed_with 404 (txt "run not found"))
        (λ run.
          call (on_db (list_run_destination_results id))
            (λ _. failed_with 500 (txt "failed to list run destination results"))
            (λ results. answer (respond 200 (one_run (to_run_response run results))))))
