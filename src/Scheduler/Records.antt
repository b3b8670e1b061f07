-- ===== src/Scheduler/Records.antt =====
-- What a run leaves in the database.
use loxbak.Base.{
  ℕ, sym, ◌∙◌, subst, ◌≡◌, refl, true, false, none, arith, map, ◌==◌, ltb, if◌then◌else◌, any_of,
  List, [], ◌∷◌, ◌⊎◌, inl, inr, Option, some, Error, Result, ok, err, message, Bool-cases, is_ok,
}
use loxbak.Base.Text.{Text}
use loxbak.Db.{Run, Status, success, failed}
use loxbak.Db.Consistency.{IsConsistent}
use loxbak.Db.Integrity.{IsConsistent-Writes}
use loxbak.Scheduler.Executions.{run_schedule-Sound}
use loxbak.Scheduler.Frames.{nothing_seen}
use loxbak.Db.Runs.{finish_run, null_string, set_finished, known_run}
use loxbak.Scheduler.World.{Outside, World}
use loxbak.Scheduler.Job.{
  Outcome, do_run, run_status, run_error, run_result, size_ptr, execute_and_finish, run_schedule,
}

abbrev pub verdict : Option Error → Status
verdict none = success
verdict (some e) = failed

abbrev pub complaint : Option Error → Text
complaint none = []
complaint (some e) = message e

-- NULL for the empty text.
abbrev pub or_null : Text → Option Text
or_null [] = none
or_null (c ∷ cs) = some (c ∷ cs)

-- The row of a run that has ended at the time `at` with what `doRun` gave.
abbrev pub ended : ℕ → Outcome → Run → Run
ended at out r = record {
  id = r.id;
  schedule_id = r.schedule_id;
  started_at = r.started_at;
  finished_at = some at;
  status = verdict out.error;
  size_bytes = if ltb 0 out.size then some out.size else none;
  error = or_null (complaint out.error);
  filename = or_null out.filename;
}

abbrev pub Answers : Option Error → Result (Unit {0}) → Type 0
Answers none r = r ≡ ok tt
Answers (some e) r = r ≡ err e

null_string-eq : (t : Text) → null_string t ≡ or_null t
null_string-eq [] = refl
null_string-eq (c ∷ cs) = refl

module _ {E : Type 0} (o : Outside E) where
  -- A cron run keeps the tables consistent, whatever fails in the database, at the Miniserver or at
  -- the destinations.
  pub run_schedule-IsConsistent :
      (id : ℕ) (w : World E)
      → IsConsistent w.db.tables
      → IsConsistent (run_schedule o id w).1.db.tables
  run_schedule-IsConsistent id w c =
      (run_schedule-Sound o (λ _. tt) (nothing_seen o) IsConsistent IsConsistent-Writes id tt w
        (c, refl)).0

  finished-ended :
      (run at : ℕ) (out : Outcome) (r : Run)
      → set_finished run at
          (run_status o out.error)
          (size_ptr o out.size)
          out.filename
          (run_error o out.error)
          r
        ≡ (if r.id == run then ended at out r else r)
  finished-ended run at out r = elim (Bool-cases (r.id == run)) [
    | inr other ↦ rw other refl
    | inl own ↦
        rw
          (
            own,
            null_string-eq out.filename,
            null_string-eq (run_error o out.error),
            status_lem out.error,
            error_lem out.error,
          )
          refl
  ]
    where
      status_lem : (e : Option Error) → run_status o e ≡ verdict e
      status_lem none = refl
      status_lem (some e) = refl

      error_lem : (e : Option Error) → run_error o e ≡ complaint e
      error_lem none = refl
      error_lem (some e) = refl

  finished-map :
      (run at : ℕ) (out : Outcome) (rs : List Run)
      → map
          (set_finished run at
            (run_status o out.error)
            (size_ptr o out.size)
            out.filename
            (run_error o out.error))
          rs
        ≡ map (λ r. if r.id == run then ended at out r else r) rs
  finished-map run at out [] = refl
  finished-map run at out (r ∷ rs) = cc (finished-ended run at out r, finished-map run at out rs)

  unknown-map :
      (f : Run → Run) (run : ℕ) (rs : List Run)
      → any_of (λ r. r.id == run) rs ≡ false
      → map (λ r. if r.id == run then f r else r) rs ≡ rs
  unknown-map f run [] h = refl
  unknown-map f run (r ∷ rs) h = ground (arith, unknown-map f run rs)

  run_result-Answers : (e : Option Error) → Answers e (run_result o e)
  run_result-Answers none = refl
  run_result-Answers (some e) = refl

  pub written :
      (id run : ℕ) (w : World E)
      → let out = (do_run o id run w).0 in
        let w1 = (do_run o id run w).1 in
        w1.db.fails w1.db.step ≡ false
        → known_run w1.db.tables run ≡ true
        → ((execute_and_finish o id run w).0 ≡ run_result o out.error)
          × ((execute_and_finish o id run w).1.db.tables.runs
              ≡ map
                  (set_finished run
                    (w1.db.clock w1.db.step)
                    (run_status o out.error)
                    (size_ptr o out.size)
                    out.filename
                    (run_error o out.error))
                  w1.db.tables.runs)
  unfolding execute_and_finish finish_run
  written id run w works there = ground arith

  lost :
      (id run : ℕ) (w : World E)
      → let out = (do_run o id run w).0 in
        let w1 = (do_run o id run w).1 in
        w1.db.fails w1.db.step ≡ false
        → known_run w1.db.tables run ≡ false
        → (is_ok (execute_and_finish o id run w).0 ≡ false)
          × ((execute_and_finish o id run w).1.db.tables.runs
              ≡ map
                  (set_finished run
                    (w1.db.clock w1.db.step)
                    (run_status o out.error)
                    (size_ptr o out.size)
                    out.filename
                    (run_error o out.error))
                  w1.db.tables.runs)
  unfolding execute_and_finish finish_run
  lost id run w works gone = ground arith

  refused :
      (id run : ℕ) (w : World E)
      → let w1 = (do_run o id run w).1 in
        w1.db.fails w1.db.step ≡ true
        → (is_ok (execute_and_finish o id run w).0 ≡ false)
          × ((execute_and_finish o id run w).1.db.tables.runs ≡ w1.db.tables.runs)
  unfolding execute_and_finish finish_run
  refused id run w fails = ground arith

  -- When `doRun` is done, either the row of the run is there and its update goes through: then the row has the end
  -- time, `success` if `doRun` had no error and `failed` with the text of the error otherwise, the size if it is not
  -- zero and the file name if there is one, every other run keeps its row, and the call returns the error of
  -- `doRun`. Or the update fails or the row is gone: then the call returns an error, and every run keeps its row.
  pub execute_and_finish-row :
      (id run : ℕ) (w : World E)
      → let out = (do_run o id run w).0 in
        let w1 = (do_run o id run w).1 in
        let r = execute_and_finish o id run w in
        ((known_run w1.db.tables run ≡ true)
          × Answers out.error r.0
          × (r.1.db.tables.runs
              ≡ map
                  (λ row. if row.id == run then ended (w1.db.clock w1.db.step) out row else row)
                  w1.db.tables.runs))
        ⊎ (((w1.db.fails w1.db.step ≡ true) ⊎ (known_run w1.db.tables run ≡ false))
            × (is_ok r.0 ≡ false)
            × (r.1.db.tables.runs ≡ w1.db.tables.runs))
  execute_and_finish-row id run w =
      let out = (do_run o id run w).0 in
      let w1 = (do_run o id run w).1 in
      let at = w1.db.clock w1.db.step in
      elim (Bool-cases (w1.db.fails w1.db.step)) [
        | inl fails ↦ let (result, rows) = refused id run w fails in inr (inl fails, result, rows)
        | inr works ↦ elim (Bool-cases (known_run w1.db.tables run)) [
          | inl there ↦
              let (result, rows) = written id run w works there in
              inl (
                there,
                subst (Answers out.error) (sym result) (run_result-Answers out.error),
                rows ∙ finished-map run at out w1.db.tables.runs,
              )
          | inr gone ↦
              let (result, rows) = lost id run w works gone in
              inr (
                inr gone,
                result,
                rows
                    ∙ finished-map run at out w1.db.tables.runs
                    ∙ unknown-map (ended at out) run w1.db.tables.runs gone,
              )
        ]
      ]
