-- ===== src/Scheduler/Finishes.antt =====
-- The row of a run that `TriggerRun` starts (internal/scheduler/job.go), until its goroutine is done.
use loxbak.Base.{
  ℕ, ◌≡◌, refl, ap, ◌∙◌, Bool, true, false, ◌&&◌, Option, some, none, List, [], ◌∷◌, map, any_of,
  any_of-append, any_of-map, ==_refl, arith, Bool-cases, inl, inr, Error, ok, ok-injective,
  err-ne-ok,
}
use loxbak.Base.Text.{Text}
use loxbak.Db.{Run, Status, running, success, partial, failed, Tables}
use loxbak.Db.Sql.{Keeps, exec, exec-Keeps}
use loxbak.Db.Runs.{
  is_run, known_run, set_finished, create_run, insert_result, delete_results, refers,
  known_schedule, known_destination, create_run_destination_result,
  delete_run_destination_result_by_filename,
}
use loxbak.Scheduler.Frames.{nothing_seen}
use loxbak.Scheduler.Job.{do_run, trigger_run, run_pending, run_status}
use loxbak.Scheduler.Records.{written}
use loxbak.Scheduler.Sound.{do_run-Sound}
use loxbak.Scheduler.World.{Outside, World}

abbrev pub is_running : Status → Bool
is_running running = true
is_running success = false
is_running partial = false
is_running failed = false

-- A run whose row says that it is still going on.
abbrev pub unfinished : ℕ → Run → Bool
unfinished id r = is_run id r && is_running r.status

abbrev SameRuns : List Run → Tables → Type 0
SameRuns runs t = t.runs ≡ runs

create_result-SameRuns :
    (runs : List Run) (run : ℕ) (dest : Option ℕ) (status : Status) (size : Option ℕ) (text : Text)
    → Keeps (SameRuns runs) (create_run_destination_result run dest status size text)
unfolding create_run_destination_result
create_result-SameRuns runs run dest status size text =
    exec-Keeps (SameRuns runs) (insert_result run dest status size text) (λ t h.
      elim (Bool-cases (known_run t run && refers (known_destination t) dest)) [
        | inl e ↦ rw e h
        | inr e ↦ rw e tt
      ])

delete_result-SameRuns :
    (runs : List Run) (dest : ℕ) (name : Text)
    → Keeps (SameRuns runs) (delete_run_destination_result_by_filename dest name)
unfolding delete_run_destination_result_by_filename
delete_result-SameRuns runs dest name =
    exec-Keeps (SameRuns runs) (delete_results dest name) (λ t h. h)

map-unfinished :
    (run at : ℕ) (status : Status) (size : Option ℕ) (filename text : Text) (rs : List Run)
    → is_running status ≡ false
    → any_of (unfinished run) (map (set_finished run at status size filename text) rs) ≡ false
map-unfinished run at status size filename text [] h = refl
map-unfinished run at status size filename text (r ∷ rs) h =
    ground (arith, map-unfinished run at status size filename text rs h)

unfinished-known :
    (run : ℕ) (rs : List Run) → any_of (unfinished run) rs ≡ true → any_of (is_run run) rs ≡ true
unfinished-known run [] h = cc
unfinished-known run (r ∷ rs) h = ground (arith, unfinished-known run rs)

module _ {E : Type 0} (o : Outside E) where
  ended : (e : Option Error) → is_running (run_status o e) ≡ false
  ended none = refl
  ended (some e) = refl

  do_run-runs : (id run : ℕ) (w : World E) → (do_run o id run w).1.db.tables.runs ≡ w.db.tables.runs
  do_run-runs id run w =
      (do_run-Sound o (λ _. tt) (nothing_seen o) (SameRuns w.db.tables.runs)
        (create_result-SameRuns w.db.tables.runs) (delete_result-SameRuns w.db.tables.runs) id run
        tt w (refl, refl)).0

  trigger_run-unfinished :
      (id run : ℕ) (w : World E)
      → (trigger_run o id w).0 ≡ ok run
      → any_of (unfinished run) (trigger_run o id w).1.db.tables.runs ≡ true
  unfolding trigger_run create_run exec
  trigger_run-unfinished id run w e = elim (Bool-cases (w.db.fails w.db.step)) [
    | inl x ↦ absurd (err-ne-ok (rw x at e))
    | inr x ↦ elim (Bool-cases (known_schedule w.db.tables id)) [
      | inl known ↦
          let same : w.db.tables.next_run ≡ run = ok-injective _ run (rw (x, known) at e) in
          rw (x, known, ← same)
            (any_of-append (unfinished w.db.tables.next_run) w.db.tables.runs _
              ∙ (ground (arith, ==_refl w.db.tables.next_run)))
      | inr unknown ↦ absurd (err-ne-ok (rw (x, unknown) at e))
    ]
  ]

  -- If a request starts a run of a schedule, then the run's row is `running` until its goroutine has worked. If
  -- the update of the row goes through at the end of that, the row is still there and no longer `running`,
  -- whatever failed at the Miniserver, at the destinations or in the database before.
  pub trigger_run_finishes :
      (id run : ℕ) (w : World E)
      → (trigger_run o id w).0 ≡ ok run
      → let w1 = (trigger_run o id w).1 in
        let w2 = (do_run o id run w1).1 in
        w2.db.fails w2.db.step ≡ false
        → let w3 = run_pending o (record { schedule_id = id; run_id = run }) w1 in
          (any_of (unfinished run) w1.db.tables.runs ≡ true)
          × (any_of (unfinished run) w3.db.tables.runs ≡ false)
          × (known_run w3.db.tables run ≡ true)
  unfolding run_pending
  trigger_run_finishes id run w e works =
      let w1 = (trigger_run o id w).1 in
      let out = (do_run o id run w1).0 in
      let w2 = (do_run o id run w1).1 in
      let going = trigger_run-unfinished id run w e in
      let there : known_run w2.db.tables run ≡ true =
        ap (any_of (is_run run)) (do_run-runs id run w1)
        ∙ unfinished-known run w1.db.tables.runs going in
      let (result, rows) = written o id run w1 works there in
      (
        going,
        ap (any_of (unfinished run)) rows
            ∙ map-unfinished run _ (run_status o out.error) _ _ _ w2.db.tables.runs
                (ended out.error),
        ap (any_of (is_run run)) rows
            ∙ any_of-map (is_run run) (set_finished run _ (run_status o out.error) _ _ _)
                (λ r. ground arith) w2.db.tables.runs
            ∙ there,
      )
