-- ===== src/Scheduler/Executions.antt =====
-- What a run of a schedule keeps (`RunSchedule`, `TriggerRun` and its goroutine, internal/scheduler/job.go).
use loxbak.Base.{ℕ, some}
use loxbak.Base.Text.{txt}
use loxbak.Db.{Tables}
use loxbak.Db.Runs.{create_run, finish_run}
use loxbak.Db.Writes.{Writes, creates_run, finishes_run, records_result, forgets_result}
use loxbak.Scheduler.Frames.{Leaves}
use loxbak.Scheduler.Job.{
  started, do_run, run_status, run_error, run_result, size_ptr, execute_and_finish, run_schedule,
  trigger_run, run_pending,
}
use loxbak.Scheduler.Sound.{IsSound, Sound, write-Sound, bind-Sound, do_run-Sound}
use loxbak.Scheduler.World.{Outside, Pending, World, on_db, returned, wrapping}

module _ {E V : Type 0} (o : Outside E) (view : E → V) (leaves : Leaves view o)
    (P : Tables → Type 0) (writes : Writes P) where
  execute_and_finish-Sound : (id run : ℕ) → Sound P view (execute_and_finish o id run)
  unfolding execute_and_finish
  execute_and_finish-Sound id run v w c =
      let out = (do_run o id run w).0 in
      let w1 = (do_run o id run w).1 in
      let at = w1.db.clock w1.db.step in
      bind-Sound P view
        (wrapping (txt "scheduler: finish run") (
          on_db (
            finish_run run at (run_status o out.error) (size_ptr o out.size) out.filename
              (run_error o out.error))))
        (λ _. returned (run_result o out.error))
        (write-Sound P view
          (finish_run run at (run_status o out.error) (size_ptr o out.size) out.filename
            (run_error o out.error))
          (finishes_run P writes run at (run_status o out.error) (size_ptr o out.size) out.filename
            (run_error o out.error)))
        (λ _ v u k. k) v w1
        (do_run-Sound o view leaves P (records_result P writes) (forgets_result P writes) id run v w
          c)

  started-Sound : (id : ℕ) → Sound P view (started o id)
  started-Sound id v w =
      write-Sound P view (create_run (some id) (w.db.clock w.db.step))
        (creates_run P writes (some id) (w.db.clock w.db.step)) v w

  pub run_schedule-Sound : (id : ℕ) → Sound P view (run_schedule o id)
  unfolding run_schedule
  run_schedule-Sound id =
      bind-Sound P view (started o id) _ (started-Sound id) (λ run. execute_and_finish-Sound id run)

  pub trigger_run-Sound : (id : ℕ) → Sound P view (trigger_run o id)
  unfolding trigger_run
  trigger_run-Sound id = bind-Sound P view (started o id) _ (started-Sound id) (λ run v w c. c)

  pub run_pending-Sound :
      (p : Pending) (v : V) (w : World E)
      → IsSound P view v w
      → IsSound P view v (run_pending o p w)
  unfolding run_pending
  run_pending-Sound p = execute_and_finish-Sound p.schedule_id p.run_id
