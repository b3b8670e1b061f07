-- ===== src/System/Logins.antt =====
-- The session, the login and the runs of internal/api (auth.go, middleware.go, runs.go) leave the server settled.
use loxbak.Base.{ℕ, Option, some}
use loxbak.Base.Int.{ℤ}
use loxbak.Base.Text.{Text, txt}
use loxbak.Api.{Backend, Handler, failed_with, answer, empty}
use loxbak.Api.Auth.{
  LoginRequest, or_default_port, is_full, encrypted, new_session, forget_session, cookie_id,
  handle_login, handle_logout, handle_me, require_session,
}
use loxbak.Api.Guards.{validate-tables}
use loxbak.Api.Runs.{
  Param, schedule_param, limit_param, offset_param, run_responses, handle_list_runs, handle_get_run,
}
use loxbak.Db.Credentials.{get_credential, upsert_credential}
use loxbak.Db.Integrity.{IsSafe-Writes}
use loxbak.Db.Reads.{
  get_credential-tables, get_run-tables, list_runs-tables, list_run_destination_results-tables,
}
use loxbak.Db.Runs.{get_run, list_runs, list_run_destination_results}
use loxbak.Scheduler.Jobs.{IsLawful}
use loxbak.Scheduler.World.{on_db, on_outside}
use loxbak.Session.{validate}
use loxbak.System.Calls.{
  LeavesBackend, read-IsQuiet, write-IsQuiet, outside-IsQuiet, encrypted-IsQuiet,
  new_session-IsQuiet, forget_session-IsQuiet, run_responses-IsQuiet,
}
use loxbak.System.Settled.{Settles, check-Settles, given-Settles, call-Settles, look-Settles}

module _ {E : Type 0} (b : Backend E) (law : IsLawful b.cron)
    (leaves : LeavesBackend law.jobs b) where
  open law use {jobs}

  -- The lookup of the session comes before the handler.
  pub require_session-Settles :
      (handler : Handler E) (cookie : Option Text)
      → Settles b law leaves handler
      → Settles b law leaves (require_session b (λ _. handler) cookie)
  unfolding require_session
  require_session-Settles handler cookie k =
      call-Settles b law leaves (on_db (validate b.hmac b.session_key cookie))
        (λ _. failed_with 401 (txt "not authenticated")) (λ _. handler)
        (read-IsQuiet b jobs leaves (validate b.hmac b.session_key cookie)
          (validate-tables b cookie))
        (λ _ _ _. k)

  pub handle_login-Settles :
      (body : Option LoginRequest) → Settles b law leaves (handle_login b body)
  unfolding handle_login
  handle_login-Settles body = given-Settles b law leaves body _ _ λ req _.
      check-Settles b law leaves (is_full req) _ _ (
        call-Settles b law leaves
          (on_outside (b.validate req.host (or_default_port req.port) req.username req.password)) _
          _
          (outside-IsQuiet b jobs leaves
            (b.validate req.host (or_default_port req.port) req.username req.password)
            (leaves.validate_lem req.host (or_default_port req.port) req.username req.password))
          λ _ _ _.
            call-Settles b law leaves (encrypted b req.password) _ _
              (encrypted-IsQuiet b jobs leaves req.password)
              λ blob _ _.
                call-Settles b law leaves
                  (on_db (upsert_credential req.host (or_default_port req.port) req.username blob))
                  _ _
                  (write-IsQuiet b jobs leaves
                    (upsert_credential req.host (or_default_port req.port) req.username blob)
                    (IsSafe-Writes.upserts req.host (or_default_port req.port) req.username blob))
                  λ _ _ _.
                    call-Settles b law leaves (new_session b) _ _
                      (new_session-IsQuiet b jobs leaves) λ token _ _ s h. h)

  pub handle_logout-Settles : (cookie : Option Text) → Settles b law leaves (handle_logout b cookie)
  unfolding handle_logout
  handle_logout-Settles cookie =
      look-Settles b law leaves (forget_session b (cookie_id b cookie))
        (λ _. answer (record { status = 200; body = empty; cookie = some (txt "") }))
        (forget_session-IsQuiet b jobs leaves (cookie_id b cookie)) (λ _ s h. h)

  pub handle_me-Settles : Settles b law leaves (handle_me b)
  unfolding handle_me
  handle_me-Settles =
      call-Settles b law leaves (on_db get_credential) _ _
        (read-IsQuiet b jobs leaves get_credential get_credential-tables) (λ _ _ _ s h. h)

  pub handle_get_run-Settles : (param : Option ℕ) → Settles b law leaves (handle_get_run param)
  unfolding handle_get_run
  handle_get_run-Settles param = given-Settles b law leaves param _ _ λ id _.
      call-Settles b law leaves (on_db (get_run id)) _ _
        (read-IsQuiet b jobs leaves (get_run id) (get_run-tables id))
        λ run _ _.
          call-Settles b law leaves (on_db (list_run_destination_results id)) _ _
            (read-IsQuiet b jobs leaves (list_run_destination_results id)
              (list_run_destination_results-tables id))
            λ _ _ _ s h. h

  pub handle_list_runs-Settles :
      (schedule_id : Param ℕ) (limit offset : Param ℤ)
      → Settles b law leaves (handle_list_runs schedule_id limit offset)
  unfolding handle_list_runs
  handle_list_runs-Settles schedule_id limit offset =
      given-Settles b law leaves (schedule_param schedule_id) _ _ λ sid _.
        given-Settles b law leaves (limit_param limit) _ _ λ n _.
          given-Settles b law leaves (offset_param offset) _ _ λ m _.
            call-Settles b law leaves (on_db (list_runs sid n m)) _ _
              (read-IsQuiet b jobs leaves (list_runs sid n m) (list_runs-tables sid n m))
              λ rs _ _.
                call-Settles b law leaves (run_responses rs) _ _
                  (run_responses-IsQuiet b jobs leaves rs) λ _ _ _ s h. h
