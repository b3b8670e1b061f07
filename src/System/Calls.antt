-- ===== src/System/Calls.antt =====
-- What the calls of the handlers keep (internal/api): the integrity of the tables, and the jobs of the cron
-- library.
use loxbak.Base.{
  ◌+◌, ℕ, ◌≡◌, ◌∙◌, Option, none, some, List, [], ◌∷◌, map, Result, ok, err, err-ne-ok,
}
use loxbak.Base.Int.{ℤ}
use loxbak.Base.Text.{Text, txt}
use loxbak.Api.{ScheduleDestinationInput, Backend}
use loxbak.Api.Auth.{encrypted, new_session, forget_session}
use loxbak.Api.Destinations.{encrypt_destination_secret, secret_of, build_destination, new_secret}
use loxbak.Api.Runs.{run_responses}
use loxbak.Api.Schedules.{list_responses, set_destinations, to_link}
use loxbak.Db
use loxbak.Db.{Schedule, Run, Db, M}
use loxbak.Db.Integrity.{IsSafe, IsSafe-Writes}
use loxbak.Db.Reads.{list_schedule_destinations-tables, list_run_destination_results-tables}
use loxbak.Db.Runs.{list_run_destination_results}
use loxbak.Db.Schedules.{list_schedule_destinations, set_schedule_destinations}
use loxbak.Db.Sessions.{create_session, delete_session}
use loxbak.Db.Sql
use loxbak.Db.Sql.{Keeps, bind-Keeps}
use loxbak.Db.Writes.{sets_links}
use loxbak.Destinations.{Destination}
use loxbak.Scheduler.Frames.{LeavesDestination, Leaves}
use loxbak.Scheduler.Sound.{
  Sound, write-Sound, read-Sound, outside-Sound, bind-Sound, returned_bind-Sound,
}
use loxbak.Scheduler.World.{World, R, on_db, on_outside, returned, wrapping, ◌>>=◌}
use loxbak.Session.{new_id, from_id, create, ttl}

-- What the server is given leaves a view of the outside alone.
pub record LeavesBackend {E V : Type 0} (view : E → V) (b : Backend E) : Type 0 where
  pub outside_lem : Leaves view b.outside
  pub validate_lem :
      (host : Text) (port : ℤ) (user password : Text) (x : E)
      → view (b.validate host port user password x).1 ≡ view x
  pub random_lem : (n : ℕ) (x : E) → view (b.random n x).1 ≡ view x

module _ {E V : Type 0} (b : Backend E) (view : E → V) (leaves : LeavesBackend view b) where
  -- A call that keeps both.
  abbrev pub IsQuiet : {A : Type 0} → R E A → Type 0
  IsQuiet m = Sound IsSafe view m

  pub write-IsQuiet : {A : Type 0} (m : M A) → Keeps IsSafe m → IsQuiet (on_db m)
  write-IsQuiet m = write-Sound IsSafe view m

  pub read-IsQuiet :
      {A : Type 0} (m : M A) → ((d : Db) → (m d).1.tables ≡ d.tables) → IsQuiet (on_db m)
  read-IsQuiet m = read-Sound IsSafe view m

  pub outside-IsQuiet :
      {A : Type 0} (f : E → Result A × E)
      → ((x : E) → view (f x).1 ≡ view x)
      → IsQuiet (on_outside f)
  outside-IsQuiet f = outside-Sound IsSafe view f

  pub encrypted-IsQuiet : (t : Text) → IsQuiet (encrypted b t)
  encrypted-IsQuiet t v w (p, q) = (p, leaves.random_lem b.outside.cipher.nonce_size w.outside ∙ q)

  from_id-Keeps : (r : Result Text) → Keeps IsSafe (from_id b.hmac b.session_key r)
  from_id-Keeps (err e) d h = h
  from_id-Keeps (ok id) d h =
      bind-Keeps IsSafe
        (Sql.wrapping (txt "session: create") (create_session id (d.clock d.step + ttl))) _
        (IsSafe-Writes.logs_in id (d.clock d.step + ttl)) (λ _ d h. h) d h

  pub new_session-IsQuiet : IsQuiet (new_session b)
  unfolding create
  new_session-IsQuiet v w (p, q) =
      let r = (b.random 32 w.outside).0 in
      (from_id-Keeps (new_id r) w.db p, leaves.random_lem 32 w.outside ∙ q)

  pub forget_session-IsQuiet : (o : Option Text) → IsQuiet (forget_session b o)
  forget_session-IsQuiet none = λ v w c. c
  forget_session-IsQuiet (some id) = write-IsQuiet (delete_session id) (IsSafe-Writes.logs_out id)

  pub encrypt_destination_secret-IsQuiet :
      (secret : Text) → IsQuiet (encrypt_destination_secret b secret)
  encrypt_destination_secret-IsQuiet [] = λ v w c. c
  encrypt_destination_secret-IsQuiet (x ∷ t) = encrypted-IsQuiet (x ∷ t)

  pub new_secret-IsQuiet : (stored secret : Text) → IsQuiet (new_secret b stored secret)
  new_secret-IsQuiet stored [] = λ v w c. c
  new_secret-IsQuiet stored (x ∷ t) = encrypted-IsQuiet (x ∷ t)

  pub build_destination-IsQuiet : (d : Db.Destination) → IsQuiet (build_destination b d)
  unfolding build_destination
  build_destination-IsQuiet d =
      returned_bind-Sound IsSafe view (txt "decrypt destination secret")
        (secret_of b d.encrypted_secret) _ (λ secret _ v w c. c)

  secret_built :
      (d : Db.Destination) (r : Result Text) (w : World E) (dest : Destination E)
      → (◌>>=◌
          (wrapping (txt "decrypt destination secret") (returned r))
          (λ secret. returned (b.outside.build d.type d.name d.config_json secret))
          w).0
        ≡ ok dest
      → LeavesDestination view dest
  secret_built d (ok secret) w dest e =
      leaves.outside_lem.build_lem d.type d.name d.config_json secret dest e
  secret_built d (err x) w dest e = absurd (err-ne-ok e)

  -- A destination that is built leaves the view alone.
  pub build_destination-leaves :
      (d : Db.Destination) (w : World E) (dest : Destination E)
      → (build_destination b d w).0 ≡ ok dest
      → LeavesDestination view dest
  unfolding build_destination
  build_destination-leaves d w dest = secret_built d (secret_of b d.encrypted_secret) w dest

  pub set_destinations-IsQuiet :
      (id : ℕ) (inputs : List ScheduleDestinationInput) → IsQuiet (set_destinations id inputs)
  set_destinations-IsQuiet id inputs =
      let links = map (to_link id) inputs in
      write-IsQuiet (set_schedule_destinations id links) (sets_links IsSafe IsSafe-Writes id links)

  pub list_responses-IsQuiet : (ss : List Schedule) → IsQuiet (list_responses ss)
  unfolding list_responses
  list_responses-IsQuiet [] = λ v w c. c
  list_responses-IsQuiet (s ∷ ss) =
      bind-Sound IsSafe view (on_db (list_schedule_destinations s.id)) _
        (read-IsQuiet (list_schedule_destinations s.id) (list_schedule_destinations-tables s.id))
        λ links.
          bind-Sound IsSafe view (list_responses ss) _ (list_responses-IsQuiet ss) λ out v w c. c

  pub run_responses-IsQuiet : (rs : List Run) → IsQuiet (run_responses rs)
  unfolding run_responses
  run_responses-IsQuiet [] = λ v w c. c
  run_responses-IsQuiet (r ∷ rs) =
      bind-Sound IsSafe view (on_db (list_run_destination_results r.id)) _
        (read-IsQuiet (list_run_destination_results r.id)
          (list_run_destination_results-tables r.id))
        λ results.
          bind-Sound IsSafe view (run_responses rs) _ (run_responses-IsQuiet rs) λ out v w c. c
