-- ===== src/Api/Created.antt =====
-- A schedule that a request creates (internal/api/schedules.go), as later requests read it back.
use loxbak.Base.{
  ℕ, suc, ◌≡◌, refl, ap, sym, ◌∙◌, subst, false, some, map, find_first, keep_if, Bool-cases, inl,
  inr, arith, ok,
}
use loxbak.Base.Text.{txt}
use loxbak.Api.{
  ScheduleResponse, Response, Backend, Server, respond, failed_with, one_schedule, call,
  reload_scheduler,
}
use loxbak.Api.Rules.{call-post}
use loxbak.Api.Schedules.{
  ScheduleRequest, to_input, is_complete, set_destinations, finish_schedule, handle_create_schedule,
  handle_get_schedule,
}
use loxbak.Db.Numbering.{IsNumbered}
use loxbak.Db.Reads.{get_schedule-tables, list_schedule_destinations-tables}
use loxbak.Db.Schedules.{
  is_schedule, links_of, create_schedule, get_schedule, list_schedule_destinations,
  list_enabled_schedules,
}
use loxbak.Scheduler.Cron.{reload}
use loxbak.Scheduler.World.{on_db}
use loxbak.Api.Stored.{Stored, created-Stored, get_schedule-ok}

module _ {E : Type 0} (b : Backend E) (req : ScheduleRequest) where
  reload_scheduler-tables :
      (s : Server E) → (reload_scheduler b s).world.db.tables ≡ s.world.db.tables
  unfolding reload_scheduler reload list_enabled_schedules
  reload_scheduler-tables s = elim (Bool-cases (s.world.db.fails s.world.db.step)) [
    | inl fails ↦ rw fails refl
    | inr works ↦ rw works refl
  ]

  -- A response with status 201 shows a schedule that is stored as the request wants it.
  abbrev Shows : Response × Server E → Type 0
  Shows r =
      r.0.status ≡ 201
      → (x : ScheduleResponse) × (r.0.body ≡ one_schedule x) × Stored x.id req r.1.world.db.tables

  finish_schedule-Shows :
      (id : ℕ) (s : Server E)
      → ((set_destinations id req.destinations s.world).0 ≡ ok tt
          → Stored id req (set_destinations id req.destinations s.world).1.db.tables)
      → Shows (finish_schedule b id req.destinations (txt "failed to load created schedule") 201 s)
  finish_schedule-Shows id s k =
      call-post Shows (set_destinations id req.destinations) _ _ s (λ e h. absurd (omega arith))
        λ _ linked.
          let s2 : Server E = record s {
            world = (set_destinations id req.destinations s.world).1;
          } in
          let s3 = reload_scheduler b s2 in
          let stored = subst (Stored id req) (sym (reload_scheduler-tables s2)) (k linked) in
          call-post Shows (on_db (get_schedule id)) _ _ s3 (λ e h. absurd (omega arith))
            λ sched loaded _.
              let same = get_schedule-ok id req s3.world.db sched stored loaded in
              let d4 = (get_schedule id s3.world.db).1 in
              (
                _,
                refl,
                subst (Stored sched.id req)
                    (sym (
                      list_schedule_destinations-tables id d4 ∙ get_schedule-tables id s3.world.db))
                    (subst (λ n. Stored n req s3.world.db.tables) (sym same) stored),
              )

  add_schedule-Shows :
      (s : Server E)
      → IsNumbered s.world.db.tables
      → Shows (
          call
            (on_db (create_schedule req.name req.cron_expr req.enabled))
            (λ _. failed_with 500 (txt "failed to create schedule"))
            (λ id.
              finish_schedule b id req.destinations (txt "failed to load created schedule") 201)
            s)
  add_schedule-Shows s numbered =
      call-post Shows (on_db (create_schedule req.name req.cron_expr req.enabled))
        (λ _. failed_with 500 (txt "failed to create schedule"))
        (λ id. finish_schedule b id req.destinations (txt "failed to load created schedule") 201) s
        (λ e h. absurd (omega arith))
        (λ id made. finish_schedule-Shows id _ (created-Stored req s.world.db id numbered made))

  handle_create_schedule-Shows :
      (s : Server E) → IsNumbered s.world.db.tables → Shows (handle_create_schedule b (some req) s)
  unfolding handle_create_schedule
  handle_create_schedule-Shows s numbered = elim (Bool-cases (is_complete req)) [
    | inl full ↦ rw full (add_schedule-Shows s numbered)
    | inr partial ↦ rw partial (λ h. absurd (omega arith))
  ]

  -- Where no two schedules share a number: if a request to create a schedule is answered with status 201, then in
  -- every later state that still holds the schedules and the links of that moment and answers two queries, a
  -- request for the schedule of the id that the response shows is answered with status 200 and the name, the
  -- expression, the state, the destinations and the retentions of the first request, in their order.
  pub handle_get_schedule-handle_create_schedule :
      (s later : Server E)
      → IsNumbered s.world.db.tables
      → let r = handle_create_schedule b (some req) s in
        r.0.status ≡ 201
        → later.world.db.tables.schedules ≡ r.1.world.db.tables.schedules
        → later.world.db.tables.links ≡ r.1.world.db.tables.links
        → later.world.db.fails later.world.db.step ≡ false
        → later.world.db.fails (suc later.world.db.step) ≡ false
        → (x : ScheduleResponse) × (r.0.body ≡ one_schedule x)
          × ((handle_get_schedule (some x.id) later).0
              ≡ respond 200 (
                  one_schedule (record {
                    id = x.id;
                    name = req.name;
                    cron_expr = req.cron_expr;
                    enabled = req.enabled;
                    destinations = req.destinations;
                  })))
  unfolding handle_get_schedule get_schedule list_schedule_destinations
  handle_get_schedule-handle_create_schedule s later numbered made rows links first second =
      let (x, shown, stored) = handle_create_schedule-Shows s numbered made in
      let found = ap (find_first (is_schedule x.id)) rows ∙ stored.found in
      let back = ap (λ ls. map to_input (keep_if (links_of x.id) ls)) links ∙ stored.links_lem in
      (
        x,
        shown,
        rw
            (
              first, found, second, back, stored.id_lem, stored.name_lem, stored.cron_lem,
              stored.enabled_lem,
            )
            refl,
      )
