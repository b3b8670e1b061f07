-- ===== src/Api/Pages.antt =====
-- The size of a page of the run history.
use loxbak.Base.{
  ℕ, ◌≡◌, ◌≤◌, ◌<◌, ap, sym, Option, some, List, [], ◌∷◌, length, take, length-take, drop, keep_if,
  Bool-cases, inl, inr, arith, Result, ok, ok-injective, err-ne-ok,
}
use loxbak.Base.Int.{ℤ, pos, negsuc}
use loxbak.Api.{Response, RunResponse, Server, respond, runs}
use loxbak.Api.Rules.{given-post, call-post, bind-post}
use loxbak.Api.Runs.{
  Param, absent, malformed, value, to_run_response, schedule_param, limit_param, offset_param,
  run_responses, handle_list_runs,
}
use loxbak.Db.{Run, Db}
use loxbak.Db.Sql.{query}
use loxbak.Db.Runs.{list_runs, newest_first, of_schedule, list_run_destination_results}
use loxbak.Scheduler.World.{World, on_db}

-- How many runs a request asks for: those of its limit, where that is a number above zero, and 50 where there is
-- no limit; 0 stands for a limit that is no number above zero.
abbrev pub asked : Param ℤ → ℕ
asked absent = 50
asked malformed = 0
asked (value (pos n)) = n
asked (value (negsuc n)) = 0

limit_param-asked :
    (limit : Param ℤ) (n : ℕ) → limit_param limit ≡ some n → (n ≡ asked limit) × (0 < n)
limit_param-asked absent n h = ground arith
limit_param-asked malformed n h = cc
limit_param-asked (value (pos m)) n h = ground arith
limit_param-asked (value (negsuc m)) n h = cc

list_runs-length :
    (sid : Option ℕ) (n m : ℕ) (d : Db) (rs : List Run)
    → (list_runs sid n m d).0 ≡ ok rs
    → length rs ≤ n
unfolding list_runs query
list_runs-length sid n m d rs h = elim (Bool-cases (d.fails d.step)) [
  | inl e ↦ absurd (err-ne-ok (rw e at h))
  | inr e ↦
      let page : take n (drop m (newest_first [] (keep_if (of_schedule sid) d.tables.runs))) ≡ rs =
        ok-injective _ _ (rw e at h) in
      omega (
        arith,
        ap (length {A = Run}) page,
        length-take n (drop m (newest_first [] (keep_if (of_schedule sid) d.tables.runs))),
      )
]

-- A loop that ends without an error has a response for each run.
abbrev OneEach : List Run → Result (List RunResponse) → Type 0
OneEach rs r = (out : List RunResponse) → r ≡ ok out → length out ≡ length rs

cons-OneEach :
    (x : RunResponse) (run : Run) (rest : List Run) (later : List RunResponse)
    → length later ≡ length rest
    → OneEach (run ∷ rest) (ok (x ∷ later))
cons-OneEach x run rest later h out e =
    omega (arith, ap (length {A = RunResponse}) (ok-injective (x ∷ later) out e))

module _ {E : Type 0} where
  run_responses-OneEach : (rs : List Run) (w : World E) → OneEach rs (run_responses rs w).0
  unfolding run_responses
  run_responses-OneEach [] w = λ out e. sym (ap length (ok-injective [] out e))
  run_responses-OneEach (run ∷ rest) w =
      bind-post (OneEach (run ∷ rest)) (λ x out e. absurd (err-ne-ok e))
        (on_db (list_run_destination_results run.id)) _ w
        (λ results _.
          bind-post (OneEach (run ∷ rest)) (λ x out e. absurd (err-ne-ok e)) (run_responses rest) _
            _
            (λ later each.
              cons-OneEach (to_run_response run results) run rest later
                (run_responses-OneEach rest _ later each)))

  abbrev WithinLimit : Param ℤ → Response × Server E → Type 0
  WithinLimit limit r =
      (out : List RunResponse)
      → r.0 ≡ respond 200 (runs out)
      → (0 < asked limit) × (length out ≤ asked limit)

  -- A page of the run history is answered only where the limit of the request is a number above zero or missing, and
  -- holds at most as many runs as the limit, and at most 50 where there is none.
  pub handle_list_runs_bounds :
      (schedule_id : Param ℕ) (limit offset : Param ℤ) (s : Server E) (out : List RunResponse)
      → (handle_list_runs schedule_id limit offset s).0 ≡ respond 200 (runs out)
      → (0 < asked limit) × (length out ≤ asked limit)
  unfolding handle_list_runs
  handle_list_runs_bounds schedule_id limit offset s out =
      given-post (WithinLimit limit) (schedule_param schedule_id) _ _ s (λ out e. cc)
        (λ sid _.
          given-post (WithinLimit limit) (limit_param limit) _ _ s (λ out e. cc)
            (λ n positive.
              given-post (WithinLimit limit) (offset_param offset) _ _ s (λ out e. cc)
                (λ m _.
                  call-post (WithinLimit limit) (on_db (list_runs sid n m)) _ _ s (λ x out e. cc)
                    (λ rs listed.
                      call-post (WithinLimit limit) (run_responses rs) _ _ _ (λ x out e. cc)
                        (λ rrs each out e.
                          let same : rrs ≡ out = cc in
                          let many = run_responses-OneEach rs _ rrs each in
                          let few = list_runs-length sid n m s.world.db rs listed in
                          let (right, above) = limit_param-asked limit n positive in
                          (
                            omega (arith, right, above),
                            omega (arith, right, ap (length {A = RunResponse}) same),
                          ))))))
        out
