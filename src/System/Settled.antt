-- ===== src/System/Settled.antt =====
-- The state that the handlers of internal/api leave the server in, and how they put calls together.
use loxbak.Base.{
  ◌≡◌, refl, ap, ◌∙◌, Bool, true, false, Option, none, some, List, map, Bool-cases, inl, inr, Error,
  Result, ok, err,
}
use loxbak.Api.{
  Response, Backend, Server, Handler, check, given, branch, call, look, reload_scheduler,
}
use loxbak.Db.Integrity.{IsSafe}
use loxbak.Db.Numbering.{keep_if-Distinct}
use loxbak.Db.Schedules.{list_enabled_schedules}
use loxbak.Scheduler.Cron.{reload}
use loxbak.Scheduler.Jobs.{Job, IsLawful, tracked, reload_jobs}
use loxbak.Scheduler.Sound.{IsSound}
use loxbak.Scheduler.World.{World, R}
use loxbak.System.Calls.{LeavesBackend, IsQuiet}

-- The tables are in order, and the entries are those of the jobs.
abbrev pub IsSettled : {E : Type 0} → (E → List Job) → Server E → Type 0
IsSettled jobs s = IsSafe s.world.db.tables × (map tracked (jobs s.world.outside) ≡ s.entries)

module _ {E : Type 0} (b : Backend E) (law : IsLawful b.cron)
    (leaves : LeavesBackend law.jobs b) where
  open law use {jobs}

  abbrev pub Settles : Handler E → Type 0
  Settles h = (s : Server E) → IsSettled jobs s → IsSettled jobs (h s).1

  abbrev pub Quiet : {A : Type 0} → R E A → Type 0
  Quiet m = IsQuiet b jobs leaves m

  pub world-IsSettled :
      (w : World E) (s : Server E)
      → (IsSound IsSafe jobs (jobs s.world.outside) s.world
          → IsSound IsSafe jobs (jobs s.world.outside) w)
      → IsSettled jobs s
      → IsSettled jobs (record s { world = w })
  world-IsSettled w s k (p, q) = let (p', same) = k (p, refl) in (p', ap (map tracked) same ∙ q)

  pub check-Settles :
      (good : Bool) (bad : Response) (next : Handler E)
      → Settles next
      → Settles (check good bad next)
  check-Settles true bad next k s h = k s h
  check-Settles false bad next k s h = h

  module _ {A : Type 0} where
    pub given-Settles :
        (o : Option A) (bad : Response) (next : A → Handler E)
        → ((a : A) → o ≡ some a → Settles (next a))
        → Settles (given o bad next)
    given-Settles none bad next k s h = h
    given-Settles (some a) bad next k s h = k a refl s h

    branch-Settles :
        (r : Result A) (bad : Error → Response) (next : A → Handler E)
        → ((a : A) → r ≡ ok a → Settles (next a))
        → Settles (branch r bad next)
    branch-Settles (ok a) bad next k s h = k a refl s h
    branch-Settles (err e) bad next k s h = h

    -- The handler goes on with what the call has returned in some world.
    pub call-Settles :
        (m : R E A) (bad : Error → Response) (next : A → Handler E)
        → Quiet m
        → ((a : A) (w : World E) → (m w).0 ≡ ok a → Settles (next a))
        → Settles (call m bad next)
    call-Settles m bad next quiet k s h =
        branch-Settles (m s.world).0 bad next (λ a e. k a s.world e)
          (record s { world = (m s.world).1 })
          (world-IsSettled (m s.world).1 s (quiet (jobs s.world.outside) s.world) h)

    pub look-Settles :
        (m : R E A) (next : Result A → Handler E)
        → Quiet m
        → ((r : Result A) → Settles (next r))
        → Settles (look m next)
    look-Settles m next quiet k s h =
        k (m s.world).0 (record s { world = (m s.world).1 })
          (world-IsSettled (m s.world).1 s (quiet (jobs s.world.outside) s.world) h)

  -- A reload that cannot read the schedules leaves the jobs and the entries as they were.
  reload-IsSettled :
      (s : Server E)
      → IsSettled jobs s
      → let r = reload b.cron s.entries s.world in
        IsSafe r.1.db.tables × (map tracked (jobs r.1.outside) ≡ r.0.1)
  unfolding reload list_enabled_schedules
  reload-IsSettled s (p, q) = elim (Bool-cases (s.world.db.fails s.world.db.step)) [
    | inl fails ↦ rw fails (p, q)
    | inr works ↦
        let (_, _, same) =
          reload_jobs b.cron law s.entries s.world q works
            (keep_if-Distinct _ s.world.db.tables.schedules p.1.distinct) in
        (rw works p, same)
  ]

  pub reload_scheduler-IsSettled :
      (s : Server E) → IsSettled jobs s → IsSettled jobs (reload_scheduler b s)
  unfolding reload_scheduler
  reload_scheduler-IsSettled s h = reload-IsSettled s h
