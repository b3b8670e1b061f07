-- ===== src/Tests/Reloads.antt =====
-- A reload of the cron library, as the list of its jobs behind the last id that it gave.
use loxbak.Base.{
  ℕ, suc, ◌≡◌, refl, true, false, not, List, [], ◌∷◌, ◌++◌, ◌==◌, keep_if, errorf, Result, ok, err,
  Error,
}
use loxbak.Base.Text.{Text, is_empty}
use loxbak.Db.Calls
use loxbak.Db.Calls.{Call, perform, perform_all}
use loxbak.Db.Schedules.{list_enabled_schedules}
use loxbak.Scheduler.Cron.{Cron, reload, remove_entries, add_entries, put_entry}
use loxbak.Scheduler.Jobs.{Job, IsLawful}
use loxbak.Scheduler.World.{World}
use loxbak.Tests.Tables.{working}

abbrev pub Library : Type 0
Library = ℕ × List Job

abbrev enrolled : Text → ℕ → Library → Result ℕ × Library
enrolled [] id x = (err (errorf []), x)
enrolled (c ∷ cs) id (n, jobs) = (
  ok (suc n),
  (suc n, jobs ++ record { entry = suc n; schedule_id = id; cron_expr = c ∷ cs } ∷ []),
)

abbrev pub library : Cron Library
library = record {
  add = enrolled;
  remove = λ entry x. (x.0, keep_if (λ j. not (j.entry == entry)) x.1);
}

pub enrolled_ok :
    (expr : Text) (id : ℕ) (x : Library)
    → not (is_empty expr) ≡ true
    → (entry : ℕ) × ((enrolled expr id x).0 ≡ ok entry)
      × ((enrolled expr id x).1.1
          ≡ x.1 ++ record { entry = entry; schedule_id = id; cron_expr = expr } ∷ [])
enrolled_ok [] id x e = cc
enrolled_ok (c ∷ cs) id (n, jobs) e = (suc n, refl, refl)

pub enrolled_err :
    (expr : Text) (id : ℕ) (x : Library)
    → not (is_empty expr) ≡ false
    → (e : Error) × ((enrolled expr id x).0 ≡ err e) × ((enrolled expr id x).1.1 ≡ x.1)
enrolled_err [] id x e = (errorf [], refl, refl)
enrolled_err (c ∷ cs) id x e = cc

unfoldable pub library-IsLawful : IsLawful library
library-IsLawful = record {
  jobs = λ x. x.1;
  parses = λ expr. not (is_empty expr);
  add_ok = enrolled_ok;
  add_err = enrolled_err;
  remove_lem = λ entry x. refl;
}

-- The second schedule is disabled, and the third has no expression.
abbrev schedules : List Call
schedules =
    Calls.create_schedule (b'd' ∷ []) (b'*' ∷ []) true
    ∷ Calls.create_schedule (b'e' ∷ []) (b'*' ∷ []) false
    ∷ Calls.create_schedule (b'f' ∷ []) [] true
    ∷ []

-- A job of the first schedule with an expression that it no longer has.
unfoldable scheduled : World Library
unfolding perform_all perform
scheduled = record {
  db = perform_all schedules working;
  outside = (5, record { entry = 5; schedule_id = 1; cron_expr = b'@' ∷ [] } ∷ []);
  pending = [];
}

reloaded :
    (reload library ((1, 5) ∷ []) scheduled).1.outside
    ≡ (6, record { entry = 6; schedule_id = 1; cron_expr = b'*' ∷ [] } ∷ [])
unfolding reload scheduled remove_entries add_entries put_entry list_enabled_schedules
reloaded = refl
