-- ===== src/Db/Paging.antt =====
-- Reading the run history page by page to its end (`ListRuns`, internal/db/runs.go).
use mathlib.Core.List.{Perm}
use mathlib.Core.List.Perm
use loxbak.Base.{ℕ, zero, suc, ◌*◌, Option, List, [], ◌++◌, keep_if, Result, ok}
use loxbak.Base.Results.{◌>>=◌}
use loxbak.Db.{Run, Db}
use loxbak.Db.Runs.{of_schedule, list_runs}

-- The first `k` pages of one length, one after another, where the database is that of `at i` at the query of
-- page `i`.
abbrev pub pages : Option ℕ → ℕ → (ℕ → Db) → ℕ → Result (List Run)
pages sid limit at zero = ok []
pages sid limit at (suc k) = pages sid limit at k >>= λ rs.
    (list_runs sid limit (k * limit) (at k)).0 >>= λ next. ok (rs ++ next)

module _ (sid : Option ℕ) (limit : ℕ) (at : ℕ → Db) (runs : List Run) where
  abbrev wanted : List Run
  wanted = keep_if (of_schedule sid) runs
