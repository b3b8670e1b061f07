-- ===== src/Scheduler/Jobs.antt =====
-- What the cron library runs after a reload.
use mathlib.Core.List.{append-nil, append_assoc, map-append}
use loxbak.Base.{
  ℕ, ◌≡◌, refl, ap, sym, ◌∙◌, Bool, true, false, not, List, [], ◌∷◌, ◌++◌, map, ◌==◌, ==_refl,
  keep_if, any_of, any_of-append, Bool-cases, inl, inr, arith, Error, ok, err,
}
use loxbak.Base.Text.{Text}
use loxbak.Db.{Schedule}
use loxbak.Db.Numbering.{Distinct}
use loxbak.Db.Schedules.{list_enabled_schedules}
use loxbak.Scheduler.Cron.{Cron, Entries, put_entry, recorded, remove_entries, add_entries, reload}
use loxbak.Scheduler.World.{World}

-- A function that the library runs on an expression: the one of a schedule, under the entry's id.
pub record Job : Type 0 where
  pub entry : ℕ
  pub schedule_id : ℕ
  pub cron_expr : Text

-- The documented behaviour of the library: it holds the functions added and not removed, in the order of their
-- ids; it refuses an expression that does not parse, and gives each function an id of its own.
pub record IsLawful {E : Type 0} (c : Cron E) : Type 0 where
  pub jobs : E → List Job
  pub parses : Text → Bool
  pub add_ok :
      (expr : Text) (id : ℕ) (x : E)
      → parses expr ≡ true
      → (entry : ℕ) × ((c.add expr id x).0 ≡ ok entry)
        × (jobs (c.add expr id x).1
            ≡ jobs x ++ record { entry = entry; schedule_id = id; cron_expr = expr } ∷ [])
  pub add_err :
      (expr : Text) (id : ℕ) (x : E)
      → parses expr ≡ false
      → (e : Error) × ((c.add expr id x).0 ≡ err e) × (jobs (c.add expr id x).1 ≡ jobs x)
  pub remove_lem :
      (entry : ℕ) (x : E) → jobs (c.remove entry x) ≡ keep_if (λ j. not (j.entry == entry)) (jobs x)

abbrev pub tracked : Job → ℕ × ℕ
tracked j = (j.schedule_id, j.entry)

abbrev pub planned : Job → ℕ × Text
planned j = (j.schedule_id, j.cron_expr)

abbrev pub wanted : Schedule → ℕ × Text
wanted s = (s.id, s.cron_expr)

put_entry-append :
    (id entry : ℕ) (entries : Entries)
    → any_of (λ (e : ℕ × ℕ). e.0 == id) entries ≡ false
    → put_entry id entry entries ≡ entries ++ (id, entry) ∷ []
unfolding put_entry
put_entry-append id entry [] h = refl
put_entry-append id entry ((i, x) ∷ rest) h = ground (arith, put_entry-append id entry rest)

removed-nil :
    (js : List Job) → keep_if (λ j. not (any_of (λ (e : ℕ × ℕ). j.entry == e.1) [])) js ≡ js
removed-nil [] = refl
removed-nil (j ∷ js) = ap (λ t. j ∷ t) (removed-nil js)

removed-cons :
    (i x : ℕ) (es : Entries) (js : List Job)
    → keep_if
        (λ j. not (any_of (λ (e : ℕ × ℕ). j.entry == e.1) es))
        (keep_if (λ j. not (j.entry == x)) js)
      ≡ keep_if (λ j. not (any_of (λ (e : ℕ × ℕ). j.entry == e.1) ((i, x) ∷ es))) js
removed-cons i x es [] = refl
removed-cons i x es (j ∷ js) = ground (arith, removed-cons i x es js)

any_of-tracked :
    (ks : List Job) (j : Job) (js : List Job)
    → any_of (λ (e : ℕ × ℕ). j.entry == e.1) (map tracked (ks ++ j ∷ js)) ≡ true
any_of-tracked [] j js = rw (==_refl j.entry) refl
any_of-tracked (k ∷ ks) j js = ground (arith, any_of-tracked ks j js)

-- Removing every entry that is tracked leaves nothing.
removed-tracked :
    (ks js : List Job)
    → keep_if (λ j. not (any_of (λ (e : ℕ × ℕ). j.entry == e.1) (map tracked (ks ++ js)))) js ≡ []
removed-tracked ks [] = refl
removed-tracked ks (j ∷ js) = rw (any_of-tracked ks j js) (
    ap (λ t. keep_if (λ j. not (any_of (λ (e : ℕ × ℕ). j.entry == e.1) (map tracked t))) js)
      (sym (append_assoc ks (j ∷ []) js))
    ∙ removed-tracked (ks ++ j ∷ []) js)

-- No entry is one of these schedules.
abbrev Fresh : Entries → List Schedule → Type 0
Fresh entries [] = Unit
Fresh entries (s ∷ rest) =
    (any_of (λ (e : ℕ × ℕ). e.0 == s.id) entries ≡ false) × Fresh entries rest

Fresh-nil : (schedules : List Schedule) → Fresh [] schedules
Fresh-nil [] = tt
Fresh-nil (s ∷ rest) = (refl, Fresh-nil rest)

Fresh-append :
    (entries : Entries) (id entry : ℕ) (schedules : List Schedule)
    → any_of (λ (t : Schedule). t.id == id) schedules ≡ false
    → Fresh entries schedules
    → Fresh (entries ++ (id, entry) ∷ []) schedules
Fresh-append entries id entry [] h k = tt
Fresh-append entries id entry (s ∷ rest) h (p, k) = (
  rw (any_of-append (λ (e : ℕ × ℕ). e.0 == s.id) entries ((id, entry) ∷ []), p) (ground arith),
  Fresh-append entries id entry rest (ground arith) k,
)

module _ {E : Type 0} (c : Cron E) (law : IsLawful c) where
  open law use {jobs, parses, add_ok, add_err, remove_lem}

  remove_entries-jobs :
      (entries : Entries) (x : E)
      → jobs (remove_entries c entries x)
        ≡ keep_if (λ j. not (any_of (λ (e : ℕ × ℕ). j.entry == e.1) entries)) (jobs x)
  unfolding remove_entries
  remove_entries-jobs [] x = sym (removed-nil (jobs x))
  remove_entries-jobs ((i, entry) ∷ rest) x =
      remove_entries-jobs rest (c.remove entry x)
      ∙ ap (keep_if (λ j. not (any_of (λ (e : ℕ × ℕ). j.entry == e.1) rest))) (remove_lem entry x)
      ∙ removed-cons i entry rest (jobs x)

  -- The entries and the jobs behind `add_entries`.
  abbrev pub Loaded : List (ℕ × Text) → Entries × E → Type 0
  Loaded plan r = (map tracked (jobs r.1) ≡ r.0) × (map planned (jobs r.1) ≡ plan)

  add_entries-ok :
      (s : Schedule) (rest : List Schedule) (entries : Entries) (x : E) (entry : ℕ)
      → (c.add s.cron_expr s.id x).0 ≡ ok entry
      → any_of (λ (e : ℕ × ℕ). e.0 == s.id) entries ≡ false
      → add_entries c (s ∷ rest) entries x
        ≡ add_entries c rest (entries ++ (s.id, entry) ∷ []) (c.add s.cron_expr s.id x).1
  unfolding add_entries
  add_entries-ok s rest entries x entry added fresh =
      ap (λ r. add_entries c rest (recorded r s.id entries) (c.add s.cron_expr s.id x).1) added
      ∙ ap (λ t. add_entries c rest t (c.add s.cron_expr s.id x).1)
          (put_entry-append s.id entry entries fresh)

  add_entries-err :
      (s : Schedule) (rest : List Schedule) (entries : Entries) (x : E) (e : Error)
      → (c.add s.cron_expr s.id x).0 ≡ err e
      → add_entries c (s ∷ rest) entries x ≡ add_entries c rest entries (c.add s.cron_expr s.id x).1
  unfolding add_entries
  add_entries-err s rest entries x e refused =
      ap (λ r. add_entries c rest (recorded r s.id entries) (c.add s.cron_expr s.id x).1) refused

  abbrev pub accepted : List Schedule → List (ℕ × Text)
  accepted schedules = map wanted (keep_if (λ s. parses s.cron_expr) schedules)

  add_entries-Loaded :
      (schedules : List Schedule) (entries : Entries) (x : E)
      → Distinct schedules
      → Fresh entries schedules
      → map tracked (jobs x) ≡ entries
      → Loaded (map planned (jobs x) ++ accepted schedules) (add_entries c schedules entries x)
  add_entries-Loaded [] entries x d f t =
      unfold add_entries in (t, sym (append-nil (map planned (jobs x))))
  add_entries-Loaded (s ∷ rest) entries x (d, ds) (f, fs) t =
      elim (Bool-cases (parses s.cron_expr)) [
        | inl good ↦
            let (entry, added, grown) = add_ok s.cron_expr s.id x good in
            let job : Job = record { entry = entry; schedule_id = s.id; cron_expr = s.cron_expr } in
            let next =
              add_entries-Loaded rest (entries ++ (s.id, entry) ∷ []) (c.add s.cron_expr s.id x).1
                ds (Fresh-append entries s.id entry rest d fs)
                (ap (map tracked) grown
                  ∙ map-append tracked (jobs x) (job ∷ [])
                  ∙ ap (λ u. u ++ (s.id, entry) ∷ []) t) in
            rw (add_entries-ok s rest entries x entry added f, good)
              (
                next.0,
                next.1
                    ∙ ap (λ u. map planned u ++ accepted rest) grown
                    ∙ ap (λ u. u ++ accepted rest) (map-append planned (jobs x) (job ∷ []))
                    ∙ append_assoc (map planned (jobs x)) (wanted s ∷ []) (accepted rest),
              )
        | inr bad ↦
            let (e, refused, same) = add_err s.cron_expr s.id x bad in
            let next =
              add_entries-Loaded rest entries (c.add s.cron_expr s.id x).1 ds fs
                (ap (map tracked) same ∙ t) in
            rw (add_entries-err s rest entries x e refused, bad)
              (next.0, next.1 ∙ ap (λ u. map planned u ++ accepted rest) same)
      ]

  -- What a reload puts in place of the jobs, once it has read the schedules.
  pub installed :
      (entries : Entries) (x : E) (schedules : List Schedule)
      → map tracked (jobs x) ≡ entries
      → Distinct schedules
      → Loaded (accepted schedules) (add_entries c schedules [] (remove_entries c entries x))
  installed entries x schedules t d =
      let cleared = remove_entries c entries x in
      let none_left : jobs cleared ≡ [] =
        remove_entries-jobs entries x
        ∙ ap (λ es. keep_if (λ j. not (any_of (λ (e : ℕ × ℕ). j.entry == e.1) es)) (jobs x)) (sym t)
        ∙ removed-tracked [] (jobs x) in
      let (kept, plan) =
        add_entries-Loaded schedules [] cleared d (Fresh-nil schedules)
          (ap (map tracked) none_left) in
      (kept, plan ∙ ap (λ u. map planned u ++ accepted schedules) none_left)

  -- Where the entries are those of the library's jobs, a reload whose query goes through leaves one job for each
  -- enabled schedule whose expression parses, in the order of the table, with its current expression, and no
  -- other; and the entries are those of the jobs again.
  pub reload_jobs :
      (entries : Entries) (w : World E)
      → map tracked (jobs w.outside) ≡ entries
      → w.db.fails w.db.step ≡ false
      → Distinct (keep_if (λ s. s.enabled) w.db.tables.schedules)
      → let r = reload c entries w in
        (r.0.0 ≡ ok tt)
        × (map planned (jobs r.1.outside)
            ≡ map wanted (
                keep_if (λ s. parses s.cron_expr) (keep_if (λ s. s.enabled) w.db.tables.schedules)))
        × (map tracked (jobs r.1.outside) ≡ r.0.1)
  unfolding reload list_enabled_schedules
  reload_jobs entries w t works d =
      let (kept, plan) =
        installed entries w.outside (keep_if (λ s. s.enabled) w.db.tables.schedules) t d in
      rw works (refl, plan, kept)
