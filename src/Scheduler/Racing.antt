-- ===== src/Scheduler/Racing.antt =====
-- Reloads that overlap (`Reload`, internal/scheduler/scheduler.go): each reads the schedules before it takes the
-- mutex under which it replaces the entries, so other reloads, and other writes of the table, may come between.
use mathlib.Core.Option.{some-injective}
use loxbak.Base.{
  ℕ, ◌≡◌, refl, subst, Option, none, some, List, [], map, keep_if, ◌==◌, Bool-cases, inl, inr,
  if◌then◌else◌,
}
use loxbak.Db.{Schedule}
use loxbak.Db.Numbering.{Distinct}
use loxbak.Scheduler.Cron.{Cron, Entries, remove_entries, add_entries}
use loxbak.Scheduler.Jobs.{IsLawful, tracked, planned, wanted, installed}

-- The table of the schedules that are enabled, the entries, the cron library, and what each reload that is under
-- way has read.
pub record Race (E : Type 0) : Type 0 where
  pub enabled : List Schedule
  pub entries : Entries
  pub outside : E
  pub read : ℕ → Option (List Schedule)

abbrev pub set_read :
    ℕ → Option (List Schedule) → (ℕ → Option (List Schedule)) → ℕ → Option (List Schedule)
set_read i what read j = if j == i then what else read j

-- No reload is under way.
abbrev pub IsIdle : {E : Type 0} → Race E → Type 0
IsIdle s = (i : ℕ) → s.read i ≡ none

module _ {E : Type 0} (c : Cron E) where
  -- The part of a reload under the mutex.
  unfoldable pub replaced : ℕ → List Schedule → Race E → Race E
  unfolding remove_entries add_entries
  replaced i schedules s =
      let (entries, x) = add_entries c schedules [] (remove_entries c s.entries s.outside) in
      record s { entries = entries; outside = x; read = set_read i none s.read }

  pub data Step (s : Race E) : Race E → Type 0 where
    query : (i : ℕ) → Step s (record s { read = set_read i (some s.enabled) s.read })
    replace :
        (i : ℕ) (schedules : List Schedule)
        → s.read i ≡ some schedules
        → Step s (replaced i schedules s)
    -- a request changes the table
    write :
        (schedules : List Schedule) → Distinct schedules → Step s (record s { enabled = schedules })

  pub data Steps (s : Race E) : Race E → Type 0 where
    here : Steps s s
    next : {t u : Race E} → Steps s t → Step t u → Steps s u

module _ {E : Type 0} (c : Cron E) (law : IsLawful c) where
  open law use {jobs, parses}

  abbrev Snapshots : (ℕ → Option (List Schedule)) → Type 0
  Snapshots read =
      (i : ℕ) (schedules : List Schedule) → read i ≡ some schedules → Distinct schedules

  pub record IsTracked (s : Race E) : Type 0 where
    pub distinct : Distinct s.enabled
    pub snapshots : Snapshots s.read
    pub same : map tracked (jobs s.outside) ≡ s.entries

  set_read-Snapshots :
      (i : ℕ) (what : Option (List Schedule)) (read : ℕ → Option (List Schedule))
      → ((schedules : List Schedule) → what ≡ some schedules → Distinct schedules)
      → Snapshots read
      → Snapshots (set_read i what read)
  set_read-Snapshots i what read k h j schedules e = elim (Bool-cases (j == i)) [
    | inl x ↦ k schedules (rw x at e)
    | inr x ↦ h j schedules (rw x at e)
  ]

  Step-IsTracked : {s t : Race E} → Step c s t → IsTracked s → IsTracked t
  unfolding replaced
  Step-IsTracked {s} (query i) h = record {
    distinct = h.distinct;
    snapshots =
        set_read-Snapshots i (some s.enabled) s.read
          (λ ss e. subst Distinct (some-injective _ _ e) h.distinct) h.snapshots;
    same = h.same;
  }
  Step-IsTracked {s} (replace i schedules e) h = record {
    distinct = h.distinct;
    snapshots = set_read-Snapshots i none s.read (λ ss e. cc) h.snapshots;
    same = (installed c law s.entries s.outside schedules h.same (h.snapshots i schedules e)).0;
  }
  Step-IsTracked (write schedules d) h = record {
    distinct = d;
    snapshots = h.snapshots;
    same = h.same;
  }

  Steps-IsTracked : {s t : Race E} → Steps c s t → IsTracked s → IsTracked t
  Steps-IsTracked here h = h
  Steps-IsTracked (next r st) h = Step-IsTracked st (Steps-IsTracked r h)

  idle-IsTracked :
      (s : Race E)
      → Distinct s.enabled
      → map tracked (jobs s.outside) ≡ s.entries
      → IsIdle s
      → IsTracked s
  idle-IsTracked s d t idle = record {
    distinct = d;
    snapshots = λ i ss e. cc (idle i, e);
    same = t;
  }

  -- However reloads and changes of the table overlap, the entries stay those of the library's jobs, none lost and
  -- none twice; and a reload that takes the mutex leaves one job for each schedule that it has read and whose
  -- expression parses, and no other.
  races_tracked :
      (s : Race E) {t : Race E}
      → Distinct s.enabled
      → map tracked (jobs s.outside) ≡ s.entries
      → IsIdle s
      → Steps c s t
      → (map tracked (jobs t.outside) ≡ t.entries)
        × ((i : ℕ) (schedules : List Schedule)
            → t.read i ≡ some schedules
            → map planned (jobs (replaced c i schedules t).outside)
              ≡ map wanted (keep_if (λ x. parses x.cron_expr) schedules))
  unfolding replaced
  races_tracked s {t} d same idle r =
      let h = Steps-IsTracked r (idle-IsTracked s d same idle) in
      (
        h.same,
        λ i schedules e.
            (installed c law t.entries t.outside schedules h.same (h.snapshots i schedules e)).1,
      )

  -- Two reloads, the first of which reads the table before it is changed and takes the mutex after the second has
  -- read the new table and replaced the entries.
  abbrev noted : Race E → Race E
  noted s = record s { read = set_read 0 (some s.enabled) s.read }

  abbrev changed : List Schedule → Race E → Race E
  changed new s = record s { enabled = new; read = set_read 1 (some new) (noted s).read }

  overtaken :
      (s : Race E) (new : List Schedule)
      → Distinct new
      → Steps c s (replaced c 1 new (changed new s))
  overtaken s new d =
      next (next (next (next here (query 0)) (write new d)) (query 1)) (replace 1 new refl)

  overtaken-IsIdle :
      (s : Race E) (new : List Schedule)
      → IsIdle s
      → IsIdle (replaced c 0 s.enabled (replaced c 1 new (changed new s)))
  unfolding replaced
  overtaken-IsIdle s new idle i = elim (Bool-cases (i == 0)) [
    | inl x ↦ rw x refl
    | inr x ↦ elim (Bool-cases (i == 1)) [ inl y ↦ rw (x, y) refl | inr y ↦ rw (x, y) (idle i) ]
  ]

  -- But two reloads may overlap in such a way that, with both of them done and none under way, the jobs are those
  -- of a table that has been changed since, whatever it was changed to.
  pub stale_reload :
      (s : Race E) (new : List Schedule)
      → Distinct s.enabled
      → map tracked (jobs s.outside) ≡ s.entries
      → IsIdle s
      → Distinct new
      → (t : Race E) × Steps c s t
        × (t.enabled ≡ new)
        × IsIdle t
        × (map planned (jobs t.outside) ≡ map wanted (keep_if (λ x. parses x.cron_expr) s.enabled))
  unfolding replaced
  stale_reload s new d same idle d' =
      let before = replaced c 1 new (changed new s) in
      let steps = overtaken s new d' in
      let h = Steps-IsTracked steps (idle-IsTracked s d same idle) in
      (
        replaced c 0 s.enabled before,
        next steps (replace 0 s.enabled refl),
        refl,
        overtaken-IsIdle s new idle,
        (installed c law before.entries before.outside s.enabled h.same d).1,
      )
