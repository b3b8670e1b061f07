-- ===== src/Scheduler/Locking.antt =====
-- Runs that overlap (`doRun`, internal/scheduler/job.go): the section under `mirrorMu`, in which a run brings the
-- one mirror up to date and archives it, and the file of the archive until the run removes it. The steps of
-- different runs come in any order; what a step does may fail wherever the code has an error path.
use loxbak.Base.{ℕ, ◌≡◌, Bool, true, false, Option, none, some, ◌==◌, if◌then◌else◌}
use loxbak.Base.Text.{Text, text_eq}

-- Where a run is: in front of `mirrorMu.Lock()`, in `ftp.Mirror`, behind it, in `archiveDir` with its file
-- created, behind that, on an error path in front of the deferred `Unlock`, in the loop over the
-- destinations, and behind the deferred `os.Remove`, or behind its error.
pub data Phase : Type 0 where
  waiting syncing synced archiving archived failing storing ended : Phase

-- What the runs share: who holds the mutex, the run whose synchronization the mirror shows (none while it
-- changes, and where that has failed), and the files of the temporary directory: what an archive was made of,
-- none for one that is not complete.
pub record Shared : Type 0 where
  pub lock : Option ℕ
  pub mirror : Option ℕ
  pub files : Text → Option (Option ℕ)

abbrev pub with_file :
    Text → Option (Option ℕ) → (Text → Option (Option ℕ)) → Text → Option (Option ℕ)
with_file name content files g = if text_eq g name then content else files g

-- `name` is the name of the run's archive. A move is one that the run may make next, not one that it will: a run that
-- hangs in `ftp.Mirror` makes no further move and keeps the mutex.
module _ (name : ℕ → Text) where
  pub data Move (i : ℕ) (m : Shared) : Phase → Shared → Phase → Type 0 where
    -- the mutex is free
    enter : m.lock ≡ none → Move i m waiting (record m { lock = some i; mirror = none }) syncing
    mirror_ok : Move i m syncing (record m { mirror = some i }) synced
    mirror_err : Move i m syncing m failing
    -- `os.Create` of the archive truncates a file of that name, or fails
    create : Move i m synced (record m { files = with_file (name i) (some none) m.files }) archiving
    create_err : Move i m synced m failing
    archive_ok :
        Move i m archiving
          (record m { files = with_file (name i) (some m.mirror) m.files })
          archived
    -- the file stays
    archive_err : Move i m archiving m failing
    leave : Move i m archived (record m { lock = none }) storing
    give_up : Move i m failing (record m { lock = none }) ended
    -- a destination reads the file
    store : Move i m storing m storing
    remove : Move i m storing (record m { files = with_file (name i) none m.files }) ended

  pub record State : Type 0 where
    pub shared : Shared
    pub phase : ℕ → Phase

  abbrev pub set_phase : ℕ → Phase → (ℕ → Phase) → ℕ → Phase
  set_phase i p phase j = if j == i then p else phase j

  pub data Step (s : State) : State → Type 0 where
    step :
        (i : ℕ) (p q : Phase) (m : Shared)
        → s.phase i ≡ p
        → Move i s.shared p m q
        → Step s (record { shared = m; phase = set_phase i q s.phase })

  pub data Steps (s : State) : State → Type 0 where
    here : Steps s s
    next : {t u : State} → Steps s t → Step t u → Steps s u

  -- No run has begun.
  abbrev pub idle : (Text → Option (Option ℕ)) → State
  idle files = record {
    shared = record { lock = none; mirror = none; files = files };
    phase = λ i. waiting;
  }

  -- The mutex is held.
  abbrev pub inside : Phase → Bool
  inside waiting = false
  inside storing = false
  inside ended = false
  inside _ = true
