-- ===== src/Scheduler/World.antt =====
-- What a run works on: the database, the outside (the Miniserver's mirror, the archive and the
-- destinations), and the runs started in the background.
use loxbak.Base.{ℕ, List, Result, ok, err, wrap_err}
use loxbak.Base.Int.{ℤ}
use loxbak.Base.Text.{Text}
use loxbak.Crypto.{Cipher}
use loxbak.Db.{Db, M}
use loxbak.Destinations.{Destination}

-- What `archiveDir` returns: the base name of the archive, and its size.
pub record Archive : Type 0 where
  pub filename : Text
  pub size : ℕ

-- The parts of a run that work on the outside, whose state is `E`. Each may fail, at any time.
pub record Outside (E : Type 0) : Type 0 where
  -- `ftp.Mirror` with host, port, user name and password
  pub mirror : Text → ℤ → Text → Text → E → Result (Unit {0}) × E
  -- `archiveDir` of the mirror for a schedule's name
  pub archive_dir : Text → E → Result Archive × E
  -- `os.Open(archivePath)`, with the bytes that reading yields
  pub open_archive : E → Result Text × E
  -- `os.Remove(archivePath)`
  pub remove_archive : E → E
  -- `destinations.Build` of a type, name, configuration and secret
  pub build : Text → Text → Text → Text → Result (Destination E)
  pub cipher : Cipher
  pub master_key : Text

-- A run that `TriggerRun` started: the schedule and the run.
pub record Pending : Type 0 where
  pub schedule_id : ℕ
  pub run_id : ℕ

pub record World (E : Type 0) : Type 0 where
  pub db : Db
  pub outside : E
  pub pending : List Pending

abbrev pub R : Type 0 → Type 0 → Type 0
R E A = World E → Result A × World E

module _ {E A : Type 0} where
  abbrev pub on_db : M A → R E A
  on_db m w = let (r, d) = m w.db in (r, record w { db = d })

  abbrev pub on_outside : (E → Result A × E) → R E A
  on_outside f w = let (r, x) = f w.outside in (r, record w { outside = x })

  abbrev pub returned : Result A → R E A
  returned r w = (r, w)

  abbrev pub wrapping : Text → R E A → R E A
  wrapping t m w = let (r, w') = m w in (wrap_err t r, w')

module _ {E A B : Type 0} where
  abbrev pub continue : Result A → (A → R E B) → R E B
  continue (ok a) f w = f a w
  continue (err e) f w = (err e, w)

  infixl 5 ◌>>=◌ ◌>>◌
  abbrev pub ◌>>=◌ : R E A → (A → R E B) → R E B
  ◌>>=◌ m f w = let (r, w') = m w in continue r f w'

  abbrev pub ◌>>◌ : R E A → R E B → R E B
  m >> n = m >>= λ _. n
