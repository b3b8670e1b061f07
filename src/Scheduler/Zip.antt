-- ===== src/Scheduler/Zip.antt =====
-- `archiveDir` (internal/scheduler/job.go), which a run's `Outside.archive_dir` stands for. The mirror does
-- not change meanwhile, since `mirrorMu` is held; the zip writer and the file behind it are a parameter, on a
-- state `S`.
use loxbak.Base.{ℕ, List, [], ◌∷◌, Error, Result, ok, err, wrap}
use loxbak.Base.Text.{Text, txt}
use loxbak.Archive.{Stamp, archive_filename}
use loxbak.Scheduler.World.{Archive}

-- A call of the function that `filepath.Walk` is given.
pub data Visit : Type 0 where
  unreadable : Error → Visit
  folder : Visit
  regular : Text → Visit

-- The mirror: the walk of its directory, `filepath.Rel` to it, and the contents of its files.
pub record MirrorDir : Type 0 where
  pub walk : List Visit
  pub rel : Text → Result Text
  pub open_file : Text → Result Text

pub record ZipWriter (S : Type 0) : Type 0 where
  pub now : S → Stamp
  -- `os.Create` of a file in the temporary directory, `zip.NewWriter`
  pub create_file : Text → S → Result (Unit {0}) × S
  pub new_writer : S → S
  -- `zw.Create`, and `io.Copy` into the entry that it began
  pub create : Text → S → Result (Unit {0}) × S
  pub copy : Text → S → Result (Unit {0}) × S
  pub close : S → Result (Unit {0}) × S
  -- `os.Stat`, for the size
  pub stat : Text → S → Result ℕ × S

module _ {S : Type 0} (dir : MirrorDir) (zip : ZipWriter S) where
  abbrev pub copied : Result Text → S → Result (Unit {0}) × S
  copied (err e) s = (err e, s)
  copied (ok content) s = zip.copy content s

  abbrev pub filled : Text → Result (Unit {0}) × S → Result (Unit {0}) × S
  filled path (err e, s) = (err e, s)
  filled path (ok _, s) = copied (dir.open_file path) s

  abbrev pub added : Text → Result Text → S → Result (Unit {0}) × S
  added path (err e) s = (err e, s)
  added path (ok name) s = filled path (zip.create name s)

  abbrev pub and_then : Result (Unit {0}) × S → (S → Result (Unit {0}) × S) → Result (Unit {0}) × S
  and_then (err e, s) next = (err e, s)
  and_then (ok _, s) next = next s

  -- The walk ends at the first error.
  unfoldable pub walk_files : List Visit → S → Result (Unit {0}) × S
  walk_files [] s = (ok tt, s)
  walk_files (unreadable e ∷ rest) s = (err e, s)
  walk_files (folder ∷ rest) s = walk_files rest s
  walk_files (regular path ∷ rest) s = and_then (added path (dir.rel path) s) (walk_files rest)

  abbrev pub measured : Text → Result ℕ × S → Result Archive × S
  measured filename (err e, s) = (err (wrap (txt "stat archive") e), s)
  measured filename (ok size, s) = (ok (record { filename = filename; size = size }), s)

  abbrev pub closed : Text → Result (Unit {0}) × S → Result Archive × S
  closed filename (err e, s) = (err (wrap (txt "close archive") e), s)
  closed filename (ok _, s) = measured filename (zip.stat filename s)

  abbrev pub walked : Text → Result (Unit {0}) × S → Result Archive × S
  walked filename (err e, s) = (err (wrap (txt "walk mirrored files") e), (zip.close s).1)
  walked filename (ok _, s) = closed filename (zip.close s)

  abbrev pub created : Text → Result (Unit {0}) × S → Result Archive × S
  created filename (err e, s) = (err (wrap (txt "create archive file") e), s)
  created filename (ok _, s) = walked filename (walk_files dir.walk (zip.new_writer s))

  unfoldable pub archive_dir : Text → S → Result Archive × S
  unfolding archive_filename walk_files
  archive_dir schedule_name s =
      let filename = archive_filename schedule_name (zip.now s) in
      created filename (zip.create_file filename s)
