-- ===== src/Scheduler/Zipped.antt =====
-- What the archive of a mirror holds.
use mathlib.Core.List.{append_assoc, append-nil}
use loxbak.Base.{
  ℕ, ◌≡◌, refl, ap, sym, subst, ◌∙◌, List, [], ◌∷◌, ◌++◌, Result, ok, err, ok-injective, err-ne-ok,
}
use loxbak.Base.Text.{Text}
use loxbak.Archive.{archive_filename}
use loxbak.Scheduler.World.{Archive}
use loxbak.Scheduler.Zip.{
  Visit, unreadable, folder, regular, MirrorDir, ZipWriter, copied, filled, added, and_then,
  walk_files, measured, closed, walked, created, archive_dir,
}

-- The documented behaviour of the zip writer: a new one has no entries, `Create` begins an empty entry behind
-- the others, copying fills the entry that was begun last, and closing and `os.Stat` change none.
pub record IsLawful {S : Type 0} (zip : ZipWriter S) : Type 0 where
  pub entries : S → List (Text × Text)
  pub new_writer_lem : (s : S) → entries (zip.new_writer s) ≡ []
  pub create_ok :
      (name : Text) (s : S)
      → (zip.create name s).0 ≡ ok tt
      → entries (zip.create name s).1 ≡ entries s ++ (name, []) ∷ []
  pub copy_ok :
      (content : Text) (s : S) (front : List (Text × Text)) (name : Text)
      → entries s ≡ front ++ (name, []) ∷ []
      → (zip.copy content s).0 ≡ ok tt
      → entries (zip.copy content s).1 ≡ front ++ (name, content) ∷ []
  pub close_lem : (s : S) → entries (zip.close s).1 ≡ entries s
  pub stat_lem : (filename : Text) (s : S) → entries (zip.stat filename s).1 ≡ entries s

-- The entries are those of the regular files of a walk that met no error, in its order: each under its path
-- relative to the mirror, with its content.
abbrev pub Holds : MirrorDir → List Visit → List (Text × Text) → Type 0
Holds dir [] es = es ≡ []
Holds dir (unreadable e ∷ rest) es = ⊥
Holds dir (folder ∷ rest) es = Holds dir rest es
Holds dir (regular path ∷ rest) es =
    (name : Text) × (content : Text) × (later : List (Text × Text)) × (dir.rel path ≡ ok name)
    × (dir.open_file path ≡ ok content)
    × (es ≡ (name, content) ∷ later)
    × Holds dir rest later

module _ {S : Type 0} (dir : MirrorDir) (zip : ZipWriter S) (law : IsLawful zip) where
  open law use {entries, new_writer_lem, create_ok, copy_ok, close_lem, stat_lem}

  abbrev Added : Text → S → S → Type 0
  Added path s s' =
      (name : Text) × (content : Text) × (dir.rel path ≡ ok name)
      × (dir.open_file path ≡ ok content)
      × (entries s' ≡ entries s ++ (name, content) ∷ [])

  copied-ok :
      (r : Result Text) (s : S) (front : List (Text × Text)) (name : Text)
      → entries s ≡ front ++ (name, []) ∷ []
      → (copied dir zip r s).0 ≡ ok tt
      → (content : Text) × (r ≡ ok content)
        × (entries (copied dir zip r s).1 ≡ front ++ (name, content) ∷ [])
  copied-ok (err x) s front name h e = absurd (err-ne-ok e)
  copied-ok (ok content) s front name h e = (content, refl, copy_ok content s front name h e)

  filled-ok :
      (path name : Text) (s : S) (m : Result (Unit {0}) × S)
      → (m.0 ≡ ok tt → entries m.1 ≡ entries s ++ (name, []) ∷ [])
      → (filled dir zip path m).0 ≡ ok tt
      → (content : Text) × (dir.open_file path ≡ ok content)
        × (entries (filled dir zip path m).1 ≡ entries s ++ (name, content) ∷ [])
  filled-ok path name s (err x, s1) h e = absurd (err-ne-ok e)
  filled-ok path name s (ok _, s1) h e =
      copied-ok (dir.open_file path) s1 (entries s) name (h refl) e

  added-ok :
      (path : Text) (r : Result Text) (s : S)
      → dir.rel path ≡ r
      → (added dir zip path r s).0 ≡ ok tt
      → Added path s (added dir zip path r s).1
  added-ok path (err x) s h e = absurd (err-ne-ok e)
  added-ok path (ok name) s h e =
      let (content, read, grown) = filled-ok path name s (zip.create name s) (create_ok name s) e in
      (name, content, h, read, grown)

  and_then-ok :
      (m : Result (Unit {0}) × S) (next : S → Result (Unit {0}) × S)
      → (and_then dir zip m next).0 ≡ ok tt
      → (m.0 ≡ ok tt) × (and_then dir zip m next ≡ next m.1)
  and_then-ok (err x, s) next e = absurd (err-ne-ok e)
  and_then-ok (ok _, s) next e = (refl, refl)

  -- A walk that succeeds has put the entries of its files behind those there.
  abbrev Walked : List Visit → S → S → Type 0
  Walked visits s s' =
      (es : List (Text × Text)) × Holds dir visits es × (entries s' ≡ entries s ++ es)

  walk_files-Walked :
      (visits : List Visit) (s : S)
      → (walk_files dir zip visits s).0 ≡ ok tt
      → Walked visits s (walk_files dir zip visits s).1
  unfolding walk_files
  walk_files-Walked [] s e = ([], refl, sym (append-nil (entries s)))
  walk_files-Walked (unreadable x ∷ rest) s e = absurd (err-ne-ok e)
  walk_files-Walked (folder ∷ rest) s e = walk_files-Walked rest s e
  walk_files-Walked (regular path ∷ rest) s e =
      let one = added dir zip path (dir.rel path) s in
      let (done, same) = and_then-ok one (walk_files dir zip rest) e in
      let (name, content, at, read, grown) = added-ok path (dir.rel path) s refl done in
      let (later, holds, all) = walk_files-Walked rest one.1 (ap (λ r. r.0) (sym same) ∙ e) in
      (
        (name, content) ∷ later,
        (name, content, later, at, read, refl, holds),
        ap (λ r. entries r.1) same
            ∙ all
            ∙ ap (λ es. es ++ later) grown
            ∙ append_assoc (entries s) ((name, content) ∷ []) later,
      )

  -- What `archive_dir` returns, and the entries behind it.
  abbrev pub Complete : Text → Archive → S → Type 0
  Complete filename a s = (a.filename ≡ filename) × Holds dir dir.walk (entries s)

  measured-ok :
      (filename : Text) (a : Archive) (m : Result ℕ × S)
      → (measured dir zip filename m).0 ≡ ok a
      → Holds dir dir.walk (entries m.1)
      → Complete filename a (measured dir zip filename m).1
  measured-ok filename a (err x, s) e h = absurd (err-ne-ok e)
  measured-ok filename a (ok size, s) e h = (ap (λ b. b.filename) (sym (ok-injective _ a e)), h)

  closed-ok :
      (filename : Text) (a : Archive) (m : Result (Unit {0}) × S)
      → (closed dir zip filename m).0 ≡ ok a
      → Holds dir dir.walk (entries m.1)
      → Complete filename a (closed dir zip filename m).1
  closed-ok filename a (err x, s) e h = absurd (err-ne-ok e)
  closed-ok filename a (ok _, s) e h =
      measured-ok filename a (zip.stat filename s) e
        (subst (Holds dir dir.walk) (sym (stat_lem filename s)) h)

  walked-ok :
      (filename : Text) (a : Archive) (m : Result (Unit {0}) × S)
      → (walked dir zip filename m).0 ≡ ok a
      → (m.0 ≡ ok tt → Holds dir dir.walk (entries m.1))
      → Complete filename a (walked dir zip filename m).1
  walked-ok filename a (err x, s) e h = absurd (err-ne-ok e)
  walked-ok filename a (ok _, s) e h =
      closed-ok filename a (zip.close s) e (subst (Holds dir dir.walk) (sym (close_lem s)) (h refl))

  walk_files-Holds :
      (s : S)
      → (walk_files dir zip dir.walk (zip.new_writer s)).0 ≡ ok tt
      → Holds dir dir.walk (entries (walk_files dir zip dir.walk (zip.new_writer s)).1)
  walk_files-Holds s e =
      let (es, holds, all) = walk_files-Walked dir.walk (zip.new_writer s) e in
      subst (Holds dir dir.walk) (sym (all ∙ ap (λ front. front ++ es) (new_writer_lem s))) holds

  created-ok :
      (filename : Text) (a : Archive) (m : Result (Unit {0}) × S)
      → (created dir zip filename m).0 ≡ ok a
      → Complete filename a (created dir zip filename m).1
  created-ok filename a (err x, s) e = absurd (err-ne-ok e)
  created-ok filename a (ok _, s) e =
      walked-ok filename a (walk_files dir zip dir.walk (zip.new_writer s)) e (walk_files-Holds s)

  -- An archive that is made without an error has the name of the schedule and the time, and its zip file has one
  -- entry for each regular file of the mirror, in the order of the walk, under its path relative to the mirror
  -- and with its content, and no other entry; and the walk met no error.
  pub archive_dir_complete :
      (schedule_name : Text) (s : S) (a : Archive)
      → (archive_dir dir zip schedule_name s).0 ≡ ok a
      → (a.filename ≡ archive_filename schedule_name (zip.now s))
        × Holds dir dir.walk (entries (archive_dir dir zip schedule_name s).1)
  unfolding archive_dir
  archive_dir_complete schedule_name s a e =
      let filename = archive_filename schedule_name (zip.now s) in
      created-ok filename a (zip.create_file filename s) e
