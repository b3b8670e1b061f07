-- ===== src/Tests/Zips.antt =====
-- Archiving a mirror of two files into a zip file that is the list of its entries.
use loxbak.Base.{◌≡◌, refl, ap, ◌∙◌, List, [], ◌∷◌, ◌++◌, ok}
use loxbak.Base.Text.{Text}
use loxbak.Archive.{Stamp, archive_filename}
use loxbak.Scheduler.World.{Archive}
use loxbak.Scheduler.Zip.{folder, regular, MirrorDir, ZipWriter, walk_files, archive_dir}
use loxbak.Scheduler.Zipped.{IsLawful, Holds, archive_dir_complete}

abbrev Entries : Type 0
Entries = List (Text × Text)

abbrev fill_last : Text → Entries → Entries
fill_last content [] = []
fill_last content ((name, old) ∷ []) = (name, content) ∷ []
fill_last content (x ∷ y ∷ rest) = x ∷ fill_last content (y ∷ rest)

fill_last-append :
    (content name : Text) (front : Entries)
    → fill_last content (front ++ (name, []) ∷ []) ≡ front ++ (name, content) ∷ []
fill_last-append content name [] = refl
fill_last-append content name (x ∷ []) = refl
fill_last-append content name (x ∷ y ∷ front) =
    ap (λ t. x ∷ t) (fill_last-append content name (y ∷ front))

abbrev in_july : Stamp
in_july = record { year = 2026; month = 7; day = 17; hour = 12; minute = 0; second = 5 }

abbrev writer : ZipWriter Entries
writer = record {
  now = λ s. in_july;
  create_file = λ name s. (ok tt, s);
  new_writer = λ s. [];
  create = λ name s. (ok tt, s ++ (name, []) ∷ []);
  copy = λ content s. (ok tt, fill_last content s);
  close = λ s. (ok tt, s);
  stat = λ name s. (ok 9, s);
}

writer-IsLawful : IsLawful writer
writer-IsLawful = record {
  entries = λ s. s;
  new_writer_lem = λ s. refl;
  create_ok = λ name s e. refl;
  copy_ok =
      λ content s front name h e. ap (fill_last content) h ∙ fill_last-append content name front;
  close_lem = λ s. refl;
  stat_lem = λ name s. refl;
}

-- Every file holds its own name.
abbrev two_files : MirrorDir
two_files = record {
  walk = folder ∷ regular (b'a' ∷ []) ∷ folder ∷ regular (b'b' ∷ []) ∷ [];
  rel = λ path. ok path;
  open_file = λ path. ok path;
}

abbrev made : Archive
made = record { filename = archive_filename (b'd' ∷ []) in_july; size = 9 }

archived :
    archive_dir two_files writer (b'd' ∷ []) []
    ≡ (ok made, (b'a' ∷ [], b'a' ∷ []) ∷ (b'b' ∷ [], b'b' ∷ []) ∷ [])
unfolding archive_dir walk_files
archived = refl

archive_dir_complete_example :
    (made.filename ≡ archive_filename (b'd' ∷ []) (writer.now []))
    × Holds two_files two_files.walk
        (writer-IsLawful.entries (archive_dir two_files writer (b'd' ∷ []) []).1)
archive_dir_complete_example =
    archive_dir_complete two_files writer writer-IsLawful (b'd' ∷ []) [] made
      (ap (λ r. r.0) archived)
