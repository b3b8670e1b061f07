-- ===== src/Tests/Backups.antt =====
-- Pruning a local destination, on a disk that is a function from paths to contents.
use loxbak.Base.{
  ℕ, ◌≡◌, refl, sym, none, List, [], ◌∷◌, ◌++◌, arith, All, ok, ok-injective, ap, ◌∙◌, true, false,
  Option, some, Bool-cases, inl, inr,
}
use loxbak.Base.Int.{pos}
use loxbak.Base.Text.{Text, eq_of_text_eq, text_eq, text_lt, has_prefix}
use loxbak.Archive.{Stamp, archive_filename, archive_prefix, sanitize_name, format_stamp}
use loxbak.Destinations.{BackupEntry, Lister, insert_newest, sort_newest, prune}
use loxbak.Destinations.Erasing.{local_lister}
use loxbak.Destinations.Local.{DirEntry, local_dir, local_list, local_delete, file_entries}
use loxbak.Destinations.Locations.{Location, join, clean, walk, split_slash, is_plain}
use loxbak.Destinations.Shelf.{join-ne}
use loxbak.Destinations.Overlap.{prune_overlap}
use loxbak.Destinations.Retention.{
  IsLawful, Plain, Splits, names, without, Deletes, prune_retention,
}
use loxbak.Tests.Disks.{
  Files, updated, updated-at, updated-else, disk_of, disk_of-IsLawful, nas, blank, present,
  with_entry,
}

-- The program's own local destination, on a disk that shows these names.
abbrev lister : List Text → Lister Files
lister ns = local_lister (disk_of ns) nas (disk_of-IsLawful ns)

abbrev shown : Text → Option Text → List BackupEntry → List BackupEntry
shown name none rest = rest
shown name (some t) rest = record { filename = name; size = 1; mod_time = 0 } ∷ rest

-- What there is in a directory, of these names.
abbrev held : List Text → Location → Files → List BackupEntry
held [] l s = []
held (name ∷ ns) l s = shown name (s (join l name)) (held ns l s)

abbrev PlainNames : List Text → Type 0
PlainNames = All (λ n. is_plain n ≡ true)

shown-Plain :
    (name : Text) (o : Option Text) (rest : List BackupEntry)
    → is_plain name ≡ true
    → All Plain rest
    → All Plain (shown name o rest)
shown-Plain name none rest p h = h
shown-Plain name (some t) rest p h = (p, h)

held-Plain : (ns : List Text) (l : Location) (s : Files) → PlainNames ns → All Plain (held ns l s)
held-Plain [] l s h = tt
held-Plain (n ∷ ns) l s (p, h) = shown-Plain n (s (join l n)) (held ns l s) p (held-Plain ns l s h)

module _ (f n : Text) where
  without-shown :
      (o : Option Text) (rest : List BackupEntry)
      → text_eq n f ≡ true
      → without (f ∷ []) (shown n o rest) ≡ without (f ∷ []) rest
  without-shown none rest e = refl
  without-shown (some t) rest e = rw e refl

  shown-without :
      (o : Option Text) (rest : List BackupEntry)
      → text_eq n f ≡ false
      → shown n o (without (f ∷ []) rest) ≡ without (f ∷ []) (shown n o rest)
  shown-without none rest e = refl
  shown-without (some t) rest e = rw e refl

held-removed :
    (f : Text) (ns : List Text) (l : Location) (s : Files)
    → is_plain f ≡ true
    → PlainNames ns
    → held ns l (updated (join l f) none s) ≡ without (f ∷ []) (held ns l s)
held-removed f [] l s p h = refl
held-removed f (n ∷ ns) l s p (q, h) =
    let gone = updated (join l f) none s in
    let rest = held-removed f ns l s p h in
    elim (Bool-cases (text_eq n f)) [
      | inl e ↦
          ap (λ o. shown n o (held ns l gone))
            (ap (λ m. gone (join l m)) (eq_of_text_eq n f e) ∙ updated-at (join l f) none s)
          ∙ rest
          ∙ sym (without-shown f n (s (join l n)) (held ns l s) e)
      | inr e ↦
          ap (λ o. shown n o (held ns l gone))
            (updated-else (join l f) (join l n) none s (join-ne l f n p q e))
          ∙ ap (shown n (s (join l n))) rest
          ∙ shown-without f n (s (join l n)) (held ns l s) e
    ]

entry-shown :
    (ns : List Text) (n : Text) (o : Option Text) (es : List DirEntry) (rest : List BackupEntry)
    → file_entries (disk_of ns) nas es ≡ ok rest
    → file_entries (disk_of ns) nas (with_entry n o es) ≡ ok (shown n o rest)
unfolding file_entries
entry-shown ns n none es rest h = h
entry-shown ns n (some t) es rest h = rw (h, file_entries) refl

entries-held :
    (all ns : List Text) (l : Location) (s : Files)
    → file_entries (disk_of all) nas (present ns l s) ≡ ok (held ns l s)
unfolding file_entries
entries-held all [] l s = refl
entries-held all (n ∷ ns) l s =
    entry-shown all n (s (join l n)) (present ns l s) (held ns l s) (entries-held all ns l s)

unfoldable lister-IsLawful : (ns : List Text) → PlainNames ns → IsLawful (lister ns)
unfolding local_list local_delete
lister-IsLawful ns plain = record {
  holds = λ s. held ns (local_dir nas) s;
  list_state = λ s. refl;
  list_plain = λ s. held-Plain ns (local_dir nas) s plain;
  list_ok = λ s es e. sym (
      ok-injective (held ns (local_dir nas) s) es (sym (entries-held ns ns (local_dir nas) s) ∙ e));
  delete_ok = λ f s p e. held-removed f ns (local_dir nas) s p plain;
  delete_err = λ f s x e. cc;
}

abbrev pub on_day : ℕ → Stamp
on_day d = record { year = 2026; month = 7; day = d; hour = 3; minute = 0; second = 0 }

abbrev pub backup : Text → ℕ → BackupEntry
backup name d = record { filename = archive_filename name (on_day d); size = 1; mod_time = 0 }

abbrev home : Text
home = b'h' ∷ b'o' ∷ b'm' ∷ b'e' ∷ []

abbrev garage : Text
garage = b'g' ∷ []

-- "home-weekly" extends "home".
abbrev home_weekly : Text
home_weekly = home ++ b'-' ∷ b'w' ∷ []

abbrev stored : List Text → Files
stored [] = blank
stored (n ∷ ns) = updated (join (local_dir nas) n) (some []) (stored ns)

abbrev shelf : List BackupEntry
shelf = backup garage 9 ∷ backup home 1 ∷ backup home 2 ∷ backup home 3 ∷ []

shelf_plain : PlainNames (names shelf)
unfolding archive_filename sanitize_name format_stamp text_eq
shelf_plain = (refl, (refl, (refl, (refl, tt))))

abbrev full : Files
full = stored (names shelf)

lists_shelf : ((lister (names shelf)).list full).0 ≡ ok shelf
unfolding local_list file_entries local_dir join clean walk split_slash text_eq archive_filename
    sanitize_name format_stamp
lists_shelf = refl

-- The oldest of three archives of "home" goes.
prune_run :
    (prune (lister (names shelf)) (archive_prefix home) (pos 2) full).0
    ≡ (archive_filename home (on_day 1) ∷ [], none)
unfolding prune local_list local_delete file_entries local_dir join clean walk split_slash text_eq
    archive_filename archive_prefix sanitize_name format_stamp sort_newest insert_newest has_prefix
    text_lt
prune_run = refl

prune_retention_example :
    (kept gone : List BackupEntry) × Splits
      (archive_prefix home)
      2
      (held (names shelf) (local_dir nas) full)
      kept
      gone
    × Deletes
        (lister (names shelf))
        (lister-IsLawful (names shelf) shelf_plain)
        (names gone)
        []
        full
        (prune (lister (names shelf)) (archive_prefix home) (pos 2) full)
unfolding lister-IsLawful
prune_retention_example =
    prune_retention (lister (names shelf)) (lister-IsLawful (names shelf) shelf_plain)
      (archive_prefix home) 2 full shelf (omega arith) lists_shelf

abbrev own : List BackupEntry
own = backup home 1 ∷ backup home 8 ∷ []

abbrev foreign : List BackupEntry
foreign = backup home_weekly 2 ∷ []

abbrev both : List Text
both = names (own ++ foreign)

both_plain : PlainNames both
unfolding archive_filename sanitize_name format_stamp text_eq
both_plain = (refl, (refl, (refl, tt)))

extends : sanitize_name home_weekly ≡ sanitize_name home ++ b'-' ∷ b'w' ∷ []
unfolding sanitize_name
extends = refl

lists_both : ((lister both).list (stored both)).0 ≡ ok (own ++ foreign)
unfolding local_list file_entries local_dir join clean walk split_slash text_eq archive_filename
    sanitize_name format_stamp
lists_both = refl

no_error : (prune (lister both) (archive_prefix home) (pos 1) (stored both)).0.1 ≡ none
unfolding prune local_list local_delete file_entries local_dir join clean walk split_slash text_eq
    archive_filename archive_prefix sanitize_name format_stamp sort_newest insert_newest has_prefix
    text_lt
no_error = refl

prune_overlap_example :
    let r = prune (lister both) (archive_prefix home) (pos 1) (stored both) in
    (r.0.0 ≡ names (sort_newest own))
    × (held both (local_dir nas) r.1 ≡ without (names (sort_newest own)) (own ++ foreign))
unfolding lister-IsLawful
prune_overlap_example =
    prune_overlap home home_weekly [] b'w' extends (omega arith) (lister both)
      (lister-IsLawful both both_plain) (stored both) own foreign
      ((on_day 1, refl), ((on_day 8, refl), tt)) ((on_day 2, refl), tt) (omega arith) lists_both
      no_error
