-- ===== src/Destinations.antt =====
-- Backup destinations (internal/destinations/destination.go): the interfaces `Destination`, `Lister`
-- and `Reader` over the state `S` of whatever stores the archives, and `Prune`.
pub mod Pruning
pub mod Retention
pub mod Overlap
pub mod Locations
pub mod Local
pub mod Remote
pub mod Webdav
pub mod Registry
pub mod Types
pub mod Plain
pub mod Shelf
pub mod Storage
pub mod Erasing
pub mod Escapes
pub mod Connections
use loxbak.Base.{
  ℕ, Bool, true, false, not, Option, none, some, List, [], ◌∷◌, ◌++◌, leb, if◌then◌else◌, length,
  drop, keep_if, Error, Result, ok, err, wrap,
}
use loxbak.Base.Int.{ℤ, not_positive, pos_part}
use loxbak.Base.Text.{Text, txt, text_lt, has_prefix}

pub record BackupMeta : Type 0 where
  pub schedule_name : Text
  pub filename : Text
  pub size : ℕ

pub record BackupEntry : Type 0 where
  pub filename : Text
  pub size : ℕ
  pub mod_time : ℕ

-- The optional interface of destinations that can enumerate and delete their archives.
pub record Lister (S : Type 0) : Type 0 where
  pub list : S → Result (List BackupEntry) × S
  pub delete : Text → S → Result (Unit {0}) × S

-- A destination; `lister` and `reader` are what the type assertions to the optional interfaces
-- yield, and an archive's bytes are a text.
pub record Destination (S : Type 0) : Type 0 where
  pub name : Text
  pub store : BackupMeta → Text → S → Result (Unit {0}) × S
  pub lister : Option (Lister S)
  pub reader : Option (Text → S → Result Text × S)

-- `sort.Slice(matched, …Filename > …Filename)`, as an insertion sort. (`sort.Slice` leaves open
-- how equal file names are ordered; a destination has each name once.)
unfoldable pub insert_newest : BackupEntry → List BackupEntry → List BackupEntry
insert_newest e [] = e ∷ []
insert_newest e (x ∷ xs) =
    if text_lt x.filename e.filename then e ∷ x ∷ xs else x ∷ insert_newest e xs

unfoldable pub sort_newest : List BackupEntry → List BackupEntry
sort_newest [] = []
sort_newest (e ∷ es) = insert_newest e (sort_newest es)

-- The entries that match a schedule's prefix, newest first.
abbrev pub matched : Text → List BackupEntry → List BackupEntry
matched prefix entries = sort_newest (keep_if (λ e. has_prefix e.filename prefix) entries)

-- `Prune` returns the file names deleted beside its error.
abbrev pub Pruned : Type 0
Pruned = List Text × Option Error

module _ {S : Type 0} (lister : Lister S) where
  unfoldable pub delete_loop : List BackupEntry → List Text → S → Pruned × S
  delete_loop [] deleted s = ((deleted, none), s)
  delete_loop (e ∷ es) deleted s =
      let (r, s') = lister.delete e.filename s in
      elim r [
        | err x ↦ ((deleted, some (wrap (txt "destinations: prune: delete") x)), s')
        | ok _ ↦ delete_loop es (deleted ++ e.filename ∷ []) s'
      ]

  abbrev pub prune_listed : Text → ℤ → Result (List BackupEntry) × S → Pruned × S
  prune_listed prefix keep (err x, s) = (([], some (wrap (txt "destinations: prune: list") x)), s)
  prune_listed prefix keep (ok entries, s) =
      let m = matched prefix entries in
      if leb (length m) (pos_part keep)
      then (([], none), s)
      else delete_loop (drop (pos_part keep) m) [] s

  unfoldable pub prune : Text → ℤ → S → Pruned × S
  unfolding delete_loop
  prune prefix keep s =
      if not_positive keep then (([], none), s) else prune_listed prefix keep (lister.list s)
