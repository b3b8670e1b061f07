-- ===== src/Destinations/Escapes.antt =====
-- Archive names with `..` at a local destination (internal/destinations/local.go).
use loxbak.Base.{◌≡◌, refl, ap, ◌∙◌, true, [], ◌∷◌, ◌++◌, Result, ok, err, wrap_err}
use loxbak.Base.Text.{Text, txt, text_eq}
use loxbak.Destinations.Local.{
  Disk, LocalDir, local_dir, local_open, local_delete, then_do, finished,
}
use loxbak.Destinations.Locations.{Location, clean, join, is_plain}
use loxbak.Destinations.Plain.{up, join-up-up, join-plain}

abbrev backups_name : Text
backups_name = b'b' ∷ b'a' ∷ b'c' ∷ b'k' ∷ b'u' ∷ b'p' ∷ b's' ∷ []

backups_name_plain : is_plain backups_name ≡ true
unfolding text_eq
backups_name_plain = refl

-- The file of that name in the data directory.
abbrev pub data_file : LocalDir → Text → Location
data_file l name = record {
  rooted = (clean l.data_dir).rooted;
  parts = (clean l.data_dir).parts ++ name ∷ [];
}

local_dir-parts :
    (l : LocalDir)
    → is_plain l.name ≡ true
    → local_dir l ≡ record {
      rooted = (clean l.data_dir).rooted;
      parts = ((clean l.data_dir).parts ++ backups_name ∷ []) ++ l.name ∷ [];
    }
unfolding local_dir
local_dir-parts l p =
    join-plain (join (clean l.data_dir) backups_name) l.name p
    ∙ ap (λ (d : Location). record { rooted = d.rooted; parts = d.parts ++ l.name ∷ [] })
        (join-plain (clean l.data_dir) backups_name backups_name_plain)

data_file_path :
    (l : LocalDir) (name : Text)
    → is_plain l.name ≡ true
    → is_plain name ≡ true
    → join (local_dir l) (up ++ up ++ name) ≡ data_file l name
data_file_path l name p q =
    let dir = local_dir-parts l p in
    join-up-up (local_dir l) (clean l.data_dir).parts backups_name l.name name
      (ap (λ (d : Location). d.parts) dir) backups_name_plain p q
    ∙ ap
        (λ (d : Location). record {
          rooted = d.rooted;
          parts = (clean l.data_dir).parts ++ name ∷ [];
        })
        dir

then_do-finished :
    {S : Type 0} (disk : Disk S) (l : LocalDir) (t : Text) (m : Result (Unit {0}) × S)
    → (then_do disk l t m (finished disk l)).1 ≡ m.1
then_do-finished disk l t (ok _, s) = refl
then_do-finished disk l t (err e, s) = refl

-- At a local destination with a plain name, the archive name `../../` in front of a plain name stands for the
-- file of that name in the data directory itself, the database's included: opening the archive reads that
-- file, and deleting the archive removes it.
pub local_escapes :
    {S : Type 0} (disk : Disk S) (l : LocalDir) (name : Text) (s : S)
    → is_plain l.name ≡ true
    → is_plain name ≡ true
    → (local_open disk l (up ++ up ++ name) s
        ≡ (wrap_err (txt "destinations: local: open") (disk.open_file (data_file l name) s), s))
      × ((local_delete disk l (up ++ up ++ name) s).1 ≡ (disk.remove (data_file l name) s).1)
unfolding local_open local_delete
local_escapes disk l name s p q = rw (data_file_path l name p q) (
  refl,
  then_do-finished disk l (txt "destinations: local: delete") (disk.remove (data_file l name) s),
)
