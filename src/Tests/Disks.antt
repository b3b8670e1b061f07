-- ===== src/Tests/Disks.antt =====
-- A disk that is a function from paths to contents.
use loxbak.Base.{
  ◌≡◌, ◌≢◌, refl, Bool, true, false, ◌&&◌, not, Option, none, some, List, [], ◌∷◌, if◌then◌else◌,
  Bool-cases, inl, inr, arith, Result, ok, err, errorf,
}
use loxbak.Base.Text.{Text, text_eq, text_eq_refl, eq_of_text_eq}
use loxbak.Destinations.Retention.{names}
use loxbak.Destinations.Local.{Disk, DirEntry, LocalDir, listing}
use loxbak.Destinations.Locations.{Location, join}
use loxbak.Destinations.Storage.{IsLawful}

abbrev same_parts : List Text → List Text → Bool
same_parts [] [] = true
same_parts [] (_ ∷ _) = false
same_parts (_ ∷ _) [] = false
same_parts (x ∷ xs) (y ∷ ys) = text_eq x y && same_parts xs ys

abbrev same_flag : Bool → Bool → Bool
same_flag true b = b
same_flag false b = not b

abbrev same_location : Location → Location → Bool
same_location p l = same_flag p.rooted l.rooted && same_parts p.parts l.parts

same_parts-eq : (xs ys : List Text) → same_parts xs ys ≡ true → xs ≡ ys
same_parts-eq [] [] h = refl
same_parts-eq [] (_ ∷ _) h = cc
same_parts-eq (_ ∷ _) [] h = cc
same_parts-eq (x ∷ xs) (y ∷ ys) h =
    let first : x ≡ y = eq_of_text_eq x y (ground arith) in
    let later : xs ≡ ys = same_parts-eq xs ys (ground arith) in cc

same_flag-eq : (a b : Bool) → same_flag a b ≡ true → a ≡ b
same_flag-eq true true h = refl
same_flag-eq true false h = cc
same_flag-eq false true h = cc
same_flag-eq false false h = refl

same_location-eq : (p l : Location) → same_location p l ≡ true → p ≡ l
same_location-eq p l h =
    let flag : p.rooted ≡ l.rooted = same_flag-eq p.rooted l.rooted (ground arith) in
    let parts : p.parts ≡ l.parts = same_parts-eq p.parts l.parts (ground arith) in cc

same_parts_refl : (xs : List Text) → same_parts xs xs ≡ true
same_parts_refl [] = refl
same_parts_refl (x ∷ xs) = rw (text_eq_refl x) (same_parts_refl xs)

same_flag_refl : (b : Bool) → same_flag b b ≡ true
same_flag_refl true = refl
same_flag_refl false = refl

same_location_refl : (p : Location) → same_location p p ≡ true
same_location_refl p = rw (same_flag_refl p.rooted) (same_parts_refl p.parts)

abbrev pub Files : Type 0
Files = Location → Option Text

abbrev pub updated : Location → Option Text → Files → Files
updated l content s p = if same_location p l then content else s p

pub updated-at :
    (l : Location) (content : Option Text) (s : Files) → updated l content s l ≡ content
updated-at l content s = rw (same_location_refl l) refl

pub updated-else :
    (l p : Location) (content : Option Text) (s : Files) → p ≢ l → updated l content s p ≡ s p
updated-else l p content s n = elim (Bool-cases (same_location p l)) [
  | inl e ↦ absurd (n (same_location-eq p l e))
  | inr e ↦ rw e refl
]

abbrev or_missing : Option Text → Result Text
or_missing none = err (errorf [])
or_missing (some t) = ok t

abbrev pub with_entry : Text → Option Text → List DirEntry → List DirEntry
with_entry name none rest = rest
with_entry name (some t) rest = record { name = name; is_dir = false; info = ok (1, 0) } ∷ rest

-- The files among these of a directory.
abbrev pub present : List Text → Location → Files → List DirEntry
present [] l s = []
present (name ∷ names) l s = with_entry name (s (join l name)) (present names l s)

abbrev pub older : Text
older = b'd' ∷ b'-' ∷ b'1' ∷ []

abbrev pub newer : Text
newer = b'd' ∷ b'-' ∷ b'2' ∷ []

-- A disk on which reading a directory shows these names, where they are files.
abbrev pub disk_of : List Text → Disk Files
disk_of names = record {
  mkdir_all = λ l s. (ok tt, s);
  create = λ l s. (ok tt, updated l (some []) s);
  copy = λ l t s. (ok tt, updated l (some t) s);
  read_dir = λ l s. listing (present names l s);
  remove = λ l s. (ok tt, updated l none s);
  open_file = λ l s. or_missing (s l);
}

unfoldable pub disk_of-IsLawful : (names : List Text) → IsLawful (disk_of names)
disk_of-IsLawful names = record {
  files = λ s p. s p;
  mkdir_all_lem = λ l p s. refl;
  create_else = λ l p s n. updated-else l p (some []) s n;
  copy_ok = λ l t s e. updated-at l (some t) s;
  copy_else = λ l p t s n. updated-else l p (some t) s n;
  remove_ok = λ l s e. updated-at l none s;
  remove_else = λ l p s n. updated-else l p none s n;
  remove_err = λ l p s e h. cc;
}

abbrev pub ram : Disk Files
ram = disk_of ((b'a' ∷ []) ∷ (b'b' ∷ []) ∷ older ∷ newer ∷ [])

unfoldable pub ram-IsLawful : IsLawful ram
unfolding disk_of-IsLawful
ram-IsLawful = disk_of-IsLawful ((b'a' ∷ []) ∷ (b'b' ∷ []) ∷ older ∷ newer ∷ [])

abbrev pub nas : LocalDir
nas = record { name = b'n' ∷ []; data_dir = 47 ∷ b'd' ∷ [] }

abbrev pub blank : Files
blank p = none
