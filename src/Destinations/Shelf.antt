-- ===== src/Destinations/Shelf.antt =====
-- Archives under their names: plain names as paths, and a map from names to contents with its operations.
use loxbak.Base.{
  ◌≡◌, ◌≢◌, refl, ap, sym, ◌∙◌, true, false, Option, none, some, List, [], ◌∷◌, ◌++◌, if◌then◌else◌,
  arith,
}
use loxbak.Base.Text.{Text, text_eq, text_eq_refl}
use loxbak.Destinations.{BackupMeta}
use loxbak.Destinations.Locations.{Location, join, is_plain}
use loxbak.Destinations.Plain.{join-plain}

abbrev last_of : List Text → Text
last_of [] = []
last_of (x ∷ []) = x
last_of (_ ∷ y ∷ ys) = last_of (y ∷ ys)

last_of-append : (xs : List Text) (x : Text) → last_of (xs ++ x ∷ []) ≡ x
last_of-append [] x = refl
last_of-append (y ∷ []) x = refl
last_of-append (y ∷ z ∷ zs) x = last_of-append (z ∷ zs) x

-- Two plain names are two files.
pub join-ne :
    (dir : Location) (f g : Text)
    → is_plain f ≡ true
    → is_plain g ≡ true
    → text_eq g f ≡ false
    → join dir g ≢ join dir f
join-ne dir f g p q h e =
    let same : g ≡ f =
      sym (last_of-append dir.parts g)
      ∙ ap (λ l. last_of l.parts) (sym (join-plain dir g q) ∙ e ∙ join-plain dir f p)
      ∙ last_of-append dir.parts f in
    let equal = ap (λ t. text_eq t f) same ∙ text_eq_refl f in cc

-- The map, and what storing and deleting an archive are to do to it.
abbrev pub Shelf : Type 0
Shelf = Text → Option Text

abbrev pub with_archive : Text → Text → Shelf → Shelf
with_archive name content shelf g = if text_eq g name then some content else shelf g

abbrev pub without_archive : Text → Shelf → Shelf
without_archive name shelf g = if text_eq g name then none else shelf g

pub data Op : Type 0 where
  put : BackupMeta → Text → Op
  remove : Text → Op

abbrev pub archive_of : Op → Text
archive_of (put meta content) = meta.filename
archive_of (remove name) = name

abbrev pub HasPlainName : Op → Type 0
HasPlainName op = is_plain (archive_of op) ≡ true

abbrev pub effect : Op → Shelf → Shelf
effect (put meta content) = with_archive meta.filename content
effect (remove name) = without_archive name

abbrev pub effects : List Op → Shelf → Shelf
effects [] shelf = shelf
effects (op ∷ ops) shelf = effects ops (effect op shelf)

pub effects-ext :
    (ops : List Op) (m n : Shelf) (g : Text) → m g ≡ n g → effects ops m g ≡ effects ops n g
effects-ext [] m n g e = e
effects-ext (put meta content ∷ ops) m n g e = effects-ext ops _ _ g (ground (arith, e))
effects-ext (remove name ∷ ops) m n g e = effects-ext ops _ _ g (ground (arith, e))
