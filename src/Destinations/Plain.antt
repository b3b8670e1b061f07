-- ===== src/Destinations/Plain.antt =====
-- Joining a directory with a name for one of its entries.
use loxbak.Base.{◌≡◌, refl, ap, Bool, true, false, List, [], ◌∷◌, ◌++◌, ◌==◌, any_of, arith}
use loxbak.Base.Text.{Text, text_eq}
use loxbak.Destinations.Locations.{
  Location, slash, split_slash, walk, step_to, join, is_dot_dot, is_plain, go_up,
}

abbrev pub has_slash : Text → Bool
has_slash = any_of (λ c. c == slash)

pub split_slash-one : (name : Text) → has_slash name ≡ false → split_slash name ≡ name ∷ []
unfolding split_slash
split_slash-one [] h = refl
split_slash-one (c ∷ cs) h = ground (arith, split_slash-one cs)

-- Everything in front of the first slash is the first component.
pub split_slash-append :
    (name rest : Text)
    → has_slash name ≡ false
    → split_slash (name ++ slash ∷ rest) ≡ name ∷ split_slash rest
unfolding split_slash
split_slash-append [] rest h = refl
split_slash-append (c ∷ cs) rest h = ground (arith, split_slash-append cs rest)

pub plain_slash : (name : Text) → is_plain name ≡ true → has_slash name ≡ false
plain_slash name h = ground arith

pub step_to-plain :
    (rooted : Bool) (parts : List Text) (name : Text)
    → is_plain name ≡ true
    → step_to rooted parts name ≡ parts ++ name ∷ []
step_to-plain rooted parts name h = ground arith

-- A plain name is an entry of the directory itself.
pub join-plain :
    (dir : Location) (name : Text)
    → is_plain name ≡ true
    → join dir name ≡ record { rooted = dir.rooted; parts = dir.parts ++ name ∷ [] }
unfolding join walk
join-plain dir name h =
    rw (split_slash-one name (plain_slash name h), step_to-plain dir.rooted dir.parts name h) refl

go_up-append :
    (rooted : Bool) (parts : List Text) (name : Text)
    → is_dot_dot name ≡ false
    → go_up rooted (parts ++ name ∷ []) ≡ parts
unfolding go_up
go_up-append rooted [] name h = rw h refl
go_up-append rooted (part ∷ []) name h = rw h refl
go_up-append rooted (part ∷ next ∷ parts) name h =
    ap (λ t. part ∷ t) (go_up-append rooted (next ∷ parts) name h)

pub dots_plain : (name : Text) → is_plain name ≡ true → is_dot_dot name ≡ false
dots_plain name h = ground arith

abbrev pub up : Text
up = b'.' ∷ b'.' ∷ slash ∷ []

-- Two steps up lead out of two directories.
pub join-up-up :
    (dir : Location) (parts : List Text) (outer inner name : Text)
    → dir.parts ≡ (parts ++ outer ∷ []) ++ inner ∷ []
    → is_plain outer ≡ true
    → is_plain inner ≡ true
    → is_plain name ≡ true
    → join dir (up ++ up ++ name) ≡ record { rooted = dir.rooted; parts = parts ++ name ∷ [] }
unfolding join walk split_slash text_eq
join-up-up dir parts outer inner name e p q r =
    rw
      (
        split_slash-one name (plain_slash name r),
        e,
        go_up-append dir.rooted (parts ++ outer ∷ []) inner (dots_plain inner q),
        go_up-append dir.rooted parts outer (dots_plain outer p),
        step_to-plain dir.rooted parts name r,
      )
      refl
