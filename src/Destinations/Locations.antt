-- ===== src/Destinations/Locations.antt =====
-- `path.Clean` and `path.Join` of the standard library (and `filepath`'s, on Unix), which the destinations
-- build their paths with. A clean path is whether it is rooted, and its components.
use loxbak.Base.{ℕ, Bool, false, not, ◌||◌, ◌&&◌, List, [], ◌∷◌, ◌++◌, ◌==◌, if◌then◌else◌, any_of}
use loxbak.Base.Text.{Text, text_eq, is_empty}

pub record Location : Type 0 where
  pub rooted : Bool
  pub parts : List Text

abbrev pub slash : ℕ
slash = 47

abbrev pub put_first : ℕ → List Text → List Text
put_first c [] = (c ∷ []) ∷ []
put_first c (part ∷ parts) = (c ∷ part) ∷ parts

-- What stands between the slashes.
unfoldable pub split_slash : Text → List Text
split_slash [] = [] ∷ []
split_slash (c ∷ cs) =
    let rest = split_slash cs in if c == slash then [] ∷ rest else put_first c rest

abbrev pub is_dot : Text → Bool
is_dot part = text_eq part (b'.' ∷ [])

abbrev pub is_dot_dot : Text → Bool
is_dot_dot part = text_eq part (b'.' ∷ b'.' ∷ [])

-- `..` takes the last component away, unless there is none, or only `..` in a path that is not rooted.
unfoldable pub go_up : Bool → List Text → List Text
go_up rooted [] = if rooted then [] else (b'.' ∷ b'.' ∷ []) ∷ []
go_up rooted (part ∷ []) = if is_dot_dot part then part ∷ part ∷ [] else []
go_up rooted (part ∷ next ∷ parts) = part ∷ go_up rooted (next ∷ parts)

abbrev pub step_to : Bool → List Text → Text → List Text
step_to rooted parts part =
    if is_empty part || is_dot part
    then parts
    else if is_dot_dot part
    then go_up rooted parts
    else parts ++ part ∷ []

unfoldable pub walk : Bool → List Text → List Text → List Text
unfolding go_up
walk rooted parts [] = parts
walk rooted parts (part ∷ rest) = walk rooted (step_to rooted parts part) rest

abbrev starts_with_slash : Text → Bool
starts_with_slash [] = false
starts_with_slash (c ∷ _) = c == slash

-- `Clean`
unfoldable pub clean : Text → Location
unfolding walk split_slash
clean path =
    let rooted = starts_with_slash path in
    record { rooted = rooted; parts = walk rooted [] (split_slash path) }

-- `Join`, behind a first element that is not empty.
unfoldable pub join : Location → Text → Location
unfolding walk split_slash
join dir name = record { rooted = dir.rooted; parts = walk dir.rooted dir.parts (split_slash name) }

-- A name for an entry of a directory.
abbrev pub is_plain : Text → Bool
is_plain name =
    not (is_empty name || is_dot name || is_dot_dot name) && not (any_of (λ c. c == slash) name)
