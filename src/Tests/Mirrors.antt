-- ===== src/Tests/Mirrors.antt =====
-- Mirroring a Miniserver with a file and a folder into a directory that holds an old file; the state is the
-- list of the local paths.
use loxbak.Base.{
  All, subst, ℕ, ◌≡◌, refl, Bool, true, false, not, ◌&&◌, none, some, List, [], ◌∷◌, keep_if,
  ok-injective, arith, errorf, Result, ok, err,
}
use loxbak.Base.Int.{pos}
use loxbak.Base.Text.{Text, txt, text_eq}
use loxbak.Ftp.{
  Entry, EntryKind, file, folder, missing, with_retry, retry_loop, connect, file_up_to_date,
}
use loxbak.Ftp.Fuel.{Below, mirror_ends}
use loxbak.Ftp.Mirror.{
  FilePath, Platform, local_entry_names, download_file, remove_stale, mirror_entries, mirror_dir,
  mirror, logged_in,
}
use loxbak.Ftp.Pruned.{mirror_dir_unlisted}
use loxbak.Ftp.Retrying.{Failing, none_yet, one_more}

abbrev entry : Text → EntryKind → Entry
entry name kind = record { name = name; size = 4; time = none; kind = kind }

abbrev files : FilePath → List Entry
files [] = entry (b'a' ∷ []) file ∷ entry (b'd' ∷ []) folder ∷ []
files (_ ∷ _) = entry (b'b' ∷ []) file ∷ []

abbrev same_path : FilePath → FilePath → Bool
same_path [] [] = true
same_path [] (_ ∷ _) = false
same_path (_ ∷ _) [] = false
same_path (x ∷ xs) (y ∷ ys) = text_eq x y && same_path xs ys

abbrev names_in : FilePath → List FilePath → List Text
names_in [] [] = []
names_in [] ((name ∷ []) ∷ rest) = name ∷ names_in [] rest
names_in [] (_ ∷ rest) = names_in [] rest
names_in (_ ∷ _) paths = []

abbrev miniserver : Platform (List FilePath) ℕ Text
miniserver = record {
  address = λ host port. host;
  to_lower = λ t. t;
  dial = λ tls address w. (ok 1, w);
  login = λ conn username password w. (ok tt, w);
  list = λ conn dir w. (ok (files dir), w);
  retr = λ conn path w. (ok (b'x' ∷ []), w);
  quit = λ conn w. w;
  read_dir = λ dir w. ok (names_in dir w);
  stat = λ path w. missing;
  mkdir_all = λ path w. (ok tt, w);
  create = λ path w. (ok tt, path ∷ w);
  copy = λ path content w. (ok tt, w);
  chtimes = λ path time w. (ok tt, w);
  remove_all = λ path w. (ok tt, keep_if (λ other. not (same_path path other)) w);
  context = λ w. (none, w);
  wait = λ delay w. (true, w);
}

abbrev before : List FilePath
before = ((b'o' ∷ []) ∷ []) ∷ []

mirrored :
    mirror miniserver 2 [] (pos 21) [] [] before
    ≡ (some (ok tt), ((b'd' ∷ []) ∷ (b'b' ∷ []) ∷ []) ∷ ((b'a' ∷ []) ∷ []) ∷ [])
unfolding mirror logged_in connect mirror_dir mirror_entries local_entry_names download_file
    remove_stale with_retry retry_loop file_up_to_date text_eq txt
mirrored = refl

-- The root is above every other directory.
abbrev rank : FilePath → ℕ
rank [] = 1
rank (_ ∷ _) = 0

files-Below :
    (conn : ℕ) (dir : FilePath) (w : List FilePath) (entries : List Entry)
    → (miniserver.list conn dir w).0 ≡ ok entries
    → All (Below miniserver rank dir) entries
files-Below conn [] w entries e =
    subst (All (Below miniserver rank [])) (ok-injective (files []) entries e)
      ((λ k n. cc), ((λ k n. omega arith), tt))
files-Below conn (d ∷ dir) w entries e =
    subst (All (Below miniserver rank (d ∷ dir))) (ok-injective (files (d ∷ dir)) entries e)
      ((λ k n. cc), tt)

mirror_ends_example :
    (r : Result (Unit {0})) × ((mirror miniserver 2 [] (pos 21) [] [] before).0 ≡ some r)
mirror_ends_example =
    mirror_ends miniserver rank files-Below 2 [] (pos 21) [] [] before (omega arith)

abbrev refusing : Platform (List FilePath) ℕ Text
refusing = record miniserver { list = λ conn dir w. (err (errorf []), w) }

always_refused : Failing refusing.wait (refusing.list 1 []) 0 5 before before
always_refused = one_more _ refl refl (
    one_more _ refl refl
      (one_more _ refl refl (one_more _ refl refl (one_more _ refl refl none_yet))))

mirror_dir_unlisted_example : mirror_dir refusing 1 1 [] before ≡ (some (ok tt), before)
mirror_dir_unlisted_example =
    mirror_dir_unlisted refusing 1 0 [] before before before (errorf []) refl refl always_refused
      refl
