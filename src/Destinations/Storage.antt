-- ===== src/Destinations/Storage.antt =====
-- What a local destination stores, as a map from the names of archives to their bytes.
use loxbak.Base.{
  ◌≡◌, ◌≢◌, refl, ap, sym, ◌∙◌, Bool, true, false, ◌&&◌, Option, none, some, List, [], ◌∷◌, is_ok,
  All, Bool-cases, inl, inr, arith, Error, Result, ok, err,
}
use loxbak.Base.Text.{Text, txt, text_eq, text_eq_refl, eq_of_text_eq}
use loxbak.Destinations.Local.{
  Disk, LocalDir, then_do, finished, write_file, create_file, local_dir, local_store, local_delete,
}
use loxbak.Destinations.Locations.{Location, join, is_plain}
use loxbak.Destinations.Shelf.{
  join-ne, Shelf, Op, put, remove, archive_of, HasPlainName, effect, effects, effects-ext,
}

-- The documented behaviour of the file system: `files` is the content of the regular file at a path. A call
-- that succeeds has done what it is for, no call touches a file at another path, and making directories
-- touches no file; a removal that fails removes nothing.
pub record IsLawful {S : Type 0} (disk : Disk S) : Type 0 where
  pub files : S → Location → Option Text
  pub mkdir_all_lem : (l p : Location) (s : S) → files (disk.mkdir_all l s).1 p ≡ files s p
  pub create_else : (l p : Location) (s : S) → p ≢ l → files (disk.create l s).1 p ≡ files s p
  pub copy_ok :
      (l : Location) (t : Text) (s : S)
      → (disk.copy l t s).0 ≡ ok tt
      → files (disk.copy l t s).1 l ≡ some t
  pub copy_else :
      (l p : Location) (t : Text) (s : S) → p ≢ l → files (disk.copy l t s).1 p ≡ files s p
  pub remove_ok :
      (l : Location) (s : S) → (disk.remove l s).0 ≡ ok tt → files (disk.remove l s).1 l ≡ none
  pub remove_else : (l p : Location) (s : S) → p ≢ l → files (disk.remove l s).1 p ≡ files s p
  pub remove_err :
      (l p : Location) (s : S) (e : Error)
      → (disk.remove l s).0 ≡ err e
      → files (disk.remove l s).1 p ≡ files s p

module _ {S : Type 0} (disk : Disk S) (l : LocalDir) where
  abbrev pub run : Op → S → Result (Unit {0}) × S
  run (put meta content) = local_store disk l meta content
  run (remove name) = local_delete disk l name

  abbrev pub run_all : List Op → S → S
  run_all [] s = s
  run_all (op ∷ ops) s = run_all ops (run op s).1

  abbrev pub all_succeed : List Op → S → Bool
  all_succeed [] s = true
  all_succeed (op ∷ ops) s = is_ok (run op s).0 && all_succeed ops (run op s).1

  then_do-ok :
      (t : Text) (m : Result (Unit {0}) × S) (next : S → Result (Unit {0}) × S)
      → is_ok (then_do disk l t m next).0 ≡ true
      → (m.0 ≡ ok tt) × (then_do disk l t m next ≡ next m.1)
  then_do-ok t (ok _, s) next e = (refl, refl)
  then_do-ok t (err x, s) next e = cc

  module _ (law : IsLawful disk) where
    open law use {files, mkdir_all_lem, create_else, copy_ok, copy_else, remove_ok, remove_else}

    abbrev pub shelf : S → Shelf
    shelf s name = files s (join (local_dir l) name)

    -- Whatever succeeds or fails, no file at another path changes.
    then_do-else :
        (p : Location) (t : Text) (m : Result (Unit {0}) × S) (next : S → Result (Unit {0}) × S)
        (s : S)
        → files m.1 p ≡ files s p
        → ((v : S) → files (next v).1 p ≡ files v p)
        → files (then_do disk l t m next).1 p ≡ files s p
    then_do-else p t (ok _, v) next s e k = k v ∙ e
    then_do-else p t (err x, v) next s e k = e

    write_file-else :
        (path : Location) (content : Text) (p : Location) (s : S)
        → p ≢ path
        → files (write_file disk l path content s).1 p ≡ files s p
    write_file-else path content p s n =
        then_do-else p (txt "destinations: local: write") (disk.copy path content s)
          (finished disk l) s (copy_else path p content s n) (λ v. refl)

    create_file-else :
        (path : Location) (content : Text) (p : Location) (s : S)
        → p ≢ path
        → files (create_file disk l path content s).1 p ≡ files s p
    create_file-else path content p s n =
        then_do-else p (txt "destinations: local: create") (disk.create path s)
          (write_file disk l path content) s (create_else path p s n)
          (λ v. write_file-else path content p v n)

    -- Storing or deleting an archive changes no file but the one at the archive's path, whatever succeeds or
    -- fails.
    pub run_else :
        (op : Op) (s : S) (p : Location)
        → p ≢ join (local_dir l) (archive_of op)
        → files (run op s).1 p ≡ files s p
    unfolding local_store local_delete
    run_else (put meta content) s p n =
        let dir = local_dir l in
        let path = join dir meta.filename in
        then_do-else p (txt "destinations: local: mkdir") (disk.mkdir_all dir s)
          (create_file disk l path content) s (mkdir_all_lem dir p s)
          (λ v. create_file-else path content p v n)
    run_else (remove name) s p n =
        let path = join (local_dir l) name in
        then_do-else p (txt "destinations: local: delete") (disk.remove path s) (finished disk l) s
          (remove_else path p s n) (λ v. refl)

    write_file-ok :
        (path : Location) (content : Text) (s : S)
        → is_ok (write_file disk l path content s).0 ≡ true
        → files (write_file disk l path content s).1 path ≡ some content
    write_file-ok path content s e =
        let (done, same) =
          then_do-ok (txt "destinations: local: write") (disk.copy path content s) (finished disk l)
            e in
        ap (λ r. files r.1 path) same ∙ copy_ok path content s done

    create_file-ok :
        (path : Location) (content : Text) (s : S)
        → is_ok (create_file disk l path content s).0 ≡ true
        → files (create_file disk l path content s).1 path ≡ some content
    create_file-ok path content s e =
        let (done, same) =
          then_do-ok (txt "destinations: local: create") (disk.create path s)
            (write_file disk l path content) e in
        ap (λ r. files r.1 path) same
        ∙ write_file-ok path content (disk.create path s).1 (ap (λ r. is_ok r.0) (sym same) ∙ e)

    -- What an operation that succeeds has done to its own archive.
    pub run_ok :
        (op : Op) (s : S) (m : Shelf)
        → is_ok (run op s).0 ≡ true
        → shelf (run op s).1 (archive_of op) ≡ effect op m (archive_of op)
    unfolding local_store local_delete
    run_ok (put meta content) s m e =
        let dir = local_dir l in
        let path = join dir meta.filename in
        let (done, same) =
          then_do-ok (txt "destinations: local: mkdir") (disk.mkdir_all dir s)
            (create_file disk l path content) e in
        rw (text_eq_refl meta.filename) (
          ap (λ r. files r.1 path) same
          ∙ create_file-ok path content (disk.mkdir_all dir s).1
              (ap (λ r. is_ok r.0) (sym same) ∙ e))
    run_ok (remove name) s m e =
        let path = join (local_dir l) name in
        let (done, same) =
          then_do-ok (txt "destinations: local: delete") (disk.remove path s) (finished disk l) e in
        rw (text_eq_refl name) (ap (λ r. files r.1 path) same ∙ remove_ok path s done)

    effect-else :
        (op : Op) (m : Shelf) (g : Text) → text_eq g (archive_of op) ≡ false → effect op m g ≡ m g
    effect-else (put meta content) m g h = rw h refl
    effect-else (remove name) m g h = rw h refl

    run-effect :
        (op : Op) (s : S) (g : Text)
        → HasPlainName op
        → is_plain g ≡ true
        → is_ok (run op s).0 ≡ true
        → shelf (run op s).1 g ≡ effect op (shelf s) g
    run-effect op s g p q e = elim (Bool-cases (text_eq g (archive_of op))) [
      | inl h ↦ rw (eq_of_text_eq g (archive_of op) h) (run_ok op s (shelf s) e)
      | inr h ↦
          run_else op s (join (local_dir l) g) (join-ne (local_dir l) (archive_of op) g p q h)
          ∙ sym (effect-else op (shelf s) g h)
    ]

    -- If archives with plain names are stored at a local destination and deleted from it, and each of these
    -- calls succeeds, then behind them the destination holds what the same steps make of a map from names to
    -- contents: under every plain name the content stored there last and not deleted since, or what was there.
    pub local_refines :
        (ops : List Op) (s : S) (g : Text)
        → All HasPlainName ops
        → all_succeed ops s ≡ true
        → is_plain g ≡ true
        → shelf (run_all ops s) g ≡ effects ops (shelf s) g
    local_refines [] s g p e q = refl
    local_refines (op ∷ ops) s g (p, ps) e q =
        let first : is_ok (run op s).0 ≡ true = ground (arith, e) in
        let later : all_succeed ops (run op s).1 ≡ true = ground (arith, e) in
        local_refines ops (run op s).1 g ps later q
        ∙ effects-ext ops (shelf (run op s).1) (effect op (shelf s)) g (run-effect op s g p q first)
