-- ===== src/Scheduler/Frames.antt =====
-- What the outside of a run leaves alone: a view of its state, such as the jobs of the cron library, that none of
-- its operations changes.
use loxbak.Base.{
  ◌≡◌, refl, ◌∙◌, some, List, [], ◌∷◌, ◌++◌, leb, Bool-cases, inl, inr, Result-cases, Result, ok,
  err, length, drop,
}
use loxbak.Base.Int.{ℤ, not_positive, pos_part}
use loxbak.Base.Text.{Text}
use loxbak.Destinations.{
  BackupMeta, BackupEntry, Lister, Destination, delete_loop, matched, prune_listed, prune,
}
use loxbak.Scheduler.World.{Outside}

module _ {E V : Type 0} (view : E → V) where
  pub record LeavesLister (l : Lister E) : Type 0 where
    pub list_lem : (x : E) → view (l.list x).1 ≡ view x
    pub delete_lem : (name : Text) (x : E) → view (l.delete name x).1 ≡ view x

  pub record LeavesDestination (dest : Destination E) : Type 0 where
    pub store_lem :
        (meta : BackupMeta) (content : Text) (x : E) → view (dest.store meta content x).1 ≡ view x
    pub lister_lem : (l : Lister E) → dest.lister ≡ some l → LeavesLister l
    pub reader_lem :
        (read : Text → E → Result Text × E)
        → dest.reader ≡ some read
        → (name : Text) (x : E) → view (read name x).1 ≡ view x

  pub record Leaves (o : Outside E) : Type 0 where
    pub mirror_lem :
        (host : Text) (port : ℤ) (user password : Text) (x : E)
        → view (o.mirror host port user password x).1 ≡ view x
    pub archive_dir_lem : (name : Text) (x : E) → view (o.archive_dir name x).1 ≡ view x
    pub open_archive_lem : (x : E) → view (o.open_archive x).1 ≡ view x
    pub remove_archive_lem : (x : E) → view (o.remove_archive x) ≡ view x
    pub build_lem :
        (type name config secret : Text) (dest : Destination E)
        → o.build type name config secret ≡ ok dest
        → LeavesDestination dest

  module _ (l : Lister E) (leaves : LeavesLister l) where
    delete_loop-view :
        (es : List BackupEntry) (deleted : List Text) (x : E)
        → view (delete_loop l es deleted x).1 ≡ view x
    unfolding delete_loop
    delete_loop-view [] deleted x = refl
    delete_loop-view (e ∷ es) deleted x = elim (Result-cases (l.delete e.filename x).0) [
      | inl (z, failed) ↦ rw (failed, delete_loop) (leaves.delete_lem e.filename x)
      | inr done ↦
          rw (done, delete_loop)
            (delete_loop-view es (deleted ++ e.filename ∷ []) (l.delete e.filename x).1
              ∙ leaves.delete_lem e.filename x)
    ]

    prune_listed-view :
        (prefix : Text) (keep : ℤ) (r : Result (List BackupEntry)) (x : E)
        → view (prune_listed l prefix keep (r, x)).1 ≡ view x
    prune_listed-view prefix keep (err z) x = refl
    prune_listed-view prefix keep (ok es) x =
        elim (Bool-cases (leb (length (matched prefix es)) (pos_part keep))) [
          | inl few ↦ rw few refl
          | inr many ↦ rw many (delete_loop-view (drop (pos_part keep) (matched prefix es)) [] x)
        ]

    pub prune-view : (prefix : Text) (keep : ℤ) (x : E) → view (prune l prefix keep x).1 ≡ view x
    unfolding prune
    prune-view prefix keep x = elim (Bool-cases (not_positive keep)) [
      | inl off ↦ rw off refl
      | inr on ↦ rw on (prune_listed-view prefix keep (l.list x).0 (l.list x).1 ∙ leaves.list_lem x)
    ]

-- Every outside leaves the trivial view alone.
pub nothing_seen : {E : Type 0} (o : Outside E) → Leaves (λ _. tt) o
nothing_seen o = record {
  mirror_lem = λ host port user password x. refl;
  archive_dir_lem = λ name x. refl;
  open_archive_lem = λ x. refl;
  remove_archive_lem = λ x. refl;
  build_lem = λ type name config secret dest e. record {
    store_lem = λ meta content x. refl;
    lister_lem = λ l e. record { list_lem = λ x. refl; delete_lem = λ name x. refl };
    reader_lem = λ read e name x. refl;
  };
}
