-- ===== src/Scheduler/Sound.antt =====
-- What the steps of a run keep: a property of the tables, and what a view shows of the outside.
use loxbak.Base.{
  ℕ, ◌≡◌, sym, ◌∙◌, subst, Bool, false, Option, none, some, List, [], ◌∷◌, Bool-cases, inl, inr,
  refl, Result, ok, err,
}
use loxbak.Base.Int.{ℤ, not_positive}
use loxbak.Base.Text.{Text, txt}
use loxbak.Archive.{archive_prefix}
use loxbak.Crypto.{decrypt}
use loxbak.Db.{Db, ScheduleDestination, Tables, Status, M}
use loxbak.Db.Credentials.{get_credential}
use loxbak.Db.Destinations.{get_destination}
use loxbak.Db.Schedules.{list_schedule_destinations, get_schedule}
use loxbak.Db.Runs.{create_run_destination_result, delete_run_destination_result_by_filename}
use loxbak.Db.Sql.{Keeps}
use loxbak.Db.Reads.{
  get_credential-tables, get_destination-tables, get_schedule-tables,
  list_schedule_destinations-tables,
}
use loxbak.Destinations.{BackupMeta, Destination, Lister}
use loxbak.Scheduler.Frames.{LeavesLister, LeavesDestination, Leaves, prune-view}
use loxbak.Scheduler.World.{
  Outside, World, R, on_db, on_outside, returned, wrapping, continue, ◌>>=◌,
}
use loxbak.Scheduler.Job.{
  Prepared, prepare, forget_deleted, prune_old_backups, prune_with, stored_secret, some_links,
  store_to_destination, store_and_record, store_all, do_stores, do_run,
}

module _ (P : Tables → Type 0) {E V : Type 0} (view : E → V) where
  abbrev pub IsSound : V → World E → Type 0
  IsSound v w = P w.db.tables × (view w.outside ≡ v)

  abbrev pub Sound : {A : Type 0} → R E A → Type 0
  Sound m = (v : V) (w : World E) → IsSound v w → IsSound v (m w).1

module _ (P : Tables → Type 0) {E V A : Type 0} (view : E → V) where
  pub write-Sound : (m : M A) → Keeps P m → Sound P view (on_db m)
  write-Sound m keeps v w (p, q) = (keeps w.db p, q)

  pub read-Sound : (m : M A) → ((d : Db) → (m d).1.tables ≡ d.tables) → Sound P view (on_db m)
  read-Sound m same = write-Sound m (λ d p. subst P (sym (same d)) p)

  pub outside-Sound :
      (f : E → Result A × E) → ((x : E) → view (f x).1 ≡ view x) → Sound P view (on_outside f)
  outside-Sound f leaves v w (p, q) = (p, leaves w.outside ∙ q)

  pub wrapping-Sound : (t : Text) (m : R E A) → Sound P view m → Sound P view (wrapping t m)
  wrapping-Sound t m k v w c = k v w c

  pub returned-Sound : (r : Result A) → Sound P view (returned r)
  returned-Sound r v w c = c

  continue-Sound :
      {B : Type 0} (f : A → R E B) (r : Result A)
      → ((a : A) → r ≡ ok a → Sound P view (f a))
      → Sound P view (λ w. continue r f w)
  continue-Sound f (ok a) k v w c = k a refl v w c
  continue-Sound f (err e) k v w c = c

  pub bind-Sound :
      {B : Type 0} (m : R E A) (f : A → R E B)
      → Sound P view m
      → ((a : A) → Sound P view (f a))
      → Sound P view (m >>= f)
  bind-Sound m f k l v w c = continue-Sound f (m w).0 (λ a _. l a) v (m w).1 (k v w c)

  -- The first call changes nothing, and the second may use what it returned.
  pub returned_bind-Sound :
      {B : Type 0} (t : Text) (r : Result A) (f : A → R E B)
      → ((a : A) → r ≡ ok a → Sound P view (f a))
      → Sound P view (wrapping t (returned r) >>= f)
  returned_bind-Sound t (ok a) f k v w c = k a refl v w c
  returned_bind-Sound t (err e) f k v w c = c

-- `do_run` keeps what recording and forgetting a result keep, and leaves alone what its outside leaves alone.
module _ {E V : Type 0} (o : Outside E) (view : E → V) (leaves : Leaves view o)
    (P : Tables → Type 0)
    (records : (run : ℕ) (dest : Option ℕ) (status : Status) (size : Option ℕ) (text : Text)
      → Keeps P (create_run_destination_result run dest status size text))
    (forgets : (dest : ℕ) (name : Text)
      → Keeps P (delete_run_destination_result_by_filename dest name)) where
  forget_deleted-Sound :
      (id : ℕ) (names : List Text) (v : V) (w : World E)
      → IsSound P view v w
      → IsSound P view v (forget_deleted o id names w)
  unfolding forget_deleted
  forget_deleted-Sound id [] v w c = c
  forget_deleted-Sound id (name ∷ names) v w (p, q) =
      forget_deleted-Sound id names v _ (forgets id name w.db p, q)

  prune_with-Sound :
      (l : Option (Lister E)) (id : ℕ) (name : Text) (keep : ℤ)
      → ((a : Lister E) → l ≡ some a → LeavesLister view a)
      → (v : V) (w : World E) → IsSound P view v w
      → IsSound P view v (prune_with o l id name keep w)
  prune_with-Sound none id name keep k v w c = c
  prune_with-Sound (some l) id name keep k v w (p, q) =
      forget_deleted-Sound id _ v _
        (p, prune-view view l (k l refl) (archive_prefix name) keep w.outside ∙ q)

  prune_old_backups-Sound :
      (dest : Destination E) (id : ℕ) (name : Text) (keep : ℤ)
      → LeavesDestination view dest
      → (v : V) (w : World E) → IsSound P view v w
      → IsSound P view v (prune_old_backups o dest id name keep w)
  unfolding prune_old_backups
  prune_old_backups-Sound dest id name keep k v w c = elim (Bool-cases (not_positive keep)) [
    | inl off ↦ rw off c
    | inr on ↦ rw on (prune_with-Sound dest.lister id name keep k.lister_lem v w c)
  ]

  stored_secret-Sound : (t : Text) → Sound P view (stored_secret o t)
  stored_secret-Sound [] v w c = c
  stored_secret-Sound (x ∷ t) v w c = c

  store_to_destination-Sound :
      (id : ℕ) (meta : BackupMeta) (keep : ℤ) → Sound P view (store_to_destination o id meta keep)
  unfolding store_to_destination
  store_to_destination-Sound id meta keep =
      bind-Sound P view (wrapping (txt "get destination") (on_db (get_destination id))) _
        (read-Sound P view (get_destination id) (get_destination-tables id))
        λ row.
          bind-Sound P view (stored_secret o row.encrypted_secret) _
            (stored_secret-Sound row.encrypted_secret)
            λ secret.
              returned_bind-Sound P view (txt "build destination")
                (o.build row.type row.name row.config_json secret) _
                λ dest made.
                  let k = leaves.build_lem row.type row.name row.config_json secret dest made in
                  bind-Sound P view (wrapping (txt "open archive") (on_outside o.open_archive)) _
                    (outside-Sound P view o.open_archive leaves.open_archive_lem)
                    λ content.
                      bind-Sound P view
                        (wrapping (txt "store") (on_outside (dest.store meta content))) _
                        (outside-Sound P view (dest.store meta content) (k.store_lem meta content))
                        λ _. prune_old_backups-Sound dest id meta.schedule_name keep k

  store_and_record-Sound :
      (run : ℕ) (meta : BackupMeta) (link : ScheduleDestination)
      → Sound P view (store_and_record o run meta link)
  unfolding store_and_record
  store_and_record-Sound run meta link v w c =
      write-Sound P view
        (create_run_destination_result run (some link.destination_id) _ (some meta.size) _)
        (records run (some link.destination_id) _ (some meta.size) _) v
        (store_to_destination o link.destination_id meta link.retention_count w).1
        (store_to_destination-Sound link.destination_id meta link.retention_count v w c)

  store_all-Sound :
      (run : ℕ) (meta : BackupMeta) (links : List ScheduleDestination) (s f : Bool) (v : V)
      (w : World E)
      → IsSound P view v w
      → IsSound P view v (store_all o run meta links s f w).1
  unfolding store_all
  store_all-Sound run meta [] s f v w c = c
  store_all-Sound run meta (link ∷ links) s f v w c =
      store_all-Sound run meta links _ _ v _ (store_and_record-Sound run meta link v w c)

  some_links-Sound : (ls : List ScheduleDestination) → Sound P view (some_links o ls)
  some_links-Sound [] v w c = c
  some_links-Sound (l ∷ ls) v w c = c

  prepare-Sound : (id : ℕ) → Sound P view (prepare o id)
  unfolding prepare
  prepare-Sound id =
      bind-Sound P view (wrapping (txt "no Loxone credential stored") (on_db get_credential)) _
        (read-Sound P view get_credential get_credential-tables)
        λ cred.
          bind-Sound P view
            (wrapping (txt "decrypt stored Loxone credential")
              (returned (decrypt o.cipher o.master_key cred.encrypted_password)))
            _ (λ v w c. c)
            λ password.
              bind-Sound P view
                (wrapping (txt "list schedule destinations")
                  (on_db (list_schedule_destinations id)))
                _
                (read-Sound P view (list_schedule_destinations id)
                  (list_schedule_destinations-tables id))
                λ links. bind-Sound P view (some_links o links) _ (some_links-Sound links) λ _.
                  bind-Sound P view (wrapping (txt "get schedule") (on_db (get_schedule id))) _
                    (read-Sound P view (get_schedule id) (get_schedule-tables id))
                    λ sched.
                      bind-Sound P view
                        (wrapping (txt "mirror Miniserver files")
                          (on_outside (o.mirror cred.host cred.port cred.username password)))
                        _
                        (outside-Sound P view (o.mirror cred.host cred.port cred.username password)
                          (leaves.mirror_lem cred.host cred.port cred.username password))
                        λ _.
                          bind-Sound P view
                            (wrapping (txt "archive backup")
                              (on_outside (o.archive_dir sched.name)))
                            _
                            (outside-Sound P view (o.archive_dir sched.name)
                              (leaves.archive_dir_lem sched.name))
                            λ archive v w c. c

  do_stores-Sound :
      (run : ℕ) (r : Result Prepared) (v : V) (w : World E)
      → IsSound P view v w
      → IsSound P view v (do_stores o run (r, w)).1
  do_stores-Sound run (err e) v w c = c
  do_stores-Sound run (ok p) v w c =
      let (tables, seen) = store_all-Sound run _ p.links false false v w c in
      (tables, leaves.remove_archive_lem _ ∙ seen)

  pub do_run-Sound :
      (id run : ℕ) (v : V) (w : World E)
      → IsSound P view v w
      → IsSound P view v (do_run o id run w).1
  unfolding do_run
  do_run-Sound id run v w c =
      do_stores-Sound run (prepare o id w).0 v (prepare o id w).1 (prepare-Sound id v w c)
