-- ===== src/System/Listings.antt =====
-- What listing and purging a destination's archives keep (internal/api/backups.go, internal/api/destinations.go).
use loxbak.Base.{
  ℕ, ◌≡◌, refl, ◌∙◌, Bool, true, false, Option, none, some, List, [], ◌∷◌, Result, ok, err,
}
use loxbak.Api.{Backend}
use loxbak.Api.Destinations.{
  build_destination, purge_target, purge_entries, purge_destination, purge_listed, purge_lister,
  built,
}
use loxbak.Api.Listing.{
  is_some, describe_all, describe_listed, describe_lister, describe_built, describe_destinations,
}
use loxbak.Archive.{Stamp}
use loxbak.Db
use loxbak.Db.{Schedule}
use loxbak.Db.Destinations.{get_destination}
use loxbak.Db.Integrity.{IsSafe}
use loxbak.Db.Reads.{get_destination-tables, find_run_info-tables}
use loxbak.Db.Runs.{find_run_info_by_destination_and_filename}
use loxbak.Destinations.{BackupEntry, Lister, Destination}
use loxbak.Scheduler.Frames.{LeavesLister, LeavesDestination}
use loxbak.Scheduler.Sound.{IsSound, bind-Sound}
use loxbak.Scheduler.World.{World, continue, on_db}
use loxbak.System.Calls.{
  LeavesBackend, read-IsQuiet, outside-IsQuiet, build_destination-IsQuiet, build_destination-leaves,
}

module _ {E V : Type 0} (b : Backend E) (view : E → V) (leaves : LeavesBackend view b) where
  abbrev Stays : V → World E → Type 0
  Stays = IsSound IsSafe view

  module _ (seconds : Stamp → ℕ) (schedules : List Schedule) where
    describe_all-Stays :
        (id : ℕ) (down : Bool) (es : List BackupEntry) (v : V) (w : World E)
        → Stays v w
        → Stays v (describe_all seconds id down schedules es w).1
    unfolding describe_all
    describe_all-Stays id down [] v w c = c
    describe_all-Stays id down (e ∷ es) v w c = describe_all-Stays id down es v _ (
        read-IsQuiet b view leaves (find_run_info_by_destination_and_filename id e.filename)
          (find_run_info-tables id e.filename) v w c)

    describe_listed-Stays :
        (id : ℕ) (down : Bool) (r : Result (List BackupEntry)) (v : V) (w : World E)
        → Stays v w
        → Stays v (describe_listed seconds id down schedules (r, w)).1
    describe_listed-Stays id down (err e) v w c = c
    describe_listed-Stays id down (ok es) v w c = describe_all-Stays id down es v w c

    describe_lister-Stays :
        (id : ℕ) (down : Bool) (l : Option (Lister E))
        → ((a : Lister E) → l ≡ some a → LeavesLister view a)
        → (v : V) (w : World E) → Stays v w
        → Stays v (describe_lister seconds id down schedules l w).1
    describe_lister-Stays id down none k v w c = c
    describe_lister-Stays id down (some l) k v w c =
        describe_listed-Stays id down (l.list w.outside).0 v _
          (outside-IsQuiet b view leaves l.list (k l refl).list_lem v w c)

    describe_built-Stays :
        (id : ℕ) (r : Result (Destination E))
        → ((dest : Destination E) → r ≡ ok dest → LeavesDestination view dest)
        → (v : V) (w : World E) → Stays v w
        → Stays v (describe_built seconds id schedules (r, w)).1
    describe_built-Stays id (err e) k v w c = c
    describe_built-Stays id (ok dest) k v w c =
        describe_lister-Stays id (is_some dest.reader) dest.lister (k dest refl).lister_lem v w c

    pub describe_destinations-Stays :
        (rows : List Db.Destination) (v : V) (w : World E)
        → Stays v w
        → Stays v (describe_destinations seconds b schedules rows w).1
    unfolding describe_destinations
    describe_destinations-Stays [] v w c = c
    describe_destinations-Stays (row ∷ rows) v w c = describe_destinations-Stays rows v _ (
        describe_built-Stays row.id (build_destination b row w).0
          (build_destination-leaves b view leaves row w) v (build_destination b row w).1
          (build_destination-IsQuiet b view leaves row v w c))

  purge_entries-view :
      (l : Lister E)
      → LeavesLister view l
      → (es : List BackupEntry) (x : E) → view (purge_entries b l es x) ≡ view x
  unfolding purge_entries
  purge_entries-view l k [] x = refl
  purge_entries-view l k (e ∷ es) x =
      purge_entries-view l k es (l.delete e.filename x).1 ∙ k.delete_lem e.filename x

  -- What a lister is asked for, behind the type assertion.
  abbrev pub LeavesSome : Option (Destination E) → Type 0
  LeavesSome none = Unit
  LeavesSome (some dest) = LeavesDestination view dest

  pub purge_destination-view :
      (dest : Option (Destination E)) (x : E)
      → LeavesSome dest
      → view (purge_destination b dest x) ≡ view x
  purge_destination-view none x k = refl
  purge_destination-view (some dest) x k = at_lister dest.lister k.lister_lem
    where
      listed :
          (l : Lister E)
          → LeavesLister view l
          → (r : Result (List BackupEntry)) (y : E) → view (purge_listed b l (r, y)) ≡ view y
      listed l k (err e) y = refl
      listed l k (ok es) y = purge_entries-view l k es y

      at_lister :
          (l : Option (Lister E))
          → ((a : Lister E) → l ≡ some a → LeavesLister view a)
          → view (purge_lister b l x) ≡ view x
      at_lister none k = refl
      at_lister (some l) k = listed l (k l refl) (l.list x).0 (l.list x).1 ∙ (k l refl).list_lem x

  pub purge_target-Stays :
      (purge : Bool) (id : ℕ) (v : V) (w : World E)
      → Stays v w
      → Stays v (purge_target b purge id w).1 × LeavesSome (purge_target b purge id w).0
  purge_target-Stays false id v w c = (c, tt)
  purge_target-Stays true id v w c = (
    bind-Sound IsSafe view (on_db (get_destination id)) _
        (read-IsQuiet b view leaves (get_destination id) (get_destination-tables id))
        (λ row. build_destination-IsQuiet b view leaves row) v w c,
    target (on_db (get_destination id) w).0 (on_db (get_destination id) w).1,
  )
    where
      kept :
          (row : Db.Destination) (u : World E) (r : Result (Destination E))
          → (build_destination b row u).0 ≡ r
          → LeavesSome (built b r)
      kept row u (err e) q = tt
      kept row u (ok dest) q = build_destination-leaves b view leaves row u dest q

      target :
          (r : Result Db.Destination) (u : World E)
          → LeavesSome (built b (continue r (build_destination b) u).0)
      target (err e) u = tt
      target (ok row) u = kept row u (build_destination b row u).0 refl
