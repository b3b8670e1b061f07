-- ===== src/Api/Shelves.antt =====
-- The list of backups (internal/api/backups.go), against what is stored at the destinations.
use mathlib.Core.List.{Perm, map-append}
use loxbak.Base.{
  ℕ, ◌≡◌, refl, ap, ◌∙◌, Bool, Option, none, some, List, [], ◌∷◌, ◌++◌, map, arith, Result, ok, err,
  wrap_err,
}
use loxbak.Base.Text.{Text, txt}
use loxbak.Api.{BackupEntryResponse, Response, Backend, Server, respond, backups}
use loxbak.Api.Destinations.{secret_of, build_destination}
use loxbak.Api.Listing.{
  sort_started, described, describe_all, describe_lister, describe_listed, describe_built,
  describe_destination, describe_destinations, is_some, handle_list_backups,
}
use loxbak.Api.Rules.{call-post}
use loxbak.Archive.{Stamp}
use loxbak.Db
use loxbak.Db.{Schedule}
use loxbak.Db.Destinations.{list_destinations}
use loxbak.Db.Runs.{RunInfo, find_run_info_by_destination_and_filename}
use loxbak.Db.Schedules.{list_schedules}
use loxbak.Destinations.{BackupEntry, Lister, Destination}
use loxbak.Scheduler.World.{World, on_db, on_outside, continue, returned}
use loxbak.Api.Newest.{NewestStarted, sort_started-NewestStarted, sort_started-perm}

-- What identifies an archive, with its size.
abbrev pub shown : BackupEntryResponse → ℕ × Text × ℕ
shown r = (r.destination_id, r.filename, r.size_bytes)

abbrev pub stored : ℕ → BackupEntry → ℕ × Text × ℕ
stored dest_id e = (dest_id, e.filename, e.size)

module _ {E : Type 0} (seconds : Stamp → ℕ) (b : Backend E) where
  -- The destination of a row, where its secret decrypts and its configuration is good.
  abbrev destination_of : Db.Destination → Result Text → Result (Destination E)
  destination_of row (err e) = err e
  destination_of row (ok secret) = b.outside.build row.type row.name row.config_json secret

  abbrev listed_shelf : ℕ → Result (List BackupEntry) × E → List (ℕ × Text × ℕ) × E
  listed_shelf dest_id (err _, x) = ([], x)
  listed_shelf dest_id (ok es, x) = (map (stored dest_id) es, x)

  abbrev lister_shelf : ℕ → Option (Lister E) → E → List (ℕ × Text × ℕ) × E
  lister_shelf dest_id none x = ([], x)
  lister_shelf dest_id (some lister) x = listed_shelf dest_id (lister.list x)

  abbrev built_shelf : ℕ → Result (Destination E) → E → List (ℕ × Text × ℕ) × E
  built_shelf dest_id (err _) x = ([], x)
  built_shelf dest_id (ok dest) x = lister_shelf dest_id dest.lister x

  abbrev shelf : Db.Destination → E → List (ℕ × Text × ℕ) × E
  shelf row x = built_shelf row.id (destination_of row (secret_of b row.encrypted_secret)) x

  -- What the destinations hold, asked one by one; one that cannot be asked holds nothing.
  pub shelves : List Db.Destination → E → List (ℕ × Text × ℕ)
  shelves [] x = []
  shelves (row ∷ rows) x = let (out, x1) = shelf row x in out ++ shelves rows x1

  described-shown :
      (dest_id : ℕ) (downloadable : Bool) (schedules : List Schedule) (e : BackupEntry)
      (r : Result (Option RunInfo))
      → shown (described seconds dest_id downloadable schedules e r) ≡ stored dest_id e
  described-shown dest_id downloadable schedules e r = ground arith

  -- The archives of a description are those stored, and only the listing has touched the outside.
  abbrev Shows : List (ℕ × Text × ℕ) × E → List BackupEntryResponse × World E → Type 0
  Shows s d = (map shown d.0 ≡ s.0) × (d.1.outside ≡ s.1)

  describe_all-Shows :
      (dest_id : ℕ) (downloadable : Bool) (schedules : List Schedule) (es : List BackupEntry)
      (w : World E)
      → Shows
          (map (stored dest_id) es, w.outside)
          (describe_all seconds dest_id downloadable schedules es w)
  unfolding describe_all
  describe_all-Shows dest_id downloadable schedules [] w = (refl, refl)
  describe_all-Shows dest_id downloadable schedules (e ∷ es) w =
      let m = on_db (find_run_info_by_destination_and_filename dest_id e.filename) w in
      let (later, same) = describe_all-Shows dest_id downloadable schedules es m.1 in
      (
        ap (λ k. k ∷ map shown (describe_all seconds dest_id downloadable schedules es m.1).0)
              (described-shown dest_id downloadable schedules e m.0)
            ∙ ap (λ t. stored dest_id e ∷ t) later,
        same,
      )

  describe_listed-Shows :
      (dest_id : ℕ) (downloadable : Bool) (schedules : List Schedule)
      (m : Result (List BackupEntry) × World E)
      → Shows
          (listed_shelf dest_id (m.0, m.1.outside))
          (describe_listed seconds dest_id downloadable schedules m)
  describe_listed-Shows dest_id downloadable schedules (err _, w) = (refl, refl)
  describe_listed-Shows dest_id downloadable schedules (ok es, w) =
      describe_all-Shows dest_id downloadable schedules es w

  describe_lister-Shows :
      (dest_id : ℕ) (downloadable : Bool) (schedules : List Schedule) (o : Option (Lister E))
      (w : World E)
      → Shows
          (lister_shelf dest_id o w.outside)
          (describe_lister seconds dest_id downloadable schedules o w)
  describe_lister-Shows dest_id downloadable schedules none w = (refl, refl)
  describe_lister-Shows dest_id downloadable schedules (some lister) w =
      describe_listed-Shows dest_id downloadable schedules (on_outside lister.list w)

  describe_built-Shows :
      (dest_id : ℕ) (schedules : List Schedule) (m : Result (Destination E) × World E)
      → Shows (built_shelf dest_id m.0 m.1.outside) (describe_built seconds dest_id schedules m)
  describe_built-Shows dest_id schedules (err _, w) = (refl, refl)
  describe_built-Shows dest_id schedules (ok dest, w) =
      describe_lister-Shows dest_id (is_some dest.reader) schedules dest.lister w

  describe_destination-Shows :
      (schedules : List Schedule) (row : Db.Destination) (w : World E)
      → Shows (shelf row w.outside) (describe_destination seconds b schedules row w)
  unfolding build_destination
  describe_destination-Shows schedules row w = decrypted (secret_of b row.encrypted_secret)
    where
      decrypted :
          (r : Result Text)
          → Shows (built_shelf row.id (destination_of row r) w.outside) (
              describe_built seconds row.id schedules (
                continue
                  (wrap_err (txt "decrypt destination secret") r)
                  (λ secret. returned (b.outside.build row.type row.name row.config_json secret))
                  w))
      decrypted (err e) = (refl, refl)
      decrypted (ok secret) =
          describe_built-Shows row.id schedules
            (b.outside.build row.type row.name row.config_json secret, w)

  describe_destinations-shown :
      (schedules : List Schedule) (rows : List Db.Destination) (w : World E)
      → map shown (describe_destinations seconds b schedules rows w).0 ≡ shelves rows w.outside
  unfolding describe_destinations shelves
  describe_destinations-shown schedules [] w = refl
  describe_destinations-shown schedules (row ∷ rows) w =
      let d = describe_destination seconds b schedules row w in
      let (here, same) = describe_destination-Shows schedules row w in
      map-append shown d.0 _
      ∙ ap (λ t. t ++ map shown (describe_destinations seconds b schedules rows d.1).0) here
      ∙ ap (λ t. (shelf row w.outside).0 ++ t)
          (describe_destinations-shown schedules rows d.1 ∙ ap (shelves rows) same)

  -- A list of backups that is answered is sorted, the newest start first, and up to that order it is what those
  -- destinations of the table hold that can be built and listed when they are asked, with nothing of theirs left
  -- out or added: also an archive that the history does not know, and also where looking it up in the history
  -- fails. A destination that cannot be built or listed counts as holding nothing.
  pub handle_list_backups_complete :
      (s : Server E) (out : List BackupEntryResponse)
      → (handle_list_backups seconds b s).0 ≡ respond 200 (backups out)
      → NewestStarted out
        × ((rows : List Db.Destination) × (found : List BackupEntryResponse) × ((list_destinations
                s.world.db).0
              ≡ ok rows)
            × Perm out found
            × (map shown found ≡ shelves rows s.world.outside))
  unfolding handle_list_backups
  handle_list_backups_complete s out =
      call-post Complete (on_db list_destinations) _ _ s (λ e out h. cc)
        (λ rows listed.
          let w1 = (on_db list_destinations s.world).1 in
          call-post Complete (on_db list_schedules) _ _ (record s { world = w1 }) (λ e out h. cc)
            (λ schedules _ out h.
              let w2 = (on_db list_schedules w1).1 in
              let found = (describe_destinations seconds b schedules rows w2).0 in
              let same : sort_started found ≡ out = cc in
              (
                rw (← same) (sort_started-NewestStarted found),
                (
                  rows,
                  found,
                  listed,
                  rw (← same) (sort_started-perm found),
                  describe_destinations-shown schedules rows w2,
                ),
              )))
        out
    where
      Complete : Response × Server E → Type 0
      Complete r =
          (out : List BackupEntryResponse)
          → r.0 ≡ respond 200 (backups out)
          → NewestStarted out
            × ((rows : List Db.Destination) × (found : List BackupEntryResponse)
                × ((list_destinations s.world.db).0 ≡ ok rows)
                × Perm out found
                × (map shown found ≡ shelves rows s.world.outside))
