-- ===== src/Api/Purges.antt =====
-- Deleting a destination that schedules use, with or without `?purge=true`.
use loxbak.Base.{
  ℕ, ◌≡◌, ◌≢◌, refl, ap, ◌∙◌, Bool, true, false, some, ltb, length, keep_if, arith, Error, Result,
  ok, err, is_ok,
}
use loxbak.Api.{Backend, Server}
use loxbak.Api.Destinations.{
  build_destination, in_use_status, purge_target, handle_delete_destination,
}
use loxbak.Db
use loxbak.Db.{Tables, Db}
use loxbak.Db.Destinations.{links_to, get_destination, delete_destination}
use loxbak.Db.Reads.{get_destination-tables}
use loxbak.Scheduler.World.{World, on_db, continue}

in_use : ℕ → Tables → Bool
in_use id t = ltb 0 (length (keep_if (links_to id) t.links))

refused_with : (r : Result (Unit {0})) → is_ok r ≡ false → (e : Error) × (r ≡ err e)
refused_with (ok x) h = cc
refused_with (err e) h = (e, refl)

delete_destination-in_use :
    (id : ℕ) (d : Db)
    → in_use id d.tables ≡ true
    → ((delete_destination id d).1.tables ≡ d.tables) × (is_ok (delete_destination id d).0 ≡ false)
unfolding delete_destination in_use
delete_destination-in_use id d h = ground arith

in_use_status_code : (e : Error) → (in_use_status e).status ≢ 204
in_use_status_code e = ground arith

module _ {E : Type 0} (b : Backend E) where
  build_destination-world : (row : Db.Destination) (w : World E) → (build_destination b row w).1 ≡ w
  unfolding build_destination
  build_destination-world row w = ground arith

  continue-world :
      (r : Result Db.Destination) (w : World E) → (continue r (build_destination b) w).1 ≡ w
  continue-world (ok row) w = build_destination-world row w
  continue-world (err e) w = refl

  purge_target-same :
      (purge : Bool) (id : ℕ) (w : World E)
      → ((purge_target b purge id w).1.outside ≡ w.outside)
        × ((purge_target b purge id w).1.db.tables ≡ w.db.tables)
  purge_target-same false id w = (refl, refl)
  purge_target-same true id w =
      let same = continue-world (on_db (get_destination id) w).0 (on_db (get_destination id) w).1 in
      (
        ap (λ (x : World E). x.outside) same,
        ap (λ (x : World E). x.db.tables) same ∙ get_destination-tables id w.db,
      )

  -- A destination that a schedule uses is not deleted and loses no archive, whether or not the request asks
  -- for a purge and whichever statements fail: the response is not 204, and no table and nothing outside changes.
  pub handle_delete_destination_in_use :
      (id : ℕ) (purge : Bool) (s : Server E)
      → ltb 0 (length (keep_if (links_to id) s.world.db.tables.links)) ≡ true
      → ((handle_delete_destination b (some id) purge s).0.status ≢ 204)
        × ((handle_delete_destination b (some id) purge s).1.world.outside ≡ s.world.outside)
        × ((handle_delete_destination b (some id) purge s).1.world.db.tables ≡ s.world.db.tables)
  unfolding handle_delete_destination in_use
  handle_delete_destination_in_use id purge s h =
      let (outside, tables) = purge_target-same purge id s.world in
      let d = (purge_target b purge id s.world).1.db in
      let (kept, failing) = delete_destination-in_use id d (ap (in_use id) tables ∙ h) in
      let (e, refused) = refused_with (delete_destination id d).0 failing in
      (rw refused (in_use_status_code e), rw refused outside, rw refused (kept ∙ tables))
