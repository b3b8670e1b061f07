-- ===== src/Api/Destinations.antt =====
-- internal/api/destinations.go
use loxbak.Base.{
  ℕ, Bool, true, false, ◌||◌, not, Option, none, some, List, [], ◌∷◌, map, Error, Result, ok, err,
  if◌then◌else◌,
}
use loxbak.Base.Text.{Text, txt, is_empty}
use loxbak.Api.{
  DestinationResponse, Response, Backend, Server, Handler, respond, failed_with, empty,
  one_destination, destinations, answer, check, given, call, reload_scheduler,
}
use loxbak.Api.Auth.{encrypted}
use loxbak.Crypto.{decrypt}
use loxbak.Db
use loxbak.Db.Destinations.{
  list_destinations, get_destination, create_destination, update_destination, delete_destination,
}
use loxbak.Destinations.{BackupEntry, Lister, Destination}
use loxbak.Scheduler.World.{World, R, on_db, returned, wrapping, ◌>>=◌}

pub record DestinationRequest : Type 0 where
  pub name : Text
  pub type : Text
  pub config_json : Text
  pub secret : Text

abbrev pub to_destination_response : Db.Destination → DestinationResponse
to_destination_response d = record {
  id = d.id;
  name = d.name;
  type = d.type;
  config_json = d.config_json;
  has_secret = not (is_empty d.encrypted_secret);
}

abbrev pub is_complete : DestinationRequest → Bool
is_complete req = not (is_empty req.name || is_empty req.type)

abbrev pub in_use_status : Error → Response
in_use_status Error.destination_in_use =
    failed_with 409
      (txt "destination is used by one or more schedules — remove it from those schedules first")
in_use_status _ = failed_with 404 (txt "destination not found")

module _ {E : Type 0} where
  unfoldable pub handle_list_destinations : Handler E
  handle_list_destinations =
      call (on_db list_destinations) (λ _. failed_with 500 (txt "failed to list destinations"))
        (λ dests. answer (respond 200 (destinations (map to_destination_response dests))))

  unfoldable pub handle_get_destination : Option ℕ → Handler E
  handle_get_destination param = given param (failed_with 400 (txt "invalid destination id")) (λ id.
      call (on_db (get_destination id)) (λ _. failed_with 404 (txt "destination not found"))
        (λ d. answer (respond 200 (one_destination (to_destination_response d)))))

module _ {E : Type 0} (b : Backend E) where
  abbrev pub encrypt_destination_secret : Text → R E Text
  encrypt_destination_secret secret =
      if is_empty secret then returned (ok []) else encrypted b secret

  abbrev pub secret_of : Text → Result Text
  secret_of encrypted_secret =
      if is_empty encrypted_secret
      then ok []
      else decrypt b.outside.cipher b.outside.master_key encrypted_secret

  unfoldable pub build_destination : Db.Destination → R E (Destination E)
  build_destination d = do
    secret ← wrapping (txt "decrypt destination secret") (returned (secret_of d.encrypted_secret))
    returned (b.outside.build d.type d.name d.config_json secret)

  unfoldable pub handle_create_destination : Option DestinationRequest → Handler E
  handle_create_destination body = given body (failed_with 400 (txt "invalid request body")) (λ req.
      check (is_complete req) (failed_with 400 (txt "name and type are required")) (
        call (encrypt_destination_secret req.secret)
          (λ _. failed_with 500 (txt "failed to encrypt secret"))
          (λ blob.
            call (on_db (create_destination req.name req.type req.config_json blob))
              (λ _. failed_with 500 (txt "failed to create destination"))
              (λ id.
                call (on_db (get_destination id))
                  (λ _. failed_with 500 (txt "failed to load created destination"))
                  (λ d. answer (respond 201 (one_destination (to_destination_response d))))))))

  -- The stored secret stays unless the request brings a new one.
  abbrev pub new_secret : Text → Text → R E Text
  new_secret stored secret =
      if is_empty secret then returned (ok stored) else encrypt_destination_secret secret

  unfoldable pub handle_update_destination : Option ℕ → Option DestinationRequest → Handler E
  handle_update_destination param body =
      given param (failed_with 400 (txt "invalid destination id")) (λ id.
        given body (failed_with 400 (txt "invalid request body")) (λ req.
          check (is_complete req) (failed_with 400 (txt "name and type are required")) (
            call (on_db (get_destination id)) (λ _. failed_with 404 (txt "destination not found"))
              (λ existing.
                call (new_secret existing.encrypted_secret req.secret)
                  (λ _. failed_with 500 (txt "failed to encrypt secret"))
                  (λ blob.
                    call (on_db (update_destination id req.name req.type req.config_json blob))
                      (λ _. failed_with 404 (txt "destination not found"))
                      (λ _.
                        call (on_db (get_destination id))
                          (λ _. failed_with 500 (txt "failed to load updated destination"))
                          (λ d.
                            answer
                              (respond 200 (one_destination (to_destination_response d))))))))))

  -- The destination to purge, built before its row is deleted; `none` where that is not to be done or fails.
  abbrev pub built : Result (Destination E) → Option (Destination E)
  built (ok dest) = some dest
  built (err _) = none

  abbrev pub purge_target : Bool → ℕ → World E → Option (Destination E) × World E
  purge_target false id w = (none, w)
  purge_target true id w =
      let (r, w1) = (on_db (get_destination id) >>= build_destination) w in (built r, w1)

  -- Errors of the deletions are logged only.
  unfoldable pub purge_entries : Lister E → List BackupEntry → E → E
  purge_entries lister [] x = x
  purge_entries lister (e ∷ es) x = purge_entries lister es (lister.delete e.filename x).1

  abbrev pub purge_listed : Lister E → Result (List BackupEntry) × E → E
  purge_listed lister (err _, x) = x
  purge_listed lister (ok es, x) = purge_entries lister es x

  abbrev pub purge_lister : Option (Lister E) → E → E
  purge_lister none x = x
  purge_lister (some lister) x = purge_listed lister (lister.list x)

  abbrev pub purge_destination : Option (Destination E) → E → E
  purge_destination none x = x
  purge_destination (some dest) x = purge_lister dest.lister x

  abbrev pub purged : Option (Destination E) → Server E → Server E
  purged dest s = record s {
    world = record s.world { outside = purge_destination dest s.world.outside };
  }

  unfoldable pub handle_delete_destination : Option ℕ → Bool → Handler E
  unfolding build_destination purge_entries reload_scheduler
  handle_delete_destination param purge =
      given param (failed_with 400 (txt "invalid destination id")) (λ id s.
        let (dest, w) = purge_target purge id s.world in
        call (on_db (delete_destination id)) in_use_status
          (λ _ s1. (respond 204 empty, reload_scheduler b (purged dest s1)))
          (record s { world = w }))
