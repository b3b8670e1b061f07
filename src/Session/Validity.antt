-- ===== src/Session/Validity.antt =====
-- Which cookies are valid: those of live sessions, under the secret's signature, and no others.
use mathlib.Core.Option.{some-injective}
use loxbak.Base.{
  suc, ◌+◌, ◌≤◌, ◌≡◌, refl, ap, ◌∙◌, Bool, true, false, not, Option, none, some, List, [], ◌∷◌,
  ◌++◌, arith, ltb, find_first, any_of, keep_if, ok, err, err-ne-ok, Option-cases, inl, inr,
}
use loxbak.Base.Results.{session_invalid}
use loxbak.Base.Text.{Text, text_eq, text_eq_refl, eq_of_text_eq, is_empty}
use loxbak.Db.{Session, Db}
use loxbak.Db.Sql.{exec, query}
use loxbak.Db.Sessions.{has_session_id, create_session, get_session, delete_session}
use loxbak.Session.{
  ttl, url_encode, split_token, id_from_cookie, sign, new_id, token_id, create, check_token,
  validate,
}
use loxbak.Session.Tokens.{NoDot, hex_encode-NoDot, split_token-append, split_token-some}

-- The row of a session that has not expired when the lookup's query is done.
abbrev pub IsLive : Text → Session → Db → Type 0
IsLive id s d =
    (find_first (has_session_id id) d.tables.sessions ≡ some s)
    × (ltb s.expires_at (d.clock (suc d.step)) ≡ false)

find_first-keep_if-not {ℓ} :
    {A : Type ℓ} (p : A → Bool) (xs : List A) → find_first p (keep_if (λ x. not (p x)) xs) ≡ none
find_first-keep_if-not p [] = refl
find_first-keep_if-not p (x ∷ xs) = ground (arith, find_first-keep_if-not p xs)

delete_session-ok :
    (id : Text) (d : Db)
    → (delete_session id d).0 ≡ ok tt
    → (delete_session id d).1.tables.sessions
      ≡ keep_if (λ s. not (has_session_id id s)) d.tables.sessions
unfolding delete_session
delete_session-ok id d e = ground arith

module _ (hmac : Text → Text → Text) (secret : Text) where
  check_token-ok :
      (id sig : Text) (d : Db) (s : Session)
      → (check_token hmac secret (some (id, sig)) d).0 ≡ ok s
      → (text_eq sig (sign hmac secret id) ≡ true)
        × (find_first (has_session_id id) d.tables.sessions ≡ some s)
        × (ltb s.expires_at (d.clock (suc d.step)) ≡ false)
  unfolding get_session
  check_token-ok id sig d s e = ground arith

  -- A cookie that is accepted is the signed token of the row that is returned, and that row has not
  -- expired.
  pub validate_sound :
      (cookie : Option Text) (d : Db) (s : Session)
      → (validate hmac secret cookie d).0 ≡ ok s
      → (id : Text) × (cookie ≡ some (id ++ b'.' ∷ sign hmac secret id)) × IsLive id s d
  unfolding validate
  validate_sound none d s e = absurd (err-ne-ok e)
  validate_sound (some value) d s e = elim (Option-cases (split_token value)) [
    | inl bad ↦ absurd (err-ne-ok (rw bad at e))
    | inr ((id, sig), split) ↦
        let (signed, row, live) = check_token-ok id sig d s (rw split at e) in
        (
          id,
          ap some (
              split_token-some value id sig split
              ∙ ap (λ x. id ++ b'.' ∷ x) (eq_of_text_eq sig _ signed)),
          (row, live),
        )
  ]

  sign-NoDot : (id : Text) → NoDot (sign hmac secret id)
  unfolding sign
  sign-NoDot id = hex_encode-NoDot (hmac secret id)

  -- The signature of a token is split off again.
  split_signed :
      (id : Text) → split_token (id ++ b'.' ∷ sign hmac secret id) ≡ some (id, sign hmac secret id)
  split_signed id = split_token-append id _ (sign-NoDot id)

  -- A signed token of a live session is accepted, if the lookup goes through.
  validate_complete :
      (id : Text) (d : Db) (s : Session)
      → is_empty id ≡ false
      → is_empty (sign hmac secret id) ≡ false
      → d.fails d.step ≡ false
      → IsLive id s d
      → (validate hmac secret (some (id ++ b'.' ∷ sign hmac secret id)) d).0 ≡ ok s
  unfolding validate query
  validate_complete id d s full full' works (row, live) =
      rw (split_signed id)
        (rw (full, full', text_eq_refl (sign hmac secret id), works, row, live) refl)

  find_first-append_new :
      (id : Text) (rows : List Session) (s : Session)
      → any_of (has_session_id id) rows ≡ false
      → has_session_id id s ≡ true
      → find_first (has_session_id id) (rows ++ s ∷ []) ≡ some s
  find_first-append_new id [] s n h = rw h
  find_first-append_new id (r ∷ rows) s n h = ground (arith, find_first-append_new id rows s)

  abbrev new_session : Text → Db → Session
  new_session id d = record {
    id = id;
    created_at = d.clock d.step;
    expires_at = d.clock d.step + ttl;
  }

  create-ok :
      (buf token : Text) (d : Db)
      → (create hmac secret (ok buf) d).0 ≡ ok token
      → let id = url_encode buf in
        (token ≡ id ++ b'.' ∷ sign hmac secret id)
        × (any_of (has_session_id id) d.tables.sessions ≡ false)
        × ((create hmac secret (ok buf) d).1.tables.sessions
            ≡ d.tables.sessions ++ new_session id d ∷ [])
  unfolding new_id create_session exec
  create-ok buf token d made = unfold create in ground arith

  -- What `Create` returns is accepted from then on until 30 days have passed, by any database that
  -- still holds the sessions of that moment, if the lookup goes through. The session is the new
  -- one. (`random` is not empty, and neither is the HMAC of the id.)
  pub validate-create :
      (buf token : Text) (d later : Db)
      → is_empty (url_encode buf) ≡ false
      → is_empty (sign hmac secret (url_encode buf)) ≡ false
      → (create hmac secret (ok buf) d).0 ≡ ok token
      → later.tables.sessions ≡ (create hmac secret (ok buf) d).1.tables.sessions
      → later.fails later.step ≡ false
      → later.clock (suc later.step) ≤ d.clock d.step + ttl
      → (s : Session) × ((validate hmac secret (some token) later).0 ≡ ok s)
        × (s.id ≡ url_encode buf)
        × (s.expires_at ≡ d.clock d.step + ttl)
  validate-create buf token d later full full' made same works early =
      let id = url_encode buf in
      let s = new_session id d in
      let (form, fresh, rows) = create-ok buf token d made in
      let row : find_first (has_session_id id) later.tables.sessions ≡ some s =
        ap (find_first (has_session_id id)) (same ∙ rows)
        ∙ find_first-append_new id d.tables.sessions s fresh (text_eq_refl id) in
      (s, rw form (validate_complete id later s full full' works (row, ground arith)), refl, refl)

  check_token-absent :
      (o : Option (Text × Text)) (id : Text) (d : Db)
      → token_id o ≡ some id
      → find_first (has_session_id id) d.tables.sessions ≡ none
      → (check_token hmac secret o d).0 ≡ err session_invalid
  unfolding get_session
  check_token-absent none id d t e = cc
  check_token-absent (some (i, sig)) id d t e =
      let same = some-injective i id t in
      let gone : find_first (has_session_id i) d.tables.sessions ≡ none = rw same e in ground arith

  -- Logging out ends the session: once the row of a cookie's id is deleted, that cookie is invalid,
  -- whatever its signature and whether or not the lookup goes through.
  pub validate-delete_session :
      (value id : Text) (d : Db)
      → id_from_cookie value ≡ some id
      → (delete_session id d).0 ≡ ok tt
      → (validate hmac secret (some value) (delete_session id d).1).0 ≡ err session_invalid
  unfolding validate id_from_cookie delete_session
  validate-delete_session value id d named deleted =
      let gone : find_first (has_session_id id) (delete_session id d).1.tables.sessions ≡ none =
        ap (find_first (has_session_id id)) (delete_session-ok id d deleted)
        ∙ find_first-keep_if-not (has_session_id id) d.tables.sessions in
      check_token-absent (split_token value) id (delete_session id d).1 named gone
