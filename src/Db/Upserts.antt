-- ===== src/Db/Upserts.antt =====
-- What the one stored credential is after it has been written.
use loxbak.Base.{ℕ, suc, ◌≡◌, refl, ap, ◌∙◌, false, some, List, [], ◌∷◌, ==_refl, arith, ok}
use loxbak.Base.Int.{ℤ}
use loxbak.Base.Text.{Text}
use loxbak.Db.{LoxoneCredential, Db}
use loxbak.Db.Credentials.{first_row, set_credential, get_credential, upsert_credential}

-- What the row of the credential holds, but for its id and time.
abbrev pub Holds : Text → ℤ → Text → Text → LoxoneCredential → Type 0
Holds host port username blob c =
    (c.host ≡ host) × (c.port ≡ port) × (c.username ≡ username) × (c.encrypted_password ≡ blob)

module _ (host : Text) (port : ℤ) (username blob : Text) (d : Db) where
  set_credential-Holds :
      (now : ℕ) (c : LoxoneCredential)
      → Holds host port username blob (set_credential host port username blob now c.id c)
  set_credential-Holds now c = rw (==_refl c.id) (refl, refl, refl, refl)

  upsert_credential-first :
      (rows : List LoxoneCredential)
      → d.tables.credentials ≡ rows
      → (upsert_credential host port username blob d).0 ≡ ok tt
      → (c : LoxoneCredential) × (first_row
            (upsert_credential host port username blob d).1.tables.credentials
          ≡ some c)
        × Holds host port username blob c
  unfolding upsert_credential
  upsert_credential-first [] q e = (
    record {
      id = d.tables.next_credential;
      host = host;
      port = port;
      username = username;
      encrypted_password = blob;
      updated_at = d.clock (suc d.step);
    },
    ground arith,
    (refl, refl, refl, refl),
  )
  upsert_credential-first (c ∷ rows) q e = (
    set_credential host port username blob (d.clock (suc d.step)) c.id c,
    ground arith,
    set_credential-Holds (d.clock (suc d.step)) c,
  )

  -- The credential that was stored last is the one that is read, in every database that still holds
  -- the rows of that moment and answers the query, whether the table had a row before or not.
  pub get_credential-upsert_credential :
      (later : Db)
      → (upsert_credential host port username blob d).0 ≡ ok tt
      → later.tables.credentials
        ≡ (upsert_credential host port username blob d).1.tables.credentials
      → later.fails later.step ≡ false
      → (c : LoxoneCredential) × ((get_credential later).0 ≡ ok c) × Holds host port username blob c
  unfolding get_credential
  get_credential-upsert_credential later stored same works =
      let (c, row, holds) = upsert_credential-first d.tables.credentials refl stored in
      let found : first_row later.tables.credentials ≡ some c = ap first_row same ∙ row in
      (c, rw (works, found) refl, holds)
