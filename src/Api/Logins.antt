-- ===== src/Api/Logins.antt =====
-- What a login leaves for the runs.
use loxbak.Base.{◌≡◌, false, List, length, ok}
use loxbak.Base.Text.{Text}
use loxbak.Api.{Response, Backend, Server}
use loxbak.Api.Auth.{LoginRequest, or_default_port}
use loxbak.Crypto
use loxbak.Crypto.{Cipher, decrypt}
use loxbak.Db.{Db, LoxoneCredential, Tables}
use loxbak.Db.Credentials.{get_credential}

abbrev SameCredentials : List LoxoneCredential → Tables → Type 0
SameCredentials rows t = t.credentials ≡ rows

module _ {E : Type 0} (b : Backend E) where
  -- The stored credential is that of the request, and its password decrypts to the request's.
  abbrev pub IsCredentialOf : LoginRequest → LoxoneCredential → Type 0
  IsCredentialOf req c =
      (c.host ≡ req.host)
      × (c.port ≡ or_default_port req.port)
      × (c.username ≡ req.username)
      × (decrypt b.outside.cipher b.outside.master_key c.encrypted_password ≡ ok req.password)

module _ {E : Type 0} (b : Backend E) (law : Crypto.IsLawful b.outside.cipher)
    (sized : (x : E) (nonce : Text)
      → (b.random b.outside.cipher.nonce_size x).0 ≡ ok nonce
      → length nonce ≡ b.outside.cipher.nonce_size) where
  module _ (req : LoginRequest) (later : Db) (works : later.fails later.step ≡ false) where
    abbrev Stores : Response × Server E → Type 0
    Stores r =
        r.0.status ≡ 200
        → later.tables.credentials ≡ r.1.world.db.tables.credentials
        → (c : LoxoneCredential) × ((get_credential later).0 ≡ ok c) × IsCredentialOf b req c
