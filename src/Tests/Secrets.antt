-- ===== src/Tests/Secrets.antt =====
-- Encryption with a concrete cipher, and sessions in a concrete database.
use mathlib.Core.Option.{some-injective}
use loxbak.Base.{
  true, ◌≡◌, ◌+◌, refl, ap, sym, ◌∙◌, false, Option, none, some, [], ◌∷◌, ◌++◌, arith, length, take,
  drop, take-append, drop-append, take-append-drop, if◌then◌else◌, Bool-cases, inl, inr, ok, err,
}
use loxbak.Base.Results.{session_invalid}
use loxbak.Base.Text.{Text, text_eq, text_eq_refl, eq_of_text_eq, is_empty}
use loxbak.Crypto.{Cipher, IsLawful, encrypt, decrypt, decrypt_authentic}
use loxbak.Db.{Session, Db, empty_tables}
use loxbak.Db.Sessions.{create_session, delete_session}
use loxbak.Session.{
  ttl, hex_encode, url_encode, split_loop, split_token, id_from_cookie, sign, create, validate,
}
use loxbak.Session.Validity.{IsLive, validate_sound, validate-create, validate-delete_session}

abbrev pub digest : Text
digest =
    1 ∷ 2 ∷ 3 ∷ 4 ∷ 5 ∷ 6 ∷ 7 ∷ 8 ∷ 1 ∷ 2 ∷ 3 ∷ 4 ∷ 5 ∷ 6 ∷ 7 ∷ 8 ∷ 1 ∷ 2 ∷ 3 ∷ 4 ∷ 5 ∷ 6 ∷ 7 ∷ 8
    ∷ 1 ∷ 2 ∷ 3 ∷ 4 ∷ 5 ∷ 6 ∷ 7 ∷ 8 ∷ []

-- Sealing puts the key before the text.
abbrev unsealed : Text → Text → Option Text
unsealed key sealed =
    if text_eq (take (length key) sealed) key then some (drop (length key) sealed) else none

abbrev pub plain_cipher : Cipher
plain_cipher = record {
  sha256 = λ t. digest;
  nonce_size = 2;
  seal = λ key nonce plain. key ++ plain;
  unseal = λ key nonce sealed. unsealed key sealed;
}

unsealed-append : (key plain : Text) → unsealed key (key ++ plain) ≡ some plain
unsealed-append key plain = rw (take-append key plain, text_eq_refl key, drop-append key plain) refl

unsealed_authentic :
    (key sealed plain : Text) → unsealed key sealed ≡ some plain → sealed ≡ key ++ plain
unsealed_authentic key sealed plain e = elim (Bool-cases (text_eq (take (length key) sealed) key)) [
  | inl same ↦
      let rest : drop (length key) sealed ≡ plain = some-injective _ _ (rw same at e) in
      sym (take-append-drop (length key) sealed)
      ∙ ap (λ t. t ++ drop (length key) sealed) (eq_of_text_eq _ _ same)
      ∙ ap (λ t. key ++ t) rest
  | inr other ↦ cc (rw other at e)
]

pub plain_cipher-IsLawful : IsLawful plain_cipher
plain_cipher-IsLawful = record {
  length-sha256 = λ t. refl;
  unseal-seal = λ key nonce plain size. unsealed-append key plain;
  unseal_authentic = λ key nonce sealed plain e. unsealed_authentic key sealed plain e;
}

abbrev blob : Text
blob = 7 ∷ 7 ∷ (digest ++ 5 ∷ [])

decrypts : decrypt plain_cipher (9 ∷ []) blob ≡ ok (5 ∷ [])
unfolding decrypt text_eq
decrypts = refl

decrypt_authentic_example : encrypt plain_cipher (9 ∷ []) (ok (take 2 blob)) (5 ∷ []) ≡ ok blob
decrypt_authentic_example =
    decrypt_authentic plain_cipher plain_cipher-IsLawful (9 ∷ []) blob (5 ∷ []) decrypts

-- The clock shows the number of the statement.
abbrev fresh : Db
fresh = record {
  tables = empty_tables;
  step = 0;
  fails = λ n. false;
  clock = λ n. n;
  foreign_keys = true;
}

abbrev pub hmac : Text → Text → Text
hmac secret id = secret ++ id

abbrev pub secret : Text
secret = 200 ∷ 201 ∷ []

abbrev pub random_bytes : Text
random_bytes = 1 ∷ 250 ∷ 3 ∷ 4 ∷ []

abbrev pub token : Text
unfolding url_encode sign
token = url_encode random_bytes ++ b'.' ∷ sign hmac secret (url_encode random_bytes)

abbrev pub logged_in : Db
unfolding create
logged_in = (create hmac secret (ok random_bytes) fresh).1

created : (create hmac secret (ok random_bytes) fresh).0 ≡ ok token
unfolding create url_encode sign
created = refl

full_id : is_empty (url_encode random_bytes) ≡ false
unfolding url_encode
full_id = refl

full_signature : is_empty (sign hmac secret (url_encode random_bytes)) ≡ false
unfolding sign url_encode
full_signature = refl

validate-create_example :
    (s : Session) × ((validate hmac secret (some token) logged_in).0 ≡ ok s)
    × (s.id ≡ url_encode random_bytes)
    × (s.expires_at ≡ 0 + ttl)
unfolding create create_session
validate-create_example =
    validate-create hmac secret random_bytes token fresh logged_in full_id full_signature created
      refl refl (omega arith)

abbrev row : Session
unfolding url_encode
row = record { id = url_encode random_bytes; created_at = 0; expires_at = ttl }

accepted : (validate hmac secret (some token) logged_in).0 ≡ ok row
unfolding validate create url_encode sign split_token split_loop text_eq hex_encode
accepted = refl

validate_sound_example :
    (id : Text) × (some token ≡ some (id ++ b'.' ∷ sign hmac secret id)) × IsLive id row logged_in
validate_sound_example = validate_sound hmac secret (some token) logged_in row accepted

named : id_from_cookie token ≡ some (url_encode random_bytes)
unfolding id_from_cookie split_token url_encode sign split_loop hex_encode
named = refl

logged_out : (delete_session (url_encode random_bytes) logged_in).0 ≡ ok tt
unfolding delete_session create
logged_out = refl

validate-delete_session_example :
    (validate hmac secret (some token) (delete_session (url_encode random_bytes) logged_in).1).0
    ≡ err session_invalid
validate-delete_session_example =
    validate-delete_session hmac secret token (url_encode random_bytes) logged_in named logged_out
