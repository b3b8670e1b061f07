-- ===== src/Crypto.antt =====
-- Secrets at rest (internal/crypto/crypto.go). SHA-256 and AES-GCM are the parameter `Cipher`; the
-- bytes that `io.ReadFull(rand.Reader, nonce)` yields are an argument.
use loxbak.Base.{
  ℕ, ◌≡◌, refl, ap, sym, ◌∙◌, false, ◌||◌, Option, none, some, ◌++◌, arith, ltb, ◌==◌,
  if◌then◌else◌, length, take, drop, length-append, take-append-drop, drop-append, take-append,
  Error, Result, ok, err, errorf, wrap, wrap_err, Bool-cases, inl, inr,
}
use loxbak.Base.Results.{ciphertext_too_short, ◌>>=◌, err-ne-ok, ok-injective}
use loxbak.Base.Text.{Text, txt}

-- `crypto/sha256`, `crypto/aes` and `crypto/cipher`: a digest, the size of a nonce, and sealing and
-- opening under a key, without additional data. Opening fails on what was not sealed so.
pub record Cipher : Type 0 where
  pub sha256 : Text → Text
  pub nonce_size : ℕ
  pub seal : Text → Text → Text → Text
  pub unseal : Text → Text → Text → Option Text

-- The documented behaviour of the packages.
pub record IsLawful (c : Cipher) : Type 0 where
  pub length-sha256 : (t : Text) → length (c.sha256 t) ≡ 32
  pub unseal-seal :
      (key nonce plain : Text)
      → length nonce ≡ c.nonce_size
      → c.unseal key nonce (c.seal key nonce plain) ≡ some plain
  pub unseal_authentic :
      (key nonce sealed plain : Text)
      → c.unseal key nonce sealed ≡ some plain
      → sealed ≡ c.seal key nonce plain

module _ (c : Cipher) where
  unfoldable pub derive_key : Text → Text
  derive_key master_key = c.sha256 master_key

  -- `aes.NewCipher`: a key has 16, 24 or 32 bytes. `cipher.NewGCM` does not fail on an AES block.
  abbrev new_cipher : Text → Result Text
  new_cipher key =
      if length key == 16 || length key == 24 || length key == 32
      then ok key
      else err (wrap (txt "crypto: new cipher") (errorf (txt "crypto/aes: invalid key size")))

  unfoldable pub encrypt : Text → Result Text → Text → Result Text
  unfolding derive_key
  encrypt master_key random plaintext = do
    key ← new_cipher (derive_key master_key)
    nonce ← wrap_err (txt "crypto: read nonce") random
    ok (nonce ++ c.seal key nonce plaintext)

  abbrev opened : Option Text → Result Text
  opened none =
      err (wrap (txt "crypto: decrypt") (errorf (txt "cipher: message authentication failed")))
  opened (some plaintext) = ok plaintext

  unfoldable pub decrypt : Text → Text → Result Text
  unfolding derive_key
  decrypt master_key blob = do
    key ← new_cipher (derive_key master_key)
    if ltb (length blob) c.nonce_size
        then err ciphertext_too_short
        else opened (c.unseal key (take c.nonce_size blob) (drop c.nonce_size blob))

module _ (c : Cipher) (law : IsLawful c) (master_key : Text) where
  new_cipher-ok : new_cipher c (c.sha256 master_key) ≡ ok (c.sha256 master_key)
  new_cipher-ok = rw (law.length-sha256 master_key)

  decrypt_lem :
      (blob : Text)
      → decrypt c master_key blob ≡ (
          if ltb (length blob) c.nonce_size
          then err ciphertext_too_short
          else opened c
              (c.unseal (c.sha256 master_key) (take c.nonce_size blob) (drop c.nonce_size blob)))
  unfolding decrypt
  decrypt_lem blob = rw new_cipher-ok

  encrypt_lem :
      (nonce plaintext : Text)
      → encrypt c master_key (ok nonce) plaintext
        ≡ ok (nonce ++ c.seal (c.sha256 master_key) nonce plaintext)
  unfolding encrypt
  encrypt_lem nonce plaintext = rw new_cipher-ok

  -- Without a nonce there is an error.
  pub encrypt-err :
      (e : Error) (plaintext : Text)
      → encrypt c master_key (err e) plaintext ≡ err (wrap (txt "crypto: read nonce") e)
  unfolding encrypt
  encrypt-err e plaintext = rw new_cipher-ok

  opened-ok : (o : Option Text) (plaintext : Text) → opened c o ≡ ok plaintext → o ≡ some plaintext
  opened-ok none plaintext e = absurd (err-ne-ok e)
  opened-ok (some p) plaintext e = ap some (ok-injective p plaintext e)

  -- What is encrypted with a nonce of the right size decrypts to what it was.
  pub decrypt-encrypt :
      (nonce plaintext : Text)
      → length nonce ≡ c.nonce_size
      → (blob : Text) × (encrypt c master_key (ok nonce) plaintext ≡ ok blob)
        × (decrypt c master_key blob ≡ ok plaintext)
  decrypt-encrypt nonce plaintext size =
      let key = c.sha256 master_key in
      let sealed = c.seal key nonce plaintext in
      let long : ltb (length (nonce ++ sealed)) c.nonce_size ≡ false =
        ground (arith, length-append nonce sealed) in
      let front : take c.nonce_size (nonce ++ sealed) ≡ nonce =
        ap (λ n. take n (nonce ++ sealed)) (sym size) ∙ take-append nonce sealed in
      let back : drop c.nonce_size (nonce ++ sealed) ≡ sealed =
        ap (λ n. drop n (nonce ++ sealed)) (sym size) ∙ drop-append nonce sealed in
      (
        nonce ++ sealed,
        encrypt_lem nonce plaintext,
        decrypt_lem (nonce ++ sealed)
            ∙ rw (long, front, back, law.unseal-seal key nonce plaintext size) refl,
      )

  -- Decryption accepts nothing else: what decrypts is what encryption yields for the result, with
  -- the nonce that the data begin with.
  pub decrypt_authentic :
      (blob plaintext : Text)
      → decrypt c master_key blob ≡ ok plaintext
      → encrypt c master_key (ok (take c.nonce_size blob)) plaintext ≡ ok blob
  decrypt_authentic blob plaintext e =
      let key = c.sha256 master_key in
      let nonce = take c.nonce_size blob in
      let sealed = drop c.nonce_size blob in
      let e' = sym (decrypt_lem blob) ∙ e in
      elim (Bool-cases (ltb (length blob) c.nonce_size)) [
        | inl short ↦ absurd (err-ne-ok (rw short at e'))
        | inr long ↦
            let same =
              law.unseal_authentic key nonce sealed plaintext
                (opened-ok _ plaintext (rw long at e')) in
            encrypt_lem nonce plaintext
            ∙ ap ok (ap (λ x. nonce ++ x) (sym same) ∙ take-append-drop c.nonce_size blob)
      ]
