-- ===== src/Base/Results.antt =====
-- Go's `error` values and `(T, error)` results.
use mathlib.Core.Path.{◌≡◌, refl}
use mathlib.Core.Bool.{Bool, true, false}
use mathlib.Core.Logic.{◌⊎◌, inl, inr}
use mathlib.Core.List.{◌++◌}
use loxbak.Base.Text.{Text, txt}

-- The sentinel errors of the packages, `errors.New` and `fmt.Errorf` without `%w` (`errorf`), and
-- `fmt.Errorf("…: %w", err)` (`wrap`).
pub data Error : Type 0 where
  credential_not_found destination_not_found destination_in_use : Error
  schedule_not_found run_not_found session_not_found session_invalid : Error
  ciphertext_too_short : Error
  errorf : Text → Error
  wrap : Text → Error → Error

-- `err.Error()`
unfoldable pub message : Error → Text
message credential_not_found = txt "db: loxone credential not found"
message destination_not_found = txt "db: destination not found"
message destination_in_use = txt "db: destination is still in use by a schedule"
message schedule_not_found = txt "db: schedule not found"
message run_not_found = txt "db: run not found"
message session_not_found = txt "db: session not found"
message session_invalid = txt "session: invalid or expired session"
message ciphertext_too_short = txt "crypto: ciphertext too short"
message (errorf t) = t
message (wrap t e) = t ++ (txt ": " ++ message e)

pub data Result {ℓ} (A : Type ℓ) : Type ℓ where
  ok : A → Result A
  err : Error → Result A

abbrev pub is_ok {ℓ} : {A : Type ℓ} → Result A → Bool
is_ok (ok _) = true
is_ok (err _) = false

-- `if err != nil { return …, fmt.Errorf("ctx: %w", err) }`
abbrev pub wrap_err {ℓ} : {A : Type ℓ} → Text → Result A → Result A
wrap_err t (ok a) = ok a
wrap_err t (err e) = err (wrap t e)

-- `a, err := r`, with the return of the error.
module _ {A B : Type 0} where
  infixl 5 ◌>>=◌
  abbrev pub ◌>>=◌ : Result A → (A → Result B) → Result B
  err e >>= next = err e
  ok a >>= next = next a

module _ {ℓ} {A : Type ℓ} where
  pub ok-injective : (a b : A) → ok a ≡ ok b → a ≡ b
  ok-injective a b e = cc

  pub err-ne-ok : {e : Error} {a : A} → ◌≡◌ {A = Result A} (err e) (ok a) → ⊥
  err-ne-ok e = cc

pub Result-cases : (r : Result (Unit {0})) → ((e : Error) × (r ≡ err e)) ⊎ (r ≡ ok tt)
Result-cases (ok tt) = inr refl
Result-cases (err e) = inl (e, refl)
