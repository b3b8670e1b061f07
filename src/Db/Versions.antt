-- ===== src/Db/Versions.antt =====
-- Versions of the schema as texts, and the setting that holds one.
use loxbak.Base.{
  ℕ, zero, suc, ◌+◌, ◌-◌, ◌*◌, ◌/◌, ◌%◌, ◌<◌, ◌≡◌, refl, ap, ◌∙◌, true, false, Option, none, some,
  List, [], ◌∷◌, ◌++◌, ltb, ◌==◌, Bool-cases, inl, inr, arith, ok, ok-injective, err-ne-ok,
}
use loxbak.Base.Int.{pos}
use loxbak.Base.Text.{Text, text_eq_refl}
use loxbak.Archive.{is_digit}
use loxbak.Db.Migrations.{
  digits_value, magnitude, in_range, max_int, atoi, itoa, itoa_loop, parsed_prefix, numbered,
  version_prefix, version_of,
}
use loxbak.Db.Settings.{lookup_setting, upsert_setting}

digits_value-append :
    (xs : Text) (d n m : ℕ)
    → digits_value n xs ≡ some m
    → is_digit d ≡ true
    → digits_value n (xs ++ d ∷ []) ≡ some (m * 10 + (d - 48))
unfolding digits_value
digits_value-append [] d n m e h = ground (arith, e)
digits_value-append (x ∷ xs) d n m e h =
    ground (arith, digits_value-append xs d (n * 10 + (x - 48)) m)

itoa_loop-value : (fuel n : ℕ) → n < fuel → digits_value 0 (itoa_loop fuel n) ≡ some n
unfolding digits_value itoa_loop
itoa_loop-value zero n h = absurd (omega arith)
itoa_loop-value (suc fuel) n h = elim (Bool-cases (ltb n 10)) [
  | inl small ↦ rw (small, itoa_loop) (ground arith)
  | inr large ↦
      let shorter : n / 10 < fuel = ground arith in
      let digit : is_digit (48 + n % 10) ≡ true = ground arith in
      let value =
        digits_value-append (itoa_loop fuel (n / 10)) (48 + n % 10) 0 (n / 10)
          (itoa_loop-value fuel (n / 10) shorter) digit in
      let same : n / 10 * 10 + (48 + n % 10 - 48) ≡ n = omega arith in
      rw (large, itoa_loop) (value ∙ ap some same)
]

abbrev StartsWithDigit : Text → Type 0
StartsWithDigit [] = ⊥
StartsWithDigit (c ∷ _) = is_digit c ≡ true

StartsWithDigit-append : (xs ys : Text) → StartsWithDigit xs → StartsWithDigit (xs ++ ys)
StartsWithDigit-append [] ys h = absurd h
StartsWithDigit-append (x ∷ xs) ys h = h

itoa_loop-StartsWithDigit : (fuel n : ℕ) → n < fuel → StartsWithDigit (itoa_loop fuel n)
unfolding itoa_loop
itoa_loop-StartsWithDigit zero n h = absurd (omega arith)
itoa_loop-StartsWithDigit (suc fuel) n h = elim (Bool-cases (ltb n 10)) [
  | inl small ↦ rw (small, itoa_loop) (ground arith)
  | inr large ↦
      let shorter : n / 10 < fuel = ground arith in
      rw (large, itoa_loop)
        (StartsWithDigit-append (itoa_loop fuel (n / 10)) ((48 + n % 10) ∷ [])
          (itoa_loop-StartsWithDigit fuel (n / 10) shorter))
]

atoi-digits :
    (t : Text) (n : ℕ)
    → StartsWithDigit t
    → digits_value 0 t ≡ some n
    → n < suc max_int
    → atoi t ≡ some (pos n)
unfolding atoi
atoi-digits [] n h e k = absurd h
atoi-digits (c ∷ cs) n h e k =
    let minus : (c == b'-') ≡ false = ground arith in
    let plus : (c == b'+') ≡ false = ground arith in
    let inside : ltb n (suc max_int) ≡ true = ground arith in rw (minus, plus, e, inside) refl

-- A number that fits is read back as it was written.
pub atoi-itoa : (n : ℕ) → n < suc max_int → atoi (itoa n) ≡ some (pos n)
unfolding itoa
atoi-itoa n h =
    atoi-digits (itoa_loop (suc n) n) n (itoa_loop-StartsWithDigit (suc n) n (omega arith))
      (itoa_loop-value (suc n) n (omega arith)) h

pub lookup-upsert :
    (key value : Text) (rows : List (Text × Text))
    → lookup_setting key (upsert_setting key value rows) ≡ some value
unfolding lookup_setting upsert_setting
lookup-upsert key value [] = rw (text_eq_refl key) refl
lookup-upsert key value ((k, v) ∷ rest) = ground (arith, lookup-upsert key value rest)

in_range_lt : (bound n : ℕ) (o : Option ℕ) → in_range bound o ≡ some n → n < bound
in_range_lt bound n none e = cc
in_range_lt bound n (some m) e = ground (arith, e)

magnitude_lt : (bound n : ℕ) (t : Text) → magnitude bound t ≡ some n → n < bound
magnitude_lt bound n [] e = cc
magnitude_lt bound n (c ∷ cs) e = in_range_lt bound n (digits_value 0 (c ∷ cs)) e

parsed_prefix-ok : (o : Option ℕ) (n : ℕ) → parsed_prefix o ≡ ok n → o ≡ some n
parsed_prefix-ok none n e = absurd (err-ne-ok e)
parsed_prefix-ok (some m) n e = ap some (ok-injective m n e)

numbered_lt : (o : Option Text) (n : ℕ) → numbered o ≡ ok n → n < suc max_int
numbered_lt none n e = absurd (err-ne-ok e)
numbered_lt (some t) n e = magnitude_lt (suc max_int) n t (parsed_prefix-ok _ n e)

pub version_of_lt : (name : Text) (n : ℕ) → version_of name ≡ ok n → n < suc max_int
unfolding version_of
version_of_lt name n e = numbered_lt (version_prefix name) n e
