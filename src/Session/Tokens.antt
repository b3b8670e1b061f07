-- ===== src/Session/Tokens.antt =====
-- A token is split at its last dot.
use mathlib.Core.Option.{some-injective}
use loxbak.Base.{
  Bool-cases, inl, inr, ==_iff, take-append-drop, ℕ, zero, suc, ◌+◌, ◌/◌, ◌%◌, ◌<◌, ◌≤◌, ◌≡◌, refl,
  ap, sym, ◌∙◌, false, Option, some, [], ◌∷◌, ◌++◌, arith, ◌==◌, length, take, drop, take-append,
  length-append, All,
}
use loxbak.Base.Text.{Text}
use loxbak.Session.{hex_digit, hex_encode, byte_at, split_loop, split_token}

abbrev pub NoDot : Text → Type 0
NoDot = All (λ c. (c == b'.') ≡ false)

hex_digit-NoDot : (n : ℕ) → n < 16 → (hex_digit n == b'.') ≡ false
hex_digit-NoDot n h = ground arith

pub hex_encode-NoDot : (t : Text) → NoDot (hex_encode t)
unfolding hex_encode
hex_encode-NoDot [] = tt
hex_encode-NoDot (b ∷ bs) = (
  hex_digit-NoDot (b / 16 % 16) (omega arith),
  (hex_digit-NoDot (b % 16) (omega arith), hex_encode-NoDot bs),
)

byte_at-append : (a b : Text) (i : ℕ) → byte_at (a ++ b) (length a + i) ≡ byte_at b i
byte_at-append [] b i = ap (byte_at b) (omega arith)
byte_at-append (c ∷ a) b i =
    let e : suc (length a) + i ≡ suc (length a + i) = omega arith in
    ap (byte_at (c ∷ (a ++ b))) e ∙ byte_at-append a b i

byte_at-NoDot : (t : Text) (i : ℕ) → NoDot t → i < length t → (byte_at t i == b'.') ≡ false
byte_at-NoDot [] i h l = absurd (omega arith)
byte_at-NoDot (c ∷ t) zero (p, h) l = p
byte_at-NoDot (c ∷ t) (suc i) (p, h) l = byte_at-NoDot t i h (omega arith)

drop-suc : (a : Text) (c : ℕ) (b : Text) → drop (suc (length a)) (a ++ c ∷ b) ≡ b
drop-suc [] c b = refl
drop-suc (x ∷ a) c b = drop-suc a c b

drop_at : (i : ℕ) (t : Text) → i < length t → drop i t ≡ byte_at t i ∷ drop (suc i) t
drop_at i [] l = absurd (omega arith)
drop_at zero (c ∷ t) l = refl
drop_at (suc i) (c ∷ t) l = drop_at i t (omega arith)

-- The loop passes over the bytes behind the dot, and stops at the dot.
split_loop-append :
    (id sig : Text) (k : ℕ)
    → NoDot sig
    → k ≤ length sig
    → split_loop (suc (length id + k)) (id ++ b'.' ∷ sig) ≡ some (id, sig)
unfolding split_loop
split_loop-append id sig zero h l =
    let value = id ++ b'.' ∷ sig in
    let e : length id + zero ≡ length id = omega arith in
    let front : take (length id + zero) value ≡ id = ap (λ n. take n value) e ∙ take-append id _ in
    let back : drop (suc (length id + zero)) value ≡ sig =
      ap (λ n. drop (suc n) value) e ∙ drop-suc id b'.' sig in
    rw (byte_at-append id (b'.' ∷ sig) zero) (rw (front, back) refl)
split_loop-append id sig (suc k) h l =
    let value = id ++ b'.' ∷ sig in
    let e : length id + suc k ≡ suc (length id + k) = omega arith in
    rw (byte_at-append id (b'.' ∷ sig) (suc k), byte_at-NoDot sig k h (omega arith))
      (ap (λ n. split_loop n value) e ∙ split_loop-append id sig k h (omega arith))

-- An id and a signature that holds no dot come apart as they were joined, whatever the id holds.
pub split_token-append :
    (id sig : Text) → NoDot sig → split_token (id ++ b'.' ∷ sig) ≡ some (id, sig)
unfolding split_token
split_token-append id sig h =
    let e : length (id ++ b'.' ∷ sig) ≡ suc (length id + length sig) =
      omega (arith, length-append id (b'.' ∷ sig)) in
    ap (λ n. split_loop n (id ++ b'.' ∷ sig)) e
    ∙ split_loop-append id sig (length sig) h (omega arith)

split_loop-some :
    (n : ℕ) (value id sig : Text)
    → n ≤ length value
    → split_loop n value ≡ some (id, sig)
    → value ≡ id ++ b'.' ∷ sig
unfolding split_loop
split_loop-some zero value id sig l e = cc
split_loop-some (suc i) value id sig l e = elim (Bool-cases (byte_at value i == b'.')) [
  | inl dot ↦
      let found : ◌≡◌ {A = Option (Text × Text)} (some (take i value, drop (suc i) value))
          (some (id, sig)) =
        rw dot at e in
      let pair : ◌≡◌ {A = Text × Text} (take i value, drop (suc i) value) (id, sig) =
        some-injective _ _ found in
      sym (take-append-drop i value)
      ∙ ap (λ x. take i value ++ x)
          (drop_at i value (omega arith) ∙ ap (λ c. c ∷ drop (suc i) value) ((==_iff _ _).0 dot))
      ∙ ap (λ (p : Text × Text). p.0 ++ b'.' ∷ p.1) pair
  | inr other ↦ split_loop-some i value id sig (omega arith) (rw other at e)
]

-- What comes apart was the id, a dot and the signature.
pub split_token-some :
    (value id sig : Text) → split_token value ≡ some (id, sig) → value ≡ id ++ b'.' ∷ sig
unfolding split_token
split_token-some value id sig e = split_loop-some (length value) value id sig (omega arith) e
