-- ===== src/Db/Sql.antt =====
-- How the package runs SQL: a query, a statement that may break a constraint, and the sequencing of
-- Go calls that return `(T, error)`.
use loxbak.Base.{
  ℕ, suc, ◌≡◌, refl, ap, arith, ok-injective, err-ne-ok, inl, inr, Bool-cases, Bool, true, false,
  Option, none, some, Error, Result, ok, err, errorf, wrap_err, if◌then◌else◌,
}
use loxbak.Base.Text.{Text, txt}
use loxbak.Db.{Tables, Db, M}

abbrev pub sql_error : Error
sql_error = errorf (txt "sqlite")

abbrev pub next_step : Db → Db
next_step d = record d { step = suc d.step }

module _ {A : Type 0} where
  -- A SELECT.
  unfoldable pub query : (Tables → A) → M A
  query f d =
      if d.fails d.step then (err sql_error, next_step d) else (ok (f d.tables), next_step d)

  abbrev pub finish : Db → Option (A × Tables) → Result A × Db
  finish d none = (err sql_error, next_step d)
  finish d (some (a, t)) = (ok a, record d { tables = t; step = suc d.step })

  -- An INSERT, UPDATE or DELETE; `none` is a constraint that the new rows would break.
  unfoldable pub exec : (Tables → Option (A × Tables)) → M A
  exec f d = if d.fails d.step then (err sql_error, next_step d) else finish d (f d.tables)

  abbrev pub pure : A → M A
  pure a d = (ok a, d)

  abbrev pub fail : Error → M A
  fail e d = (err e, d)

  -- `fmt.Errorf("context: %w", err)` on the error path
  abbrev pub wrapping : Text → M A → M A
  wrapping t m d = let (r, d') = m d in (wrap_err t r, d')

-- `time.Now()`
abbrev pub time_now : M ℕ
time_now d = (ok (d.clock d.step), d)

module _ {A B : Type 0} where
  abbrev pub continue : Result A → (A → M B) → M B
  continue (ok a) f d = f a d
  continue (err e) f d = (err e, d)

  infixl 5 ◌>>=◌ ◌>>◌
  abbrev pub ◌>>=◌ : M A → (A → M B) → M B
  ◌>>=◌ m f d = let (r, d') = m d in continue r f d'

  abbrev pub ◌>>◌ : M A → M B → M B
  m >> n = m >>= λ _. n

-- The outcome of a call that has no error branch in its caller.
module _ {A B : Type 0} where
  -- `a, err := m()`, where the caller looks at `err` itself.
  abbrev pub attempt : M A → (Result A → M B) → M B
  attempt m f d = let (r, d') = m d in f r d'

-- `tx.Rollback()`, deferred: on an error the tables are those of before.
abbrev pub roll_back : {A : Type 0} → Tables → Result A × Db → Result A × Db
roll_back t (ok a, d) = (ok a, d)
roll_back t (err e, d) = (err e, record d { tables = t })

-- A property of the tables that a call keeps, whether it succeeds or fails.
abbrev pub Keeps : {A : Type 0} → (Tables → Type 0) → M A → Type 0
Keeps P m = (d : Db) → P d.tables → P (m d).1.tables

module _ (P : Tables → Type 0) where
  module _ {A : Type 0} where
    pub query-Keeps : (f : Tables → A) → Keeps P (query f)
    unfolding query
    query-Keeps f d h = elim (Bool-cases (d.fails d.step)) [ inl e ↦ rw e h | inr e ↦ rw e h ]

    -- A statement that goes through has kept the property.
    abbrev pub Kept : Option (A × Tables) → Type 0
    Kept none = Unit
    Kept (some (a, t)) = P t

    finish-Keeps :
        (d : Db) (r : Option (A × Tables)) → P d.tables → Kept r → P (finish d r).1.tables
    finish-Keeps d none h k = h
    finish-Keeps d (some (a, t)) h k = k

    pub exec-Keeps :
        (f : Tables → Option (A × Tables)) → ((t : Tables) → P t → Kept (f t)) → Keeps P (exec f)
    unfolding exec
    exec-Keeps f k d h = elim (Bool-cases (d.fails d.step)) [
      | inl e ↦ rw e h
      | inr e ↦ rw e (finish-Keeps d (f d.tables) h (k d.tables h))
    ]

    pub if-Keeps : (b : Bool) (m n : M A) → Keeps P m → Keeps P n → Keeps P (if b then m else n)
    if-Keeps true m n k l = k
    if-Keeps false m n k l = l

  module _ {A B : Type 0} where
    continue-Keeps :
        (f : A → M B) → ((a : A) → Keeps P (f a)) → (r : Result A) → Keeps P (λ d. continue r f d)
    continue-Keeps f k (ok a) d h = k a d h
    continue-Keeps f k (err e) d h = h

    pub bind-Keeps :
        (m : M A) (f : A → M B) → Keeps P m → ((a : A) → Keeps P (f a)) → Keeps P (m >>= f)
    bind-Keeps m f k l d h = continue-Keeps f l (m d).0 (m d).1 (k d h)

-- A statement whose number of rows decides how the call ends.
pub affected-Keeps :
    (P : Tables → Type 0) (context : Text) (e : Error) (f : Tables → Option (Bool × Tables))
    → ((t : Tables) → P t → Kept P (f t))
    → Keeps P (wrapping context (exec f) >>= λ affected. if affected then pure tt else fail e)
affected-Keeps P context e f k =
    bind-Keeps P (wrapping context (exec f)) _ (exec-Keeps P f k)
      (λ b. if-Keeps P b (pure tt) (fail e) (λ d h. h) (λ d h. h))

-- What a statement that succeeds has done.
module _ {A : Type 0} (f : Tables → Option (A × Tables)) (d : Db) where
  finish-ok :
      (r : Option (A × Tables)) (a : A)
      → (finish d r).0 ≡ ok a
      → (t : Tables) × (r ≡ some (a, t))
        × ((finish d r).1 ≡ record d { tables = t; step = suc d.step })
  finish-ok none a e = cc
  finish-ok (some (b, t)) a e = (t, ap (λ x. some (x, t)) (ok-injective b a e), refl)

  pub exec-ok :
      (a : A)
      → (exec f d).0 ≡ ok a
      → (t : Tables) × (f d.tables ≡ some (a, t))
        × ((exec f d).1 ≡ record d { tables = t; step = suc d.step })
  unfolding exec
  exec-ok a e = elim (Bool-cases (d.fails d.step)) [
    | inl x ↦ absurd (err-ne-ok (rw x at e))
    | inr x ↦ rw x (finish-ok (f d.tables) a (rw x at e))
  ]

module _ {A B : Type 0} where
  continue-ok :
      (f : A → M B) (r : Result A) (d : Db) (b : B)
      → (continue r f d).0 ≡ ok b
      → (a : A) × (r ≡ ok a) × (continue r f d ≡ f a d)
  continue-ok f (ok a) d b e = (a, refl, refl)
  continue-ok f (err x) d b e = absurd (err-ne-ok e)

  -- A sequence that succeeds has run its second call where the first, which succeeded, left off.
  pub bind-ok :
      (m : M A) (f : A → M B) (d : Db) (b : B)
      → ((m >>= f) d).0 ≡ ok b
      → (a : A) × ((m d).0 ≡ ok a) × ((m >>= f) d ≡ f a (m d).1)
  bind-ok m f d b = continue-ok f (m d).0 (m d).1 b

module _ {A : Type 0} where
  wrap_err-ok : (t : Text) (r : Result A) (a : A) → wrap_err t r ≡ ok a → r ≡ ok a
  wrap_err-ok t (ok b) a e = e
  wrap_err-ok t (err x) a e = absurd (err-ne-ok e)

  pub wrapping-ok :
      (t : Text) (m : M A) (d : Db) (a : A) → (wrapping t m d).0 ≡ ok a → (m d).0 ≡ ok a
  wrapping-ok t m d = wrap_err-ok t (m d).0

  -- A query changes no table.
  pub query-tables : (f : Tables → A) (d : Db) → (query f d).1.tables ≡ d.tables
  unfolding query
  query-tables f d = ground arith
