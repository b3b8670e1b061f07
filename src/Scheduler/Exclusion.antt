-- ===== src/Scheduler/Exclusion.antt =====
-- What `mirrorMu` guarantees to runs that overlap (internal/scheduler/job.go), and what it does not.
use mathlib.Core.Option.{some-injective}
use loxbak.Base.{
  subst, ==_iff, ℕ, ◌≡◌, ◌≢◌, refl, sym, ◌∙◌, true, false, Option, some, ◌==◌, Bool-cases, inl, inr,
}
use loxbak.Base.Text.{Text, text_eq, text_eq_refl, eq_of_text_eq}
use loxbak.Scheduler.Locking.{
  Phase, waiting, syncing, synced, archiving, archived, failing, storing, ended, Shared, Move,
  enter, mirror_ok, mirror_err, create, create_err, archive_ok, archive_err, leave, give_up, store,
  remove, State, Step, step, Steps, here, next, idle, inside,
}

module _ (name : ℕ → Text) where
  -- What a run relies on, by its phase.
  abbrev Relies : Shared → ℕ → Phase → Type 0
  Relies m i waiting = Unit
  Relies m i syncing = m.lock ≡ some i
  Relies m i synced = (m.lock ≡ some i) × (m.mirror ≡ some i)
  Relies m i archiving = (m.lock ≡ some i) × (m.mirror ≡ some i)
  Relies m i archived = (m.lock ≡ some i) × (m.files (name i) ≡ some (some i))
  Relies m i failing = m.lock ≡ some i
  Relies m i storing = m.files (name i) ≡ some (some i)
  Relies m i ended = Unit

  Relies-lock :
      (m : Shared) (i : ℕ) (p : Phase) → inside name p ≡ true → Relies m i p → m.lock ≡ some i
  Relies-lock m i waiting h r = cc
  Relies-lock m i syncing h r = r
  Relies-lock m i synced h r = r.0
  Relies-lock m i archiving h r = r.0
  Relies-lock m i archived h r = r.0
  Relies-lock m i failing h r = r
  Relies-lock m i storing h r = cc
  Relies-lock m i ended h r = cc

  module _ (distinct : (i j : ℕ) → name i ≡ name j → i ≡ j) where
    Move-self :
        {i : ℕ} {m m' : Shared} {p q : Phase} → Move name i m p m' q → Relies m i p → Relies m' i q
    Move-self {i} (enter free) r = refl
    Move-self mirror_ok r = (r, refl)
    Move-self mirror_err r = r
    Move-self create (l, s) = (l, s)
    Move-self create_err (l, s) = l
    Move-self {i} archive_ok (l, s) = (l, rw (text_eq_refl (name i), s) refl)
    Move-self archive_err (l, s) = l
    Move-self leave (l, f) = f
    Move-self give_up r = tt
    Move-self store r = r
    Move-self remove r = tt

    only_one : {i j : ℕ} {o : Option ℕ} → o ≡ some i → o ≡ some j → i ≡ j
    only_one h k = some-injective _ _ (sym h ∙ k)

    Move-files :
        {i : ℕ} {m m' : Shared} {p q : Phase}
        → Move name i m p m' q
        → (f : Text) → text_eq f (name i) ≡ false
        → m'.files f ≡ m.files f
    Move-files (enter free) f h = refl
    Move-files mirror_ok f h = refl
    Move-files mirror_err f h = refl
    Move-files create f h = rw h refl
    Move-files create_err f h = refl
    Move-files archive_ok f h = rw h refl
    Move-files archive_err f h = refl
    Move-files leave f h = refl
    Move-files give_up f h = refl
    Move-files store f h = refl
    Move-files remove f h = rw h refl

    -- A move of another run while run `j` holds the mutex.
    Move-held :
        {i j : ℕ} {m m' : Shared} {p q : Phase}
        → Move name i m p m' q
        → i ≢ j
        → Relies m i p
        → m.lock ≡ some j
        → (m'.lock ≡ m.lock) × (m'.mirror ≡ m.mirror)
    Move-held (enter free) n r h = cc
    Move-held mirror_ok n r h = absurd (n (only_one r h))
    Move-held mirror_err n r h = absurd (n (only_one r h))
    Move-held create n r h = absurd (n (only_one r.0 h))
    Move-held create_err n r h = absurd (n (only_one r.0 h))
    Move-held archive_ok n r h = absurd (n (only_one r.0 h))
    Move-held archive_err n r h = absurd (n (only_one r.0 h))
    Move-held leave n r h = absurd (n (only_one r.0 h))
    Move-held give_up n r h = absurd (n (only_one r h))
    Move-held store n r h = (refl, refl)
    Move-held remove n r h = (refl, refl)

    Relies-else :
        (m m' : Shared) (j : ℕ) (q : Phase)
        → (inside name q ≡ true → (m'.lock ≡ m.lock) × (m'.mirror ≡ m.mirror))
        → m'.files (name j) ≡ m.files (name j)
        → Relies m j q
        → Relies m' j q
    Relies-else m m' j waiting k f r = tt
    Relies-else m m' j syncing k f r = (k refl).0 ∙ r
    Relies-else m m' j synced k f r = ((k refl).0 ∙ r.0, (k refl).1 ∙ r.1)
    Relies-else m m' j archiving k f r = ((k refl).0 ∙ r.0, (k refl).1 ∙ r.1)
    Relies-else m m' j archived k f r = ((k refl).0 ∙ r.0, f ∙ r.1)
    Relies-else m m' j failing k f r = (k refl).0 ∙ r
    Relies-else m m' j storing k f r = f ∙ r
    Relies-else m m' j ended k f r = tt

    other_name : (i j : ℕ) → i ≢ j → text_eq (name j) (name i) ≡ false
    other_name i j n = elim (Bool-cases (text_eq (name j) (name i))) [
      | inl e ↦ absurd (n (sym (distinct j i (eq_of_text_eq _ _ e))))
      | inr e ↦ e
    ]

    Move-other :
        {i j : ℕ} {m m' : Shared} {p q : Phase} (o : Phase)
        → Move name i m p m' q
        → i ≢ j
        → Relies m i p
        → Relies m j o
        → Relies m' j o
    Move-other {i} {j} {m} {m'} o mv n r s =
        Relies-else m m' j o (λ h. Move-held mv n r (Relies-lock m j o h s))
          (Move-files mv (name j) (other_name i j n)) s

    abbrev Inv : State name → Type 0
    Inv s = (i : ℕ) → Relies s.shared i (s.phase i)

    Step-Inv : {s t : State name} → Step name s t → Inv s → Inv t
    Step-Inv {s} (step i p q m at mv) inv j =
        let mine : Relies s.shared i p = subst (Relies s.shared i) at (inv i) in
        elim (Bool-cases (j == i)) [
          | inl e ↦ let same : j ≡ i = (==_iff j i).0 e in rw (e, same) (Move-self mv mine)
          | inr e ↦
              rw e
                (Move-other (s.phase j) mv (λ same. cc ((==_iff j i).1 (sym same), e)) mine (inv j))
        ]

    Steps-Inv : {s t : State name} → Steps name s t → Inv s → Inv t
    Steps-Inv here inv = inv
    Steps-Inv (next r st) inv = Step-Inv st (Steps-Inv r inv)

    -- Where no two archives have the same name: at most one run at a time is between `Lock` and `Unlock`, and
    -- while a run is in its loop over the destinations, the file of its archive is complete and was made of the
    -- mirror as this run itself has brought it up to date, whatever other runs do and wherever they fail.
    pub archives_own :
        {s : State name} (files : Text → Option (Option ℕ))
        → Steps name (idle name files) s
        → ((i j : ℕ) → inside name (s.phase i) ≡ true → inside name (s.phase j) ≡ true → i ≡ j)
          × ((i : ℕ) → s.phase i ≡ storing → s.shared.files (name i) ≡ some (some i))
    archives_own {s} files r =
        let inv : Inv s = Steps-Inv r (λ i. tt) in
        (
          λ i j x y.
              only_one (Relies-lock s.shared i (s.phase i) x (inv i))
                (Relies-lock s.shared j (s.phase j) y (inv j)),
          λ i e. subst (Relies s.shared i) e (inv i),
        )
