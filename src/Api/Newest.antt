-- ===== src/Api/Newest.antt =====
-- The order of the list of backups (internal/api/backups.go).
use mathlib.Core.List.{Perm}
use mathlib.Core.List.Perm
use loxbak.Base.{◌≤◌, List, [], ◌∷◌, ltb, All, All-imp, Bool-cases, inl, inr, arith}
use loxbak.Api.{BackupEntryResponse}
use loxbak.Api.Listing.{insert_started, sort_started}

-- `a` was not started before `b`.
abbrev pub NotBefore : BackupEntryResponse → BackupEntryResponse → Type 0
NotBefore a b = b.started_at ≤ a.started_at

abbrev pub NewestStarted : List BackupEntryResponse → Type 0
NewestStarted [] = Unit
NewestStarted (x ∷ xs) = All (NotBefore x) xs × NewestStarted xs

insert_started-All :
    (P : BackupEntryResponse → Type 0) (x : BackupEntryResponse) (ys : List BackupEntryResponse)
    → P x
    → All P ys
    → All P (insert_started x ys)
unfolding insert_started
insert_started-All P x [] p h = (p, tt)
insert_started-All P x (y ∷ ys) p (q, h) = elim (Bool-cases (ltb y.started_at x.started_at)) [
  | inl e ↦ rw e (p, (q, h))
  | inr e ↦ rw e (q, insert_started-All P x ys p h)
]

insert_started-NewestStarted :
    (x : BackupEntryResponse) (ys : List BackupEntryResponse)
    → NewestStarted ys
    → NewestStarted (insert_started x ys)
unfolding insert_started
insert_started-NewestStarted x [] h = (tt, tt)
insert_started-NewestStarted x (y ∷ ys) (a, h) = elim (Bool-cases (ltb y.started_at x.started_at)) [
  | inl e ↦
      let top : NotBefore x y = ground arith in
      rw e ((top, All-imp _ _ (λ z k. omega arith) ys a), (a, h))
  | inr e ↦
      let top : NotBefore y x = ground arith in
      rw e (insert_started-All (NotBefore y) x ys top a, insert_started-NewestStarted x ys h)
]

pub sort_started-NewestStarted : (xs : List BackupEntryResponse) → NewestStarted (sort_started xs)
unfolding sort_started
sort_started-NewestStarted [] = tt
sort_started-NewestStarted (x ∷ xs) =
    insert_started-NewestStarted x (sort_started xs) (sort_started-NewestStarted xs)

insert_started-perm :
    (x : BackupEntryResponse) (ys : List BackupEntryResponse) → Perm (insert_started x ys) (x ∷ ys)
unfolding insert_started
insert_started-perm x [] = Perm.refl (x ∷ [])
insert_started-perm x (y ∷ ys) = elim (Bool-cases (ltb y.started_at x.started_at)) [
  | inl e ↦ rw e (Perm.refl (x ∷ y ∷ ys))
  | inr e ↦ rw e (Perm.trans (Perm.cons y (insert_started-perm x ys)) (Perm.swap x y ys))
]

pub sort_started-perm : (xs : List BackupEntryResponse) → Perm (sort_started xs) xs
unfolding sort_started
sort_started-perm [] = Perm.refl []
sort_started-perm (x ∷ xs) =
    Perm.trans (insert_started-perm x (sort_started xs)) (Perm.cons x (sort_started-perm xs))
