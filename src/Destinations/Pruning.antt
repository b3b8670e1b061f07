-- ===== src/Destinations/Pruning.antt =====
-- The order in which `Prune` looks at backups.
use mathlib.Core.List.{Perm}
use mathlib.Core.List.Perm
use loxbak.Base.{
  ℕ, zero, suc, ◌≡◌, refl, ap, sym, ◌∙◌, true, false, List, [], ◌∷◌, length, take, drop, All,
  All-imp, All-drop, Bool-cases, inl, inr,
}
use loxbak.Base.Text.{Text, text_lt, text_lt_irrefl, text_lt_trans, text_lt_connex}
use loxbak.Destinations.{BackupEntry, insert_newest, sort_newest}

-- `a` is not older than `b`, by their names.
abbrev pub NotOlder : BackupEntry → BackupEntry → Type 0
NotOlder a b = text_lt a.filename b.filename ≡ false

abbrev pub NewestFirst : List BackupEntry → Type 0
NewestFirst [] = Unit
NewestFirst (e ∷ es) = All (NotOlder e) es × NewestFirst es

pub not_lt_of_lt : (a b : Text) → text_lt a b ≡ true → text_lt b a ≡ false
not_lt_of_lt a b h = elim (Bool-cases (text_lt b a)) [
  | inl k ↦ absurd (false_of (sym (text_lt_irrefl a) ∙ text_lt_trans a b a h k))
  | inr k ↦ k
]
  where
    false_of : false ≡ true → ⊥
    false_of e = cc

NotOlder-trans : (a b c : BackupEntry) → NotOlder a b → NotOlder b c → NotOlder a c
NotOlder-trans a b c h k = elim (Bool-cases (text_lt a.filename c.filename)) [
  | inr n ↦ n
  | inl y ↦ elim (Bool-cases (text_lt b.filename a.filename)) [
    | inl z ↦ cc (text_lt_trans b.filename a.filename c.filename z y)
    | inr z ↦ rw (text_lt_connex a.filename b.filename h z) k
  ]
]

insert_newest-All :
    (P : BackupEntry → Type 0) (e : BackupEntry) (es : List BackupEntry)
    → P e
    → All P es
    → All P (insert_newest e es)
unfolding insert_newest
insert_newest-All P e [] p h = (p, tt)
insert_newest-All P e (x ∷ es) p (q, h) = elim (Bool-cases (text_lt x.filename e.filename)) [
  | inl y ↦ rw y (p, (q, h))
  | inr n ↦ rw n (q, insert_newest-All P e es p h)
]

insert_newest-NewestFirst :
    (e : BackupEntry) (es : List BackupEntry) → NewestFirst es → NewestFirst (insert_newest e es)
unfolding insert_newest
insert_newest-NewestFirst e [] h = (tt, tt)
insert_newest-NewestFirst e (x ∷ es) (a, h) = elim (Bool-cases (text_lt x.filename e.filename)) [
  | inl y ↦
      let top : NotOlder e x = not_lt_of_lt x.filename e.filename y in
      rw y ((top, All-imp _ _ (λ z k. NotOlder-trans e x z top k) es a), (a, h))
  | inr n ↦ rw n (insert_newest-All (NotOlder x) e es n a, insert_newest-NewestFirst e es h)
]

pub sort_newest-All :
    (P : BackupEntry → Type 0) (es : List BackupEntry) → All P es → All P (sort_newest es)
unfolding sort_newest
sort_newest-All P [] h = tt
sort_newest-All P (e ∷ es) (p, h) =
    insert_newest-All P e (sort_newest es) p (sort_newest-All P es h)

pub sort_newest-NewestFirst : (es : List BackupEntry) → NewestFirst (sort_newest es)
unfolding sort_newest
sort_newest-NewestFirst [] = tt
sort_newest-NewestFirst (e ∷ es) =
    insert_newest-NewestFirst e (sort_newest es) (sort_newest-NewestFirst es)

insert_newest-perm : (e : BackupEntry) (es : List BackupEntry) → Perm (insert_newest e es) (e ∷ es)
unfolding insert_newest
insert_newest-perm e [] = Perm.refl (e ∷ [])
insert_newest-perm e (x ∷ es) = elim (Bool-cases (text_lt x.filename e.filename)) [
  | inl y ↦ rw y (Perm.refl (e ∷ x ∷ es))
  | inr n ↦ rw n (Perm.trans (Perm.cons x (insert_newest-perm e es)) (Perm.swap e x es))
]

pub sort_newest-perm : (es : List BackupEntry) → Perm (sort_newest es) es
unfolding sort_newest
sort_newest-perm [] = Perm.refl []
sort_newest-perm (e ∷ es) =
    Perm.trans (insert_newest-perm e (sort_newest es)) (Perm.cons e (sort_newest-perm es))

-- In a sorted list no entry of the first `n` is older than one of the others.
pub take-NotOlder-drop :
    (n : ℕ) (es : List BackupEntry)
    → NewestFirst es
    → All (λ a. All (NotOlder a) (drop n es)) (take n es)
take-NotOlder-drop zero es h = tt
take-NotOlder-drop (suc n) [] h = tt
take-NotOlder-drop (suc n) (e ∷ es) (a, h) =
    (All-drop (NotOlder e) n es a, take-NotOlder-drop n es h)

pub insert_newest-length :
    (e : BackupEntry) (es : List BackupEntry) → length (insert_newest e es) ≡ suc (length es)
unfolding insert_newest
insert_newest-length e [] = refl
insert_newest-length e (x ∷ es) = elim (Bool-cases (text_lt x.filename e.filename)) [
  | inl y ↦ rw y refl
  | inr n ↦ rw n (ap suc (insert_newest-length e es))
]

pub sort_newest-cons :
    (e : BackupEntry) (es : List BackupEntry)
    → sort_newest (e ∷ es) ≡ insert_newest e (sort_newest es)
unfolding sort_newest
sort_newest-cons e es = refl

pub length-sort_newest : (es : List BackupEntry) → length (sort_newest es) ≡ length es
unfolding sort_newest
length-sort_newest [] = refl
length-sort_newest (e ∷ es) =
    insert_newest-length e (sort_newest es) ∙ ap suc (length-sort_newest es)

pub drop-NewestFirst : (n : ℕ) (es : List BackupEntry) → NewestFirst es → NewestFirst (drop n es)
drop-NewestFirst zero es h = h
drop-NewestFirst (suc n) [] h = tt
drop-NewestFirst (suc n) (e ∷ es) (a, h) = drop-NewestFirst n es h
