-- ===== src/Destinations/Retention.antt =====
-- What `Prune` leaves at a destination.
use mathlib.Core.List.{Perm, append_assoc, append-nil}
use loxbak.Base.{
  ℕ, suc, ◌<◌, ◌≡◌, refl, ap, sym, ◌∙◌, ◌⊎◌, true, false, not, Option, none, some, List, [], ◌∷◌,
  ◌++◌, map, arith, leb, leb→le, length, All-drop, take, drop, drop-eq-nil, keep_if, any_of, subst,
  All-keep_if, length-take, take-append-drop, min, All, Bool-cases, inl, inr, Error, ok, err,
  Result-cases,
}
use loxbak.Base.Int.{pos, not_positive}
use loxbak.Base.Text.{Text, text_eq, has_prefix, text_lt}
use loxbak.Destinations.{BackupEntry, Lister, matched, Pruned, delete_loop, prune_listed, prune}
use loxbak.Destinations.Locations.{is_plain}
use loxbak.Destinations.Pruning.{
  NewestFirst, length-sort_newest, drop-NewestFirst, sort_newest-All, sort_newest-NewestFirst,
  sort_newest-perm, take-NotOlder-drop,
}

abbrev pub names : List BackupEntry → List Text
names = map (λ e. e.filename)

-- A name that is no path.
abbrev pub Plain : BackupEntry → Type 0
Plain e = is_plain e.filename ≡ true

-- How archives fall into those that are kept and those that are to go: both together are the archives whose names
-- have the prefix, `keep` of them are kept, or all where there are not so many, none that is kept has a smaller
-- name than one that is to go, and those that are to go stand with the greatest name first.
pub record Splits (prefix : Text) (k : ℕ) (all kept gone : List BackupEntry) : Type 1 where
  pub together : Perm (kept ++ gone) (keep_if (λ e. has_prefix e.filename prefix) all)
  pub size : length kept ≡ min k (length (keep_if (λ e. has_prefix e.filename prefix) all))
  pub newer : All (λ a. All (λ b. text_lt a.filename b.filename ≡ false) gone) kept
  pub order : NewestFirst gone

pub matched-Splits :
    (prefix : Text) (k : ℕ) (all : List BackupEntry)
    → Splits prefix k all (take k (matched prefix all)) (drop k (matched prefix all))
matched-Splits prefix k all =
    let m = matched prefix all in
    let found = keep_if (λ e. has_prefix e.filename prefix) all in
    record {
      together = subst (λ x. Perm x found) (sym (take-append-drop k m)) (sort_newest-perm found);
      size = length-take k m ∙ ap (min k) (length-sort_newest found);
      newer = take-NotOlder-drop k m (sort_newest-NewestFirst found);
      order = drop-NewestFirst k m (sort_newest-NewestFirst found);
    }

pub drop-matched-Plain :
    (prefix : Text) (k : ℕ) (es : List BackupEntry)
    → All Plain es
    → All Plain (drop k (matched prefix es))
drop-matched-Plain prefix k es h =
    All-drop Plain k (matched prefix es)
      (sort_newest-All Plain _ (All-keep_if _ _ _ (λ e p q. p) es h))

-- The entries whose names are not among those deleted.
abbrev pub without : List Text → List BackupEntry → List BackupEntry
without deleted = keep_if (λ e. not (any_of (text_eq e.filename) deleted))

-- A store of named archives behind the interface: listing tells what is there and changes nothing, the names there
-- are plain (none is a path), a deletion of a plain name that succeeds removes the archive of that name and
-- nothing else, and one that fails removes nothing.
pub record IsLawful {S : Type 0} (l : Lister S) : Type 1 where
  pub holds : S → List BackupEntry
  pub list_state : (s : S) → holds (l.list s).1 ≡ holds s
  pub list_plain : (s : S) → All Plain (holds s)
  pub list_ok : (s : S) (es : List BackupEntry) → (l.list s).0 ≡ ok es → es ≡ holds s
  pub delete_ok :
      (f : Text) (s : S)
      → is_plain f ≡ true
      → (l.delete f s).0 ≡ ok tt
      → holds (l.delete f s).1 ≡ without (f ∷ []) (holds s)
  pub delete_err :
      (f : Text) (s : S) (e : Error) → (l.delete f s).0 ≡ err e → holds (l.delete f s).1 ≡ holds s

without-nil : (es : List BackupEntry) → without [] es ≡ es
without-nil [] = refl
without-nil (e ∷ es) = ap (λ t. e ∷ t) (without-nil es)

without-cons :
    (f : Text) (fs : List Text) (es : List BackupEntry)
    → without fs (without (f ∷ []) es) ≡ without (f ∷ fs) es
without-cons f fs [] = refl
without-cons f fs (e ∷ es) = ground (arith, without-cons f fs es)

module _ {S : Type 0} (l : Lister S) (law : IsLawful l) where
  open law use {holds, list_state, list_plain, list_ok, delete_ok, delete_err}

  -- The outcome of deleting `gone` one by one, behind what was deleted before: all of them, or an
  -- error behind the first few.
  pub record Deletes (gone : List Text) (before : List Text) (s : S) (r : Pruned × S) : Type 0 where
    pub count : ℕ
    pub deleted : r.0.0 ≡ before ++ take count gone
    pub left : holds r.1 ≡ without (take count gone) (holds s)
    pub complete :
        ((r.0.1 ≡ none) × (count ≡ length gone))
        ⊎ ((e : Error) × (r.0.1 ≡ some e) × (count < length gone))

  one_more :
      {o : Option Error} {n m : ℕ}
      → ((o ≡ none) × (n ≡ m)) ⊎ ((e : Error) × (o ≡ some e) × (n < m))
      → ((o ≡ none) × (suc n ≡ suc m)) ⊎ ((e : Error) × (o ≡ some e) × (suc n < suc m))
  one_more (inl (a, b)) = inl (a, ap suc b)
  one_more (inr (e, a, b)) = inr (e, a, omega arith)

  delete_loop-Deletes :
      (es : List BackupEntry) (before : List Text) (s : S)
      → All Plain es
      → Deletes (names es) before s (delete_loop l es before s)
  unfolding delete_loop
  delete_loop-Deletes [] before s h = record {
    count = 0;
    deleted = sym (append-nil before);
    left = sym (without-nil (holds s));
    complete = inl (refl, refl);
  }
  delete_loop-Deletes (e ∷ es) before s (plain, plains) =
      elim (Result-cases (l.delete e.filename s).0) [
        | inl (x, failed) ↦ record {
          count = 0;
          deleted = rw (failed, delete_loop) (sym (append-nil before));
          left =
              rw (failed, delete_loop)
                (delete_err e.filename s x failed ∙ sym (without-nil (holds s)));
          complete = rw (failed, delete_loop) (inr (_, refl, omega arith));
        }
        | inr done ↦
            let s' = (l.delete e.filename s).1 in
            let ih = delete_loop-Deletes es (before ++ e.filename ∷ []) s' plains in
            record {
              count = suc ih.count;
              deleted =
                  rw (done, delete_loop) (ih.deleted ∙ append_assoc before (e.filename ∷ []) _);
              left =
                  rw (done, delete_loop)
                    (ih.left
                      ∙ ap (without (take ih.count (names es))) (delete_ok e.filename s plain done)
                      ∙ without-cons e.filename _ (holds s));
              complete = rw (done, delete_loop) (one_more ih.complete);
            }
      ]

  prune_listed-Deletes :
      (prefix : Text) (k : ℕ) (t : S) (es : List BackupEntry)
      → All Plain es
      → Deletes (names (drop k (matched prefix es))) [] t (prune_listed l prefix (pos k) (ok es, t))
  prune_listed-Deletes prefix k t es plain =
      let m = matched prefix es in
      elim (Bool-cases (leb (length m) k)) [
        | inl few ↦
            rw (few, drop-eq-nil k m (leb→le (length m) k few))
              (record {
                count = 0;
                deleted = refl;
                left = sym (without-nil (holds t));
                complete = inl (refl, refl);
              })
        | inr many ↦
            rw many (delete_loop-Deletes (drop k m) [] t (drop-matched-Plain prefix k es plain))
      ]

  Deletes-state :
      {gone : List Text} {before : List Text} (s t : S) {r : Pruned × S}
      → holds t ≡ holds s
      → Deletes gone before t r
      → Deletes gone before s r
  Deletes-state {gone} s t e d = record {
    count = d.count;
    deleted = d.deleted;
    left = d.left ∙ ap (without (take d.count gone)) e;
    complete = d.complete;
  }

  prune-ok :
      (prefix : Text) (k : ℕ) (s : S) (es : List BackupEntry)
      → 0 < k
      → (l.list s).0 ≡ ok es
      → prune l prefix (pos k) s ≡ prune_listed l prefix (pos k) (ok es, (l.list s).1)
  unfolding prune
  prune-ok prefix k s es h listed =
      let on : not_positive (pos k) ≡ false = ground arith in
      rw on (ap (λ r. prune_listed l prefix (pos k) (r, (l.list s).1)) listed)

  pub deleted_matched :
      (prefix : Text) (k : ℕ) (s : S) (es : List BackupEntry)
      → 0 < k
      → (l.list s).0 ≡ ok es
      → Deletes (names (drop k (matched prefix (holds s)))) [] s (prune l prefix (pos k) s)
  deleted_matched prefix k s es h listed =
      let same : es ≡ holds s = list_ok s es listed in
      rw (prune-ok prefix k s es h listed) (
        rw (← same) (
          Deletes-state s (l.list s).1 (list_state s)
            (prune_listed-Deletes prefix k _ es (subst (All Plain) (sym same) (list_plain s)))))

  -- With a positive `keep`, at a destination whose listing succeeds: the archives whose names have the prefix fall
  -- into those that are kept, as many as `keep` or all of them where there are not so many, and those that are to
  -- go, the newest first, and none that is kept has a smaller name than one that is to go. `Prune` deletes
  -- those that are to go, in order, and no other archive; without an error it has deleted and reports all of them,
  -- and with one only the first few.
  pub prune_retention :
      (prefix : Text) (k : ℕ) (s : S) (es : List BackupEntry)
      → 0 < k
      → (l.list s).0 ≡ ok es
      → (kept gone : List BackupEntry) × Splits prefix k (holds s) kept gone
        × Deletes (names gone) [] s (prune l prefix (pos k) s)
  prune_retention prefix k s es h listed =
      let m = matched prefix (holds s) in
      (
        take k m,
        drop k m,
        matched-Splits prefix k (holds s),
        deleted_matched prefix k s es h listed,
      )
