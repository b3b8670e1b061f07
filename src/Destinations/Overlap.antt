-- ===== src/Destinations/Overlap.antt =====
-- Two schedules at one destination: where one sanitized name extends the other by `-…`, pruning for
-- the shorter name counts the archives of both.
use mathlib.Core.List.{append-nil}
use mathlib.Core.Option.{none-ne-some}
use loxbak.Base.{
  ℕ, ◌≡◌, ◌<◌, refl, ap, sym, ◌∙◌, true, false, none, some, List, [], ◌∷◌, ◌++◌, length, take,
  take-length, drop, drop-append, keep_if-eq_self, all_of, ◌⊎◌, All, All-imp, All-append, Error,
  inl, inr, ok,
}
use loxbak.Base.Int.{pos}
use loxbak.Base.Text.{Text, text_lt, has_prefix}
use loxbak.Archive.{sanitize_name, Stamp, archive_prefix, archive_filename}
use loxbak.Archive.Order.{has_prefix-archive_filename, has_prefix_of_extension, extension_lt}
use loxbak.Destinations.{BackupEntry, Lister, matched, insert_newest, sort_newest, prune}
use loxbak.Destinations.Pruning.{
  sort_newest-cons, sort_newest-All, length-sort_newest, not_lt_of_lt,
}
use loxbak.Destinations.Retention.{IsLawful, names, without, deleted_matched}

-- The entries of archives that one schedule made.
abbrev pub MadeBy : Text → BackupEntry → Type 0
MadeBy schedule e = (t : Stamp) × (e.filename ≡ archive_filename schedule t)

module _ (e : BackupEntry) where
  insert_newest-append :
      (xs ys : List BackupEntry)
      → All (λ x. text_lt x.filename e.filename ≡ false) xs
      → insert_newest e (xs ++ ys) ≡ xs ++ insert_newest e ys
  unfolding insert_newest
  insert_newest-append [] ys h = refl
  insert_newest-append (x ∷ xs) ys (p, h) = rw p (ap (λ t. x ∷ t) (insert_newest-append xs ys h))

-- Sorting puts the entries of `ys` first if each is newer than each of `xs`.
sort_newest-append :
    (xs ys : List BackupEntry)
    → All (λ x. All (λ y. text_lt y.filename x.filename ≡ false) (sort_newest ys)) xs
    → sort_newest (xs ++ ys) ≡ sort_newest ys ++ sort_newest xs
unfolding sort_newest
sort_newest-append [] ys h = sym (append-nil (sort_newest ys))
sort_newest-append (x ∷ xs) ys (p, h) =
    sort_newest-cons x (xs ++ ys)
    ∙ ap (insert_newest x) (sort_newest-append xs ys h)
    ∙ insert_newest-append x (sort_newest ys) (sort_newest xs) p
    ∙ ap (λ t. sort_newest ys ++ t) (sym (sort_newest-cons x xs))

module _ (name other rest : Text) (c : ℕ)
    (extends : sanitize_name other ≡ sanitize_name name ++ b'-' ∷ c ∷ rest)
    (letter : b'9' < c) where
  behind :
      (x y : BackupEntry) → MadeBy name x → MadeBy other y → text_lt y.filename x.filename ≡ false
  behind x y (s, e) (t, f) =
      rw (e, f) (not_lt_of_lt _ _ (extension_lt name other rest c s t extends letter))

  matches :
      (xs : List BackupEntry)
      → All (λ x. MadeBy name x ⊎ MadeBy other x) xs
      → all_of (λ x. has_prefix x.filename (archive_prefix name)) xs ≡ true
  matches [] h = refl
  matches (x ∷ xs) (inl (s, e), h) = rw (e, has_prefix-archive_filename name s) (matches xs h)
  matches (x ∷ xs) (inr (t, e), h) =
      rw (e, has_prefix_of_extension name other (c ∷ rest) t extends) (matches xs h)

  behind_each :
      (xs ys : List BackupEntry)
      → All (MadeBy name) xs
      → All (MadeBy other) ys
      → All (λ x. All (λ y. text_lt y.filename x.filename ≡ false) ys) xs
  behind_each [] ys h k = tt
  behind_each (x ∷ xs) ys (p, h) k = (All-imp _ _ (λ y. behind x y p) ys k, behind_each xs ys h k)

  matched_both :
      (xs ys : List BackupEntry)
      → All (MadeBy name) xs
      → All (MadeBy other) ys
      → matched (archive_prefix name) (xs ++ ys) ≡ sort_newest ys ++ sort_newest xs
  matched_both xs ys h k =
      ap sort_newest (
        keep_if-eq_self _ (xs ++ ys) (
          matches (xs ++ ys)
            (All-append _ xs ys (All-imp _ _ (λ x. inl) xs h) (All-imp _ _ (λ x. inr) ys k))))
      ∙ sort_newest-append xs ys (behind_each xs (sort_newest ys) h (sort_newest-All _ ys k))

  -- At a destination that holds archives `xs` of the schedule `name` and as many archives `ys` of the
  -- schedule `other` as are to be kept, whose sanitized name goes on with `-` and a character behind
  -- the digits, pruning for `name` without an error reports and deletes every archive of `name`, the
  -- newest included.
  pub prune_overlap :
      {S : Type 0} (l : Lister S) (law : IsLawful l) (s : S) (xs ys : List BackupEntry)
      → All (MadeBy name) xs
      → All (MadeBy other) ys
      → 0 < length ys
      → (l.list s).0 ≡ ok (xs ++ ys)
      → (prune l (archive_prefix name) (pos (length ys)) s).0.1 ≡ none
      → let r = prune l (archive_prefix name) (pos (length ys)) s in
        (r.0.0 ≡ names (sort_newest xs))
        × (law.holds r.1 ≡ without (names (sort_newest xs)) (xs ++ ys))
  prune_overlap l law s xs ys h k some_kept listed fine =
      let prefix = archive_prefix name in
      let n = length ys in
      let d = deleted_matched l law prefix n s (xs ++ ys) some_kept listed in
      let same : law.holds s ≡ xs ++ ys = sym (law.list_ok s (xs ++ ys) listed) in
      let size : n ≡ length (sort_newest ys) = sym (length-sort_newest ys) in
      let tail : drop n (matched prefix (law.holds s)) ≡ sort_newest xs =
        ap (λ t. drop n (matched prefix t)) same
        ∙ ap (drop n) (matched_both xs ys h k)
        ∙ ap (λ m. drop m (sort_newest ys ++ sort_newest xs)) size
        ∙ drop-append (sort_newest ys) (sort_newest xs) in
      let all : take d.count (names (drop n (matched prefix (law.holds s))))
          ≡ names (sort_newest xs) =
        ap (λ m. take m (names (drop n (matched prefix (law.holds s))))) (finished d.complete)
        ∙ take-length _
        ∙ ap names tail in
      (d.deleted ∙ all, d.left ∙ ap (λ t. without t (law.holds s)) all ∙ ap (without _) same)
    where
      finished :
          {n m : ℕ}
          → (((prune l (archive_prefix name) (pos (length ys)) s).0.1 ≡ none) × (n ≡ m))
            ⊎ ((e : Error) × ((prune l (archive_prefix name) (pos (length ys)) s).0.1 ≡ some e)
                × (n < m))
          → n ≡ m
      finished (inl (a, b)) = b
      finished (inr (e, a, b)) = absurd (none-ne-some e (sym fine ∙ a))
