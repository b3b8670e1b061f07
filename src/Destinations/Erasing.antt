-- ===== src/Destinations/Erasing.antt =====
-- What `Prune` does to the files of a local destination's disk (internal/destinations/local.go).
use mathlib.Core.List.{append_assoc, append-nil}
use loxbak.Base.{
  ℕ, zero, suc, ◌<◌, ◌≡◌, ◌≢◌, refl, ap, sym, ◌∙◌, true, false, Option, none, List, [], ◌∷◌, ◌++◌,
  arith, leb, leb→le, length, take, drop, drop-eq-nil, All, Bool-cases, inl, inr, Error, Result, ok,
  err, Result-cases,
}
use loxbak.Base.Int.{pos, not_positive}
use loxbak.Base.Text.{Text, txt, text_eq, eq_of_text_eq}
use loxbak.Destinations.{BackupEntry, Lister, matched, Pruned, delete_loop, prune_listed, prune}
use loxbak.Destinations.Local.{
  Disk, LocalDir, then_do, finished, local_dir, local_list, local_delete,
}
use loxbak.Destinations.Locations.{Location, join, is_plain}
use loxbak.Destinations.Retention.{names, Plain, Splits, matched-Splits, drop-matched-Plain}
use loxbak.Destinations.Shelf.{join-ne}
use loxbak.Destinations.Storage.{IsLawful}

module _ {S : Type 0} (disk : Disk S) (l : LocalDir) (law : IsLawful disk) where
  open law use {files, remove_ok, remove_else, remove_err}

  abbrev pub local_lister : Lister S
  local_lister = record { list = local_list disk l; delete = local_delete disk l }

  abbrev pub path : Text → Location
  path f = join (local_dir l) f

  -- The outcome of deleting `gone` one by one: all of them, or an error behind the first few. Those are no
  -- longer on the disk, and no other file has changed.
  pub record Erases (gone : List Text) (before : List Text) (s : S) (r : Pruned × S) : Type 0 where
    pub count : ℕ
    pub deleted : r.0.0 ≡ before ++ take count gone
    pub complete : r.0.1 ≡ none → count ≡ length gone
    pub absent : All (λ f. files r.1 (path f) ≡ none) (take count gone)
    pub same : (p : Location) → All (λ f. p ≢ path f) (take count gone) → files r.1 p ≡ files s p
    pub stays : (f : Text) → is_plain f ≡ true → files s (path f) ≡ none → files r.1 (path f) ≡ none

  removed :
      (f : Text) (r : Result (Unit {0}) × S)
      → (then_do disk l (txt "destinations: local: delete") r (finished disk l)).1 ≡ r.1
  removed f (ok _, s) = refl
  removed f (err e, s) = refl

  outcome :
      (r : Result (Unit {0}) × S)
      → (then_do disk l (txt "destinations: local: delete") r (finished disk l)).0 ≡ ok tt
      → r.0 ≡ ok tt
  outcome (ok tt, s) h = refl
  outcome (err e, s) h = cc

  failure :
      (r : Result (Unit {0}) × S) (x : Error)
      → (then_do disk l (txt "destinations: local: delete") r (finished disk l)).0 ≡ err x
      → (e : Error) × (r.0 ≡ err e)
  failure (ok _, s) x h = cc
  failure (err e, s) x h = (e, refl)

  delete-state : (f : Text) (s : S) → (local_delete disk l f s).1 ≡ (disk.remove (path f) s).1
  unfolding local_delete
  delete-state f s = removed f (disk.remove (path f) s)

  delete-ok :
      (f : Text) (s : S)
      → (local_delete disk l f s).0 ≡ ok tt
      → files (local_delete disk l f s).1 (path f) ≡ none
  unfolding local_delete
  delete-ok f s h =
      ap (λ t. files t (path f)) (delete-state f s)
      ∙ remove_ok (path f) s (outcome (disk.remove (path f) s) h)

  delete-else :
      (f : Text) (p : Location) (s : S)
      → p ≢ path f
      → files (local_delete disk l f s).1 p ≡ files s p
  delete-else f p s n = ap (λ t. files t p) (delete-state f s) ∙ remove_else (path f) p s n

  delete-err :
      (f : Text) (p : Location) (s : S) (x : Error)
      → (local_delete disk l f s).0 ≡ err x
      → files (local_delete disk l f s).1 p ≡ files s p
  unfolding local_delete
  delete-err f p s x h =
      let (e, failed) = failure (disk.remove (path f) s) x h in
      ap (λ t. files t p) (delete-state f s) ∙ remove_err (path f) p s e failed

  -- What is not there is not there behind a deletion.
  delete-stays :
      (f g : Text) (s : S)
      → is_plain f ≡ true
      → is_plain g ≡ true
      → (local_delete disk l f s).0 ≡ ok tt
      → files s (path g) ≡ none
      → files (local_delete disk l f s).1 (path g) ≡ none
  delete-stays f g s p q done h = elim (Bool-cases (text_eq g f)) [
    | inl e ↦ rw (eq_of_text_eq g f e) (delete-ok f s done)
    | inr e ↦ delete-else f (path g) s (join-ne (local_dir l) f g p q e) ∙ h
  ]

  nothing_erased :
      (gone before : List Text) (o : Option Error) (s t : S)
      → (o ≡ none → zero ≡ length gone)
      → ((p : Location) → files t p ≡ files s p)
      → Erases gone before s ((before, o), t)
  nothing_erased gone before o s t k h = record {
    count = 0;
    deleted = sym (append-nil before);
    complete = k;
    absent = tt;
    same = λ p _. h p;
    stays = λ f _ e. h (path f) ∙ e;
  }

  delete_loop-Erases :
      (es : List BackupEntry) (before : List Text) (s : S)
      → All Plain es
      → Erases (names es) before s (delete_loop local_lister es before s)
  unfolding delete_loop
  delete_loop-Erases [] before s h = nothing_erased [] before none s s (λ _. refl) (λ p. refl)
  delete_loop-Erases (e ∷ es) before s (p, ps) =
      elim (Result-cases (local_delete disk l e.filename s).0) [
        | inl (x, failed) ↦
            rw (failed, delete_loop)
              (nothing_erased (names (e ∷ es)) before _ s (local_delete disk l e.filename s).1
                (λ h. cc) (λ q. delete-err e.filename q s x failed))
        | inr done ↦
            let s' = (local_delete disk l e.filename s).1 in
            let ih = delete_loop-Erases es (before ++ e.filename ∷ []) s' ps in
            rw (done, delete_loop)
              (record {
                count = suc ih.count;
                deleted = ih.deleted ∙ append_assoc before (e.filename ∷ []) _;
                complete = λ h. ap suc (ih.complete h);
                absent = (ih.stays e.filename p (delete-ok e.filename s done), ih.absent);
                same = λ q (n, ns). ih.same q ns ∙ delete-else e.filename q s n;
                stays = λ f plain h. ih.stays f plain (delete-stays e.filename f s p plain done h);
              })
      ]

  prune_listed-Erases :
      (prefix : Text) (k : ℕ) (s : S) (es : List BackupEntry)
      → All Plain es
      → Erases
          (names (drop k (matched prefix es)))
          []
          s
          (prune_listed local_lister prefix (pos k) (ok es, s))
  prune_listed-Erases prefix k s es h =
      let m = matched prefix es in
      elim (Bool-cases (leb (length m) k)) [
        | inl few ↦
            rw (few, drop-eq-nil k m (leb→le (length m) k few))
              (nothing_erased [] [] none s s (λ _. refl) (λ p. refl))
        | inr many ↦ rw many (delete_loop-Erases (drop k m) [] s (drop-matched-Plain prefix k es h))
      ]

  pub erased_matched :
      (prefix : Text) (k : ℕ) (s : S) (es : List BackupEntry)
      → 0 < k
      → (local_list disk l s).0 ≡ ok es
      → All Plain es
      → Erases (names (drop k (matched prefix es))) [] s (prune local_lister prefix (pos k) s)
  unfolding prune local_list
  erased_matched prefix k s es h listed plain =
      let on : not_positive (pos k) ≡ false = ground arith in
      rw (on, listed) (prune_listed-Erases prefix k s es plain)

  -- Pruning at a local destination with a positive `keep`, where the directory is listed and its entries have plain
  -- names: the archives whose names have the prefix fall into those that are kept, as many as `keep` or all of
  -- them where there are not so many, and those that are to go, and none that is kept has a smaller name than one
  -- that is to go. Those that are to go are removed from the disk, the greatest name first, all of them where
  -- there is no error, and no other file changes, whether in the directory or elsewhere on the disk.
  pub prune_local :
      (prefix : Text) (k : ℕ) (s : S) (es : List BackupEntry)
      → 0 < k
      → (local_list disk l s).0 ≡ ok es
      → All Plain es
      → (kept gone : List BackupEntry) × Splits prefix k es kept gone
        × Erases (names gone) [] s (prune local_lister prefix (pos k) s)
  prune_local prefix k s es h listed plain =
      let m = matched prefix es in
      (take k m, drop k m, matched-Splits prefix k es, erased_matched prefix k s es h listed plain)
