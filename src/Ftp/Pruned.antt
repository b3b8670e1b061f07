-- ===== src/Ftp/Pruned.antt =====
-- What mirroring a directory removes on the local side (`mirrorDir` of internal/ftp/client.go).
use loxbak.Base.{
  ℕ, suc, ◌++◌, ◌≡◌, refl, Bool, true, false, ◌&&◌, not, none, some, List, [], ◌∷◌, keep_if, any_of,
  arith, inl, Error, ok, err,
}
use loxbak.Base.Text.{Text, text_eq}
use loxbak.Ftp.{max_retries, Entry}
use loxbak.Ftp.Mirror.{FilePath, Platform, excluded, is_dots, Mirrored, mirror_entry, mirror_dir}
use loxbak.Ftp.Retrying.{Failing, with_retry-Failing}

-- A name that the listing holds, the two that stand for directories themselves left out.
abbrev pub is_listed : List Entry → Text → Bool
is_listed entries name =
    any_of (λ entry. not (is_dots entry.name) && text_eq name entry.name) entries

abbrev pub unlisted : List Entry → List Text → List Text
unlisted entries = keep_if (λ name. not (is_listed entries name))

module _ {W Conn Stream : Type 0} (p : Platform W Conn Stream) (conn : Conn) where
  -- The entries of a directory brought up to date one after another, each in the state that the one before it left,
  -- and nothing else done.
  pub data Updates (descend : FilePath → W → Mirrored p) (dir : FilePath)
      : List Entry → W → W → Type 0 where
    all_done : (w : W) → Updates descend dir [] w w
    skipped :
        (entry : Entry) (rest : List Entry) (w w2 : W)
        → is_dots entry.name ≡ true
        → Updates descend dir rest w w2
        → Updates descend dir (entry ∷ rest) w w2
    updated :
        (entry : Entry) (rest : List Entry) (w w1 w2 : W)
        → is_dots entry.name ≡ false
        → mirror_entry p conn descend dir entry w ≡ (some (ok tt), w1)
        → Updates descend dir rest w1 w2
        → Updates descend dir (entry ∷ rest) w w2

  -- The local names removed in turn, with what is below them, and nothing else done.
  pub data Removals (dir : FilePath) : List Text → W → W → Type 0 where
    all_gone : (w : W) → Removals dir [] w w
    removed :
        (name : Text) (names : List Text) (w w2 : W)
        → Removals dir names (p.remove_all (dir ++ name ∷ []) w).1 w2
        → Removals dir (name ∷ names) w w2

  -- Mirroring that ends without an error is bringing the entries up to date and then removing the names.
  abbrev Prunes :
      (FilePath → W → Mirrored p) → FilePath → List Entry → List Text → W → Mirrored p → Type 0
  Prunes descend dir entries names w m =
      m.0 ≡ some (ok tt) → (v : W) × Updates descend dir entries w v × Removals dir names v m.1

  -- A directory that the Miniserver fails to list six times counts as mirrored: nothing below it is
  -- downloaded or removed, and there is no error. So a run whose root listing fails archives what was there.
  pub mirror_dir_unlisted :
      (fuel : ℕ) (dir : FilePath) (w w1 w2 : W) (e : Error)
      → p.context w ≡ (none, w1)
      → excluded dir ≡ false
      → Failing p.wait (p.list conn dir) 0 max_retries w1 w2
      → (p.list conn dir w2).0 ≡ err e
      → mirror_dir p conn (suc fuel) dir w ≡ (some (ok tt), (p.list conn dir w2).1)
  unfolding mirror_dir
  mirror_dir_unlisted fuel dir w w1 w2 e live on failing last =
      let tried =
        with_retry-Failing p.wait (p.list conn dir) max_retries (omega arith) failing (inl refl) in
      rw (live, on, tried, last, mirror_dir) refl
