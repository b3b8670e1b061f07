-- ===== src/Ftp/Fuel.antt =====
-- The fuel of `mirrorDir` (internal/ftp/client.go), against the depth of the Miniserver's tree.
use loxbak.Base.{
  ℕ, zero, suc, ◌<◌, ◌≡◌, refl, Bool, true, false, Option, none, some, List, [], ◌∷◌, ◌++◌, arith,
  not, keep_if, All, Bool-cases, inl, inr, Error, Result, ok, err, err-ne-ok, if◌then◌else◌, ◌*◌,
  ◌-◌, ◌^◌, ◌∙◌,
}
use loxbak.Base.Int.{ℤ}
use loxbak.Base.Text.{Text, text_eq}
use loxbak.Ftp.{
  file_up_to_date, retry_base_delay, max_retries, with_retry, retry_loop, Entry, EntryKind, file,
  folder, other, connect,
}
use loxbak.Ftp.Mirror.{
  FilePath, Platform, excluded, is_dots, Mirrored, and_then, in_folder, mirror_kind, mirror_entry,
  read_entries, visit, begin, made_dir, after_login, after_connect, mirror_entries, mirror_dir,
  mirror, logged_in,
}

-- What an action that may be tried again returns, one of its attempts returned.
module _ {W A : Type 0} (wait : ℕ → W → Bool × W) (fn : W → Result A × W) (P : A → Type 0)
    (each : (w : W) (a : A) → (fn w).0 ≡ ok a → P a) where
  retry_loop-ok : (left : ℕ) (w : W) (a : A) → (retry_loop wait fn left w).0 ≡ ok a → P a
  unfolding retry_loop
  retry_loop-ok zero w a e = each w a e
  retry_loop-ok (suc left) w a e = first (retry_loop-ok left) (fn w).0 refl e
    where
      later :
          ((w1 : W) (a : A) → (retry_loop wait fn left w1).0 ≡ ok a → P a)
          → (passed : Bool)
          → (wait (retry_base_delay * 2 ^ (max_retries - suc left)) (fn w).1).0 ≡ passed
          → (x : Error) → (fn w).0 ≡ err x
          → (retry_loop wait fn (suc left) w).0 ≡ ok a
          → P a
      later ih true q x f e = ih _ a (rw (f, q, retry_loop) at e)
      later ih false q x f e = absurd (err-ne-ok (rw (f, q, retry_loop) at e))

      first :
          ((w1 : W) (a : A) → (retry_loop wait fn left w1).0 ≡ ok a → P a)
          → (r : Result A) → (fn w).0 ≡ r
          → (retry_loop wait fn (suc left) w).0 ≡ ok a
          → P a
      first ih (ok b) q e = each w a (q ∙ (rw (q, retry_loop) at e))
      first ih (err x) q e = later ih _ refl x q e

  pub with_retry-ok : (w : W) (a : A) → (with_retry wait fn w).0 ≡ ok a → P a
  unfolding with_retry
  with_retry-ok = retry_loop-ok 5

-- What `logged_in` returns is an error, or what is done with the connection returns.
module _ {W Conn Stream A : Type 0} (p : Platform W Conn Stream) (lift : Error → A)
    (next : Conn → W → A × W) (P : A → Type 0) (errs : (e : Error) → P (lift e))
    (goes : (conn : Conn) (w : W) → P (next conn w).0) where
  after_login-result :
      (conn : Conn) (m : Result (Unit {0}) × W) → P (after_login p lift next conn m).0
  after_login-result conn (err e, w) = errs _
  after_login-result conn (ok _, w) = goes conn w

  after_connect-result :
      (username password : Text) (m : Result Conn × W)
      → P (after_connect p lift next username password m).0
  after_connect-result username password (err e, w) = errs _
  after_connect-result username password (ok conn, w) =
      after_login-result conn (p.login conn username password w)

  pub logged_in-result :
      (host : Text) (port : ℤ) (username password : Text) (w : W)
      → P (logged_in p lift next host port username password w).0
  unfolding logged_in
  logged_in-result host port username password w =
      after_connect-result username password (connect p.dial (p.address host port) w)

module _ {W Conn Stream : Type 0} (p : Platform W Conn Stream) (rank : FilePath → ℕ) where
  -- A folder in the listing of a directory is ranked below the directory.
  abbrev pub Below : FilePath → Entry → Type 0
  Below dir entry =
      entry.kind ≡ folder → is_dots entry.name ≡ false → rank (dir ++ entry.name ∷ []) < rank dir

  abbrev Ends : Mirrored p → Type 0
  Ends m = (r : Result (Unit {0})) × (m.0 ≡ some r)

  and_then-Ends :
      (m : Mirrored p) (rest : W → Mirrored p)
      → Ends m
      → ((w : W) → Ends (rest w))
      → Ends (and_then p m rest)
  and_then-Ends (none, w) rest (r, e) k = (r, e)
  and_then-Ends (some (err x), w) rest h k = (err x, refl)
  and_then-Ends (some (ok _), w) rest h k = k w

  module _ (conn : Conn) (descend : FilePath → W → Mirrored p) (dir : FilePath)
      (down : (path : FilePath) (w : W) → rank path < rank dir → Ends (descend path w)) where
    in_folder-Ends :
        (path : FilePath) (m : Result (Unit {0}) × W)
        → rank path < rank dir
        → Ends (in_folder p conn descend path m)
    in_folder-Ends path (err e, w) h = (_, refl)
    in_folder-Ends path (ok _, w) h = down path w h

    either-Ends : (b : Bool) (v w : W) → Ends (if b then (some (ok tt), v) else (some (ok tt), w))
    either-Ends true v w = (ok tt, refl)
    either-Ends false v w = (ok tt, refl)

    mirror_kind-Ends :
        (kind : EntryKind) (path : FilePath) (entry : Entry) (w : W)
        → (kind ≡ folder → rank path < rank dir)
        → Ends (mirror_kind p conn descend kind path entry w)
    mirror_kind-Ends folder path entry w h = in_folder-Ends path (p.mkdir_all path w) (h refl)
    mirror_kind-Ends file path entry w h = either-Ends (file_up_to_date (p.stat path w) entry) _ _
    mirror_kind-Ends other path entry w h = (ok tt, refl)

    mirror_entries-Ends :
        (entries : List Entry) (stale : List Text) (w : W)
        → All (Below dir) entries
        → Ends (mirror_entries p conn descend dir entries stale w)
    unfolding mirror_entries
    mirror_entries-Ends [] stale w h = (ok tt, refl)
    mirror_entries-Ends (entry ∷ rest) stale w (b, h) = elim (Bool-cases (is_dots entry.name)) [
      | inl dots ↦ rw (dots, mirror_entries) (mirror_entries-Ends rest stale w h)
      | inr named ↦
          rw (named, mirror_entries)
            (and_then-Ends (mirror_entry p conn descend dir entry w) _
              (mirror_kind-Ends entry.kind (dir ++ entry.name ∷ []) entry w (λ e. b e named))
              (λ w1.
                mirror_entries-Ends rest (keep_if (λ name. not (text_eq name entry.name)) stale) w1
                  h))
    ]

    read_entries-Ends :
        (stale : List Text) (m : Result (List Entry) × W)
        → ((entries : List Entry) → m.0 ≡ ok entries → All (Below dir) entries)
        → Ends (read_entries p conn descend dir stale m)
    read_entries-Ends stale (err _, w) h = (ok tt, refl)
    read_entries-Ends stale (ok entries, w) h = mirror_entries-Ends entries stale w (h entries refl)

  module _
      (ranked : (conn : Conn) (dir : FilePath) (w : W) (entries : List Entry)
        → (p.list conn dir w).0 ≡ ok entries
        → All (Below dir) entries) where
    visit-Ends :
        (conn : Conn) (descend : FilePath → W → Mirrored p) (dir : FilePath)
        → ((path : FilePath) (w : W) → rank path < rank dir → Ends (descend path w))
        → (b : Bool) (w : W) → Ends (visit p conn descend dir b w)
    visit-Ends conn descend dir down true w = (ok tt, refl)
    visit-Ends conn descend dir down false w =
        read_entries-Ends conn descend dir down _ (with_retry p.wait (p.list conn dir) w)
          (with_retry-ok p.wait (p.list conn dir) (All (Below dir)) (ranked conn dir) w)

    begin-Ends :
        (conn : Conn) (descend : FilePath → W → Mirrored p) (dir : FilePath)
        → ((path : FilePath) (w : W) → rank path < rank dir → Ends (descend path w))
        → (m : Option Error × W) → Ends (begin p conn descend dir m)
    begin-Ends conn descend dir down (some e, w) = (err e, refl)
    begin-Ends conn descend dir down (none, w) = visit-Ends conn descend dir down (excluded dir) w

    mirror_dir-Ends :
        (conn : Conn) (fuel : ℕ) (dir : FilePath) (w : W)
        → rank dir < fuel
        → Ends (mirror_dir p conn fuel dir w)
    unfolding mirror_dir
    mirror_dir-Ends conn zero dir w h = absurd (omega arith)
    mirror_dir-Ends conn (suc fuel) dir w h =
        begin-Ends conn (mirror_dir p conn fuel) dir
          (λ path v below. mirror_dir-Ends conn fuel path v (omega arith)) (p.context w)

    made_dir-Ends :
        (conn : Conn) (fuel : ℕ) (m : Result (Unit {0}) × W)
        → rank [] < fuel
        → Ends (made_dir p (mirror_dir p conn fuel []) m)
    made_dir-Ends conn fuel (err e, w) h = (_, refl)
    made_dir-Ends conn fuel (ok _, w) h = mirror_dir-Ends conn fuel [] w h

    -- Where the Miniserver's directories are nested to a finite depth, which `rank` measures, fuel above the
    -- root's rank is enough: mirroring returns a result, whatever fails on the way.
    pub mirror_ends :
        (fuel : ℕ) (host : Text) (port : ℤ) (username password : Text) (w : W)
        → rank [] < fuel
        → (r : Result (Unit {0})) × ((mirror p fuel host port username password w).0 ≡ some r)
    unfolding mirror
    mirror_ends fuel host port username password w h =
        logged_in-result p (λ e. some (err e)) _ (λ o. (r : Result (Unit {0})) × (o ≡ some r))
          (λ e. (err e, refl)) (λ conn v. made_dir-Ends conn fuel (p.mkdir_all [] v) h) host port
          username password w
