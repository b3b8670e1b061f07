-- ===== src/Ftp/Mirror.antt =====
-- `Validate`, `Mirror` and what they call (internal/ftp/client.go). A path is the list of its
-- components: the remote path from the root, the local one below the mirror's directory. The library's
-- connection, the file system and the context are the parameter `Platform`, on a state `W`.
use loxbak.Base.{
  ℕ, zero, suc, Bool, true, false, not, ◌||◌, Option, none, some, List, [], ◌∷◌, ◌++◌, keep_if,
  any_of, if◌then◌else◌, Error, Result, ok, err, wrap, message,
}
use loxbak.Base.Int.{ℤ}
use loxbak.Base.Text.{Text, txt, text_eq, is_empty, has_prefix}
use loxbak.Ftp.{
  with_retry, connect, LocalInfo, Entry, EntryKind, file, folder, other, file_up_to_date,
}

abbrev pub FilePath : Type 0
FilePath = List Text

pub record Platform (W Conn Stream : Type 0) : Type 0 where
  -- `net.JoinHostPort` and `strings.ToLower`
  pub address : Text → ℤ → Text
  pub to_lower : Text → Text
  -- the connection: explicit TLS or plain
  pub dial : Bool → Text → W → Result Conn × W
  pub login : Conn → Text → Text → W → Result (Unit {0}) × W
  pub list : Conn → FilePath → W → Result (List Entry) × W
  pub retr : Conn → FilePath → W → Result Stream × W
  pub quit : Conn → W → W
  -- the file system
  pub read_dir : FilePath → W → Result (List Text)
  pub stat : FilePath → W → LocalInfo
  pub mkdir_all : FilePath → W → Result (Unit {0}) × W
  pub create : FilePath → W → Result (Unit {0}) × W
  -- `io.Copy` of a stream into the file created at a path
  pub copy : FilePath → Stream → W → Result (Unit {0}) × W
  pub chtimes : FilePath → ℕ → W → Result (Unit {0}) × W
  pub remove_all : FilePath → W → Result (Unit {0}) × W
  -- the context: its error, and whether a delay passes before it is done
  pub context : W → Option Error × W
  pub wait : ℕ → W → Bool × W

-- `strings.Contains`
unfoldable pub contains : Text → Text → Bool
contains [] sub = is_empty sub
contains (c ∷ cs) sub = has_prefix (c ∷ cs) sub || contains cs sub

unfoldable pub contains_any : Text → List Text → Bool
unfolding contains
contains_any s subs = any_of (contains s) subs

-- `/sys`
abbrev pub excluded : FilePath → Bool
excluded [] = false
excluded (d ∷ []) = text_eq d (txt "sys")
excluded (d ∷ _ ∷ _) = false

abbrev pub is_dots : Text → Bool
is_dots name = text_eq name (txt ".") || text_eq name (txt "..")

-- `filepath.Dir`
abbrev pub parent : FilePath → FilePath
parent [] = []
parent (_ ∷ []) = []
parent (d ∷ e ∷ rest) = d ∷ parent (e ∷ rest)

abbrev pub Act : Type 0 → Type 0
Act W = W → Result (Unit {0}) × W

module _ {W : Type 0} where
  -- `if err := act(); err != nil { return fmt.Errorf("…: %w", err) }`
  abbrev pub after : Text → Act W → Act W → Act W
  after t act next w =
      let (r, w1) = act w in elim r [ ok _ ↦ next w1 | err e ↦ (err (wrap t e), w1) ]

module _ {W Conn Stream : Type 0} (p : Platform W Conn Stream) where
  unfoldable pub classify_connect_err : Error → Error
  unfolding contains_any
  classify_connect_err e =
      if contains_any (p.to_lower (message e))
        (txt "connection refused" ∷ txt "i/o timeout" ∷ txt "no route to host" ∷ txt "timeout" ∷ [])
      then wrap
          (txt
            "couldn't reach the Miniserver's FTP service — check that FTP access is enabled in the Miniserver's settings (disabled by default since firmware 16.1)")
          e
      else wrap (txt "connect to Miniserver") e

  abbrev pub login_failed : Text
  login_failed = txt "login failed — check the Miniserver username and password"

  -- What `Validate` and `Mirror` begin with, and the deferred `Quit`. `lift` is how an error is returned.
  module _ {A : Type 0} (lift : Error → A) (next : Conn → W → A × W) where
    abbrev pub after_login : Conn → Result (Unit {0}) × W → A × W
    after_login conn (err e, w) = (lift (wrap login_failed e), w)
    after_login conn (ok _, w) = next conn w

    abbrev pub after_connect : Text → Text → Result Conn × W → A × W
    after_connect username password (err e, w) = (lift (classify_connect_err e), w)
    after_connect username password (ok conn, w) =
        let (result, w1) = after_login conn (p.login conn username password w) in
        (result, p.quit conn w1)

    unfoldable pub logged_in : Text → ℤ → Text → Text → W → A × W
    unfolding connect classify_connect_err
    logged_in host port username password w =
        after_connect username password (connect p.dial (p.address host port) w)

  unfoldable pub validate : Text → ℤ → Text → Text → W → Result (Unit {0}) × W
  unfolding logged_in
  validate = logged_in err (λ conn w. (ok tt, w))

  abbrev names_or_none : Result (List Text) → List Text
  names_or_none (ok names) = names
  names_or_none (err _) = []

  unfoldable pub local_entry_names : FilePath → W → List Text
  local_entry_names dir w = names_or_none (p.read_dir dir w)

  abbrev stamp : FilePath → Option ℕ → W → Result (Unit {0}) × W
  stamp path none w = (ok tt, w)
  stamp path (some t) w = after (txt "set mtime") (p.chtimes path t) (λ w1. (ok tt, w1)) w

  unfoldable pub download_file : Conn → FilePath → Option ℕ → W → Result (Unit {0}) × W
  download_file conn path remote_time = after (txt "mkdir parent") (p.mkdir_all (parent path)) (λ w.
      let (r, w1) = p.retr conn path w in
      elim r [
        | err e ↦ (err (wrap (txt "retr") e), w1)
        | ok stream ↦
            after (txt "create local file") (p.create path)
              (after (txt "copy") (p.copy path stream) (stamp path remote_time)) w1
      ])

  -- Errors of the removals are logged only.
  unfoldable pub remove_stale : FilePath → List Text → W → W
  remove_stale dir [] w = w
  remove_stale dir (name ∷ rest) w = remove_stale dir rest (p.remove_all (dir ++ name ∷ []) w).1

  -- `none` is that the recursion was cut off.
  abbrev pub Mirrored : Type 0
  Mirrored = Option (Result (Unit {0})) × W

  abbrev pub and_then : Mirrored → (W → Mirrored) → Mirrored
  and_then (none, w) rest = (none, w)
  and_then (some (err e), w) rest = (some (err e), w)
  and_then (some (ok _), w) rest = rest w

  module _ (conn : Conn) (descend : FilePath → W → Mirrored) where
    abbrev pub in_folder : FilePath → Result (Unit {0}) × W → Mirrored
    in_folder path (err e, w) = (some (err (wrap (txt "mkdir") e)), w)
    in_folder path (ok _, w) = descend path w

    -- A file that cannot be downloaded is skipped.
    abbrev mirror_file : FilePath → Entry → W → Mirrored
    mirror_file path entry w =
        if file_up_to_date (p.stat path w) entry
        then (some (ok tt), w)
        else (some (ok tt), (with_retry p.wait (download_file conn path entry.time) w).1)

    abbrev pub mirror_kind : EntryKind → FilePath → Entry → W → Mirrored
    mirror_kind folder path entry w = in_folder path (p.mkdir_all path w)
    mirror_kind file path entry w = mirror_file path entry w
    mirror_kind other path entry w = (some (ok tt), w)

    abbrev pub mirror_entry : FilePath → Entry → W → Mirrored
    mirror_entry dir entry w = mirror_kind entry.kind (dir ++ entry.name ∷ []) entry w

    -- The loop over the entries, and the removal of the names that are left behind it.
    unfoldable pub mirror_entries : FilePath → List Entry → List Text → W → Mirrored
    unfolding remove_stale
    mirror_entries dir [] stale w = (some (ok tt), remove_stale dir stale w)
    mirror_entries dir (entry ∷ rest) stale w = elim (is_dots entry.name) [
      | true ↦ mirror_entries dir rest stale w
      | false ↦
          and_then (mirror_entry dir entry w)
            (mirror_entries dir rest (keep_if (λ name. not (text_eq name entry.name)) stale))
    ]

    -- A directory that could not be listed is skipped.
    abbrev pub read_entries : FilePath → List Text → Result (List Entry) × W → Mirrored
    read_entries dir stale (err _, w) = (some (ok tt), w)
    read_entries dir stale (ok entries, w) = mirror_entries dir entries stale w

    abbrev pub visit : FilePath → Bool → W → Mirrored
    visit dir true w = (some (ok tt), w)
    visit dir false w =
        read_entries dir (local_entry_names dir w) (with_retry p.wait (p.list conn dir) w)

    abbrev pub begin : FilePath → Option Error × W → Mirrored
    begin dir (some e, w) = (some (err e), w)
    begin dir (none, w) = visit dir (excluded dir) w

  -- `fuel` bounds the depth of the recursion, which the code leaves to the Miniserver's tree.
  unfoldable pub mirror_dir : Conn → ℕ → FilePath → W → Mirrored
  unfolding local_entry_names with_retry mirror_entries
  mirror_dir conn zero dir w = (none, w)
  mirror_dir conn (suc fuel) dir w = begin conn (mirror_dir conn fuel) dir (p.context w)

  abbrev pub made_dir : (W → Mirrored) → Result (Unit {0}) × W → Mirrored
  made_dir next (err e, w) = (some (err (wrap (txt "create mirror dir") e)), w)
  made_dir next (ok _, w) = next w

  unfoldable pub mirror : ℕ → Text → ℤ → Text → Text → W → Mirrored
  unfolding logged_in mirror_dir
  mirror fuel =
      logged_in (λ e. some (err e))
        (λ conn w. made_dir (mirror_dir conn fuel []) (p.mkdir_all [] w))
