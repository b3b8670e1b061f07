-- ===== src/Db/Settings.antt =====
-- internal/db/settings.go
use loxbak.Base.{Option, none, some, List, [], ◌∷◌, if◌then◌else◌}
use loxbak.Base.Text.{Text, txt, text_eq}
use loxbak.Db.{M}
use loxbak.Db.Sql.{query, exec, wrapping}

unfoldable pub lookup_setting : Text → List (Text × Text) → Option Text
lookup_setting key [] = none
lookup_setting key ((k, v) ∷ rest) = if text_eq k key then some v else lookup_setting key rest

-- `INSERT … ON CONFLICT (key) DO UPDATE SET value = excluded.value`
unfoldable pub upsert_setting : Text → Text → List (Text × Text) → List (Text × Text)
upsert_setting key value [] = (key, value) ∷ []
upsert_setting key value ((k, v) ∷ rest) =
    if text_eq k key then (k, value) ∷ rest else (k, v) ∷ upsert_setting key value rest

unfoldable pub get_setting : Text → M (Option Text)
unfolding query
get_setting key = wrapping (txt "db: get setting") (query (λ t. lookup_setting key t.settings))

unfoldable pub set_setting : Text → Text → M (Unit {0})
unfolding exec
set_setting key value =
    wrapping (txt "db: set setting")
      (exec (λ t. some (tt, record t { settings = upsert_setting key value t.settings })))
