-- ===== src/Db/Opening.antt =====
-- Whether the foreign keys of the schema are enforced on the connection that `Open` returns (internal/db/db.go).
use loxbak.Base.{◌≡◌, some}
use loxbak.Base.Text.{Text, txt}
use loxbak.Db.{Db, M}
use loxbak.Db.Migrations.{Embedded, run_migrations}
use loxbak.Db.Sql.{exec, wrapping, ◌>>◌}

-- A call that leaves the setting as it is.
abbrev pub Leaves : {A : Type 0} → M A → Type 0
Leaves m = (d : Db) → (m d).1.foreign_keys ≡ d.foreign_keys

module _ (files : Embedded) (law : (script : Text) → Leaves (files.run_script script)) where
  abbrev behind_pragma : M (Unit {0})
  behind_pragma =
      wrapping (txt "db: enable WAL") (exec (λ t. some (tt, t)))
      >> wrapping (txt "db: run migrations") (run_migrations files)
