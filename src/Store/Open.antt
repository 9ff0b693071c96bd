-- ===== src/Store/Open.antt =====
-- `OpenStore`: the key, the version of the schema, and the migration to version 2.
use base_guard.Base.{ℕ, String, ltb, refuse_if, if◌then◌else◌}
use base_guard.Disk.{Bytes}
use base_guard.Store.Tables.{create_tables, add_client_info, set_user_version}
use base_guard.Exec.{Io, pure, lift, query, run, transaction, ◌>>=◌, ◌>>◌}
use base_guard.Backup.Destination.{touch}
use base_guard.Worker.Methods.{ignore}
use base_guard.Security.Key.{load_key}

-- The transaction of the migration, for a schema before version 2.
unfoldable pub migrate : ℕ → Io (Unit {0})
migrate version =
    if ltb version 2 then transaction (run add_client_info >> run (set_user_version 2)) else pure tt

-- `OpenStore`, whose `Store` is the key. Closing the database again when it fails changes nothing.
unfoldable pub open_store : String → String → Io Bytes
open_store path keypath = do
  key ← load_key keypath path
  touch
  touch
  version ← query (λ t. t.user_version)
  lift (refuse_if (ltb 2 version) "banco criado por versão mais recente do BaseGuard")
  run create_tables
  migrate version
  ignore touch
  pure key
