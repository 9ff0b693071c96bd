-- ===== src/Security/Key.antt =====
-- `loadKey`: the master key is read, or made once beside no database. Files outside the destinations are
-- below the root "", by their whole path.
use base_guard.Base.{
  ℕ, String, Bool, false, [], ◌==◌, ltb, length, not_exist, failure, Result, ok, err, refuse_if,
  if◌then◌else◌,
}
use base_guard.Disk.{Bytes}
use base_guard.Exec.{Io, pure, raise, lift, try_io, rand_read, ◌>>=◌, ◌>>◌}
use base_guard.Backup.Destination.{touch, read_file, create_file, write_file}

abbrev pub key_size : ℕ
key_size = 32

-- `e == nil && info.Size() > 0` of `os.Stat`
abbrev pub has_content : Result Bytes → Bool
has_content (ok b) = ltb 0 (length b)
has_content (err e) = false

unfoldable pub store_key : String → Bytes → Io (Unit {0})
store_key path b = do
  create_file "" path []
  written ← try_io (write_file "" path b)
  closed ← try_io touch
  lift written
  lift closed

unfoldable pub create_key : String → String → Io Bytes
create_key path dbpath = do
  data_there ← try_io (read_file "" dbpath)
  lift (
      refuse_if (has_content data_there)
        "chave ausente: restaure a chave original antes de abrir o banco existente")
  touch
  b ← rand_read key_size
  store_key path b
  pure b

abbrev pub key_from : String → String → Result Bytes → Io Bytes
key_from path dbpath (ok b) = pure b
key_from path dbpath (err not_exist) = create_key path dbpath
key_from path dbpath (err e) = raise e

abbrev pub sized : Bytes → Result Bytes
sized b = if length b == key_size then ok b else err (failure "chave mestra inválida")

unfoldable pub load_key : String → String → Io Bytes
load_key path dbpath = do
  found ← try_io (read_file "" path)
  b ← key_from path dbpath found
  lift (sized b)
