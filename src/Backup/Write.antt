-- ===== src/Backup/Write.antt =====
-- `writeBackup`. The executor's dump is what it writes and the error it ends with; the digest is
-- `hex.EncodeToString(sha256.Sum256(...))` of the bytes written.
use base_guard.Base.{
  ℕ, String, [], Option, none, some, length, ◌==◌, Error, failure, not_exist, Result, ok, err, ◌⊕◌,
  if◌then◌else◌,
}
use base_guard.Disk.{Bytes}
use base_guard.Model.{Database, ConnectionInfo}
use base_guard.Exec.{Io, pure, lift, try_io, ◌>>=◌, ◌>>◌}
use base_guard.Backup.Destination.{
  touch, read_file, create_file, write_file, remove_file, rename_file,
}

-- `Executor`, with the optional method `Prepare` of `NativeExecutor`. Deadlines and cancellations
-- of the context show as errors.
pub record Executor : Type 0 where
  pub prepare : Option (Database → Result ConnectionInfo)
  pub check : Database → Result String
  pub dump : Database → Bytes × Option Error

abbrev pub partial_of : String → String
partial_of path = path ⊕ ".partial"

-- `!os.IsNotExist(e)` for the answer of `r.Stat`
abbrev pub is_absent : Result Bytes → Result (Unit {0})
is_absent (err not_exist) = ok tt
is_absent _ = err (failure "arquivo de destino já existe ou não pode ser verificado")

abbrev pub ended : Option Error → Result (Unit {0})
ended none = ok tt
ended (some e) = err e

abbrev pub not_empty : Bytes → Result (Unit {0})
not_empty b = if length b == 0 then err (failure "dump vazio") else ok tt

-- The deferred function: what fails removes the partial file.
abbrev pub after_failure : {A : Type 0} → String → String → Result A → Io A
after_failure root part (ok a) w = (ok a, w)
after_failure root part (err e) w = let (_, w') = remove_file root part w in (err e, w')

unfoldable pub or_remove : {A : Type 0} → String → String → Io A → Io A
or_remove root part m w = let (r, w') = m w in after_failure root part r w'

-- `dir.Sync` and `dir.Close` are both called, and the first error counts.
unfoldable pub sync_directory : Io (Unit {0})
sync_directory = do touch; synced ← try_io touch; closed ← try_io touch; lift synced; lift closed

-- From the dump to the acknowledgement, with the partial file open.
unfoldable pub fill_backup :
    (Bytes → String) → String → String → Bytes × Option Error → Io (ℕ × String)
fill_backup digest root path (bytes, end) = do
  write_file root (partial_of path) bytes
  lift (ended end)
  written ← read_file root (partial_of path)
  lift (not_empty written)
  touch
  touch
  rename_file root (partial_of path) path
  sync_directory
  pure (length written, digest bytes)

unfoldable pub write_backup :
    (Bytes → String) → String → String → Database → Executor → Io (ℕ × String)
write_backup digest root path d ex = do
  there ← try_io (read_file root path)
  lift (is_absent there)
  create_file root (partial_of path) []
  or_remove root (partial_of path) (fill_backup digest root path (ex.dump d))
