-- ===== src/Native/Executor.antt =====
-- `NativeExecutor.Check` and `Dump`, `dumpWithProfile`, and the text that `Check` shows.
use base_guard.Base.{
  String, [], Option, none, some, str_eq, ◌⊕◌, Error, Result, ok, err, if◌then◌else◌,
}
use base_guard.Disk.{Bytes}
use base_guard.Model.{Database, ConnectionInfo}
use base_guard.Clients.Matrix.{ClientProfile}
use base_guard.Exec.{Io, pure, gets, try_io, ◌>>=◌}
use base_guard.Native.Credentials.{is_postgres, environment}
use base_guard.Native.Process.{Outcome, Failed, Tools, with_credentials, binary, command_error}
use base_guard.Native.Prepare.{prepare, dump_line}

-- `ConnectionInfo.Summary`
unfoldable pub summary : ConnectionInfo → String
summary i =
    if str_eq i.profile ""
    then "Versão não registrada"
    else i.engine
      ⊕ " "
      ⊕ i.server_version
      ⊕ " · cliente "
      ⊕ i.client_version
      ⊕ " · perfil "
      ⊕ i.profile
      ⊕ (if i.legacy
          then " · série legada; homologação não implica manutenção do fabricante"
          else "")

module _ (t : Tools) (d : Database) where
  abbrev pub tool_error : String → String → Option Failed → Option Error
  tool_error name stderr none = none
  tool_error name stderr (some f) = some (command_error d name stderr f)

  -- What reaches the writer, and the error; gzip ends its stream also after an error.
  abbrev pub dumped : String → Result (Outcome Bytes) → Bytes × Option Error
  dumped name (err e) = ([], some e)
  dumped name (ok o) =
      (if is_postgres d then o.out else t.compress o.out, tool_error name o.stderr o.ended)

  -- `dumpWithProfile`
  unfoldable pub dump_with_profile : ClientProfile → Io (Bytes × Option Error)
  dump_with_profile p = do
    o ← try_io (
        with_credentials t d (λ file.
          gets (λ w. t.stream w (binary t p p.dump) (dump_line t d file) (environment file d))))
    pure (dumped (binary t p p.dump) o)

  -- `preparedBackup`: `Check` and `Dump`
  abbrev pub prepared_check : ConnectionInfo × ClientProfile → String
  prepared_check (info, p) = "Conexão OK · " ⊕ summary info

  abbrev pub prepared_dump : ConnectionInfo × ClientProfile → Io (Bytes × Option Error)
  prepared_dump (info, p) = dump_with_profile p

  -- `Check`
  unfoldable pub check : Io String
  check = do prepared ← prepare t d; pure (prepared_check prepared)

  abbrev pub dump_prepared : Result (ConnectionInfo × ClientProfile) → Io (Bytes × Option Error)
  dump_prepared (err e) = pure ([], some e)
  dump_prepared (ok prepared) = prepared_dump prepared

  -- `Dump`
  unfoldable pub dump : Io (Bytes × Option Error)
  dump = try_io (prepare t d) >>= dump_prepared
