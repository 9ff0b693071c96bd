-- ===== src/Native/Process.antt =====
-- `command`, and the file that `credentials` writes and that its cleanup removes. A file of `os.CreateTemp` is
-- one below the root "", by its whole path.
use Prim.Native.String.{count}
use text.Mathlib.Text.{starts_with}
use base_guard.Base.{
  ℕ, zero, suc, ◌-◌, String, List, [], Option, none, some, str_eq, ◌⊕◌, Error, failure, Result, ok,
  err, if◌then◌else◌,
}
use base_guard.Disk.{Bytes, utf8}
use base_guard.FilePath.{join}
use base_guard.Model.{Database}
use base_guard.Clients.Matrix.{ClientProfile}
use base_guard.Exec.{World, Io, pure, lift, gets, try_io, ◌>>=◌, ◌>>◌}
use base_guard.Backup.Destination.{touch, create_file, write_file, remove_file}
use base_guard.Backup.Write.{or_remove}
use base_guard.Worker.Methods.{ignore}
use base_guard.Native.Credentials.{content}
use base_guard.Native.Versions.{trim_space}

-- How a process may fail: its program is missing, the context ended, or `cmd.Run` gives this message.
pub data Failed : Type 0 where
  missing : Failed
  interrupted : Failed
  exited : String → Failed

-- What a process wrote, and how it failed; `stderr` is what `limitedBuffer` kept of its errors.
pub record Outcome (A : Type 0) : Type 0 where
  pub out : A
  pub stderr : String
  pub ended : Option Failed

-- The programs, by path, arguments and environment, in the world that they start in: `answer` is what
-- `limitedBuffer` keeps of the output, `stream` the whole of it. `temp_name` is the name that
-- `os.CreateTemp` finds, `clients_dir` is where the tools are, and `compress` is gzip.
pub record Tools : Type 0 where
  pub answer : World → String → List String → List String → Outcome String
  pub stream : World → String → List String → List String → Outcome Bytes
  pub temp_name : World → String
  pub clients_dir : String
  pub compress : Bytes → Bytes

-- `strings.ReplaceAll(s, old, new)` for an `old` that is not empty. The first argument counts the
-- characters that are still to be dropped.
unfoldable pub replace_from : ℕ → String → String → String → String
replace_from skip old new String.[] = ""
replace_from (suc skip) old new (String.◌∷◌ c s) = replace_from skip old new s
replace_from zero old new (String.◌∷◌ c s) =
    let replaced = new ⊕ replace_from (count old - 1) old new s in
    let kept = String.◌∷◌ c (replace_from zero old new s) in
    if starts_with (String.◌∷◌ c s) old then replaced else kept

unfoldable pub redacted : Database → String → String
redacted d message =
    if str_eq d.password "" then message else replace_from 0 d.password "[oculto]" message

-- The error of `command`.
unfoldable pub command_error : Database → String → String → Failed → Error
command_error d name stderr missing =
    failure ("cliente " ⊕ name ⊕ " não instalado; confira a imagem Docker e as versões suportadas")
command_error d name stderr interrupted = failure "operação interrompida ou tempo máximo excedido"
command_error d name stderr (exited why) =
    failure (name ⊕ " falhou: " ⊕ why ⊕ " — " ⊕ trim_space (redacted d stderr))

abbrev pub outcome_of : {A : Type 0} → Database → String → A → String → Option Failed → Result A
outcome_of d name out stderr none = ok out
outcome_of d name out stderr (some f) = err (command_error d name stderr f)

-- `credentials`, apart from its texts: the name of the file, which holds `content d`.
module _ (t : Tools) where
  unfoldable pub fill_credentials : Database → String → Io (Unit {0})
  fill_credentials d file = do
    touch
    written ← try_io (write_file "" file (utf8 (content d)))
    closed ← try_io touch
    lift written
    lift closed

  unfoldable pub credentials_file : Database → Io String
  credentials_file d = do
    file ← gets t.temp_name
    create_file "" file []
    or_remove "" file (fill_credentials d file)
    pure file

  -- `credentials`, a body, and the deferred cleanup, whose error is dropped.
  unfoldable pub with_credentials : {A : Type 0} → Database → (String → Io A) → Io A
  with_credentials d body = do
    file ← credentials_file d
    r ← try_io (body file)
    ignore (remove_file "" file)
    lift r

  unfoldable pub command : Database → String → List String → List String → Io String
  command d name args env = do
    o ← gets (λ w. t.answer w name args env)
    lift (outcome_of d name o.out o.stderr o.ended)

  -- `clientProfile.binary`
  unfoldable pub binary : ClientProfile → String → String
  binary p name = join (join (join t.clients_dir (p.engine ⊕ "-" ⊕ p.client_series)) "bin") name
