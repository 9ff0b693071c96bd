-- ===== src/Server/Panel.antt =====
-- The handlers that change databases and runs. A request is the values that the handler takes from
-- it; an answer is what it writes, with the page's message.
use base_guard.Base.{
  ℕ, String, Bool, true, false, not, ◌&&◌, ◌||◌, str_eq, eq_ℤ, ◌==◌, message, Result, ok, err,
  if◌then◌else◌,
}
use base_guard.Disk.{Bytes}
use base_guard.Model.{Database, schedule, validate, Run}
use base_guard.Store.Tables.{set_schedule, delete_database, is_busy, rows_matching, is_success}
use base_guard.Store.Methods.{save, database, enqueue, run_by_id}
use base_guard.Exec.{Io, pure, lift, exec, run, try_io, time_now, ◌>>=◌, ◌>>◌}
use base_guard.Backup.Destination.{open_destination, read_file}
use base_guard.Worker.Methods.{Worker}

pub data Answer : Type 0 where
  -- `http.NotFound`
  not_found : Answer
  -- `failure`: the error is logged, not shown.
  failed_page : Answer
  -- `redirect`
  redirected : String → Answer
  -- `http.Error` with its status
  refused : ℕ → String → Answer
  -- the form again, with status 422 and the error
  form_again : String → Answer
  -- `http.ServeContent`, with the checksum header
  content : Bytes → String → Answer

abbrev pub changed_schedule : Database → Database → Bool
changed_schedule old d =
    not (str_eq old.schedule_kind d.schedule_kind)
    || not (str_eq old.at d.at)
    || not (str_eq old.timezone d.timezone)
    || not (eq_ℤ old.interval d.interval)
    || not (eq_ℤ old.weekday d.weekday)
    || not (if old.enabled then d.enabled else not d.enabled)

-- An empty password keeps the stored one; the planned run stays with an unchanged schedule.
abbrev pub from_old : Database → Database → Database
from_old old d = record d {
  password = if str_eq d.password "" then old.password else d.password;
  next_run = if changed_schedule old d then 0 else old.next_run;
}

module _ (w : Worker) where
  unfoldable pub completed : Database → Io Database
  completed d =
      if d.id == 0 then pure d else database w.cipher w.key d.id >>= λ old. pure (from_old old d)

  unfoldable pub planned_next : Database → Io Database
  planned_next d =
      if d.enabled && d.next_run == 0
      then (lift (schedule w.cron d) >>= λ next.
          time_now >>= λ now. pure (record d { next_run = next now }))
      else pure d

  abbrev pub unplanned : Database → Database
  unplanned d = if d.enabled then d else record d { next_run = 0 }

  -- `submitted`, from the record with the form's values. Validation has had the schedule already,
  -- which the source takes without looking at its error.
  unfoldable pub submitted : Database → Io Database
  submitted form = do
    d ← completed form
    lift (validate w.cron w.destinations d)
    p ← planned_next d
    pure (unplanned p)

  abbrev pub or_failed : String → Result (Unit {0}) → Answer
  or_failed text (ok a) = redirected text
  or_failed text (err e) = failed_page

  abbrev pub save_submitted : Result Database → Io Answer
  save_submitted (err e) = pure (form_again (message e))
  save_submitted (ok d) = try_io (save w.cipher w.key d) >>= λ r. pure (saved_page r)
    where
      saved_page : Result Database → Answer
      saved_page (ok d') = redirected "Banco salvo. Você pode testar ou executar o primeiro backup."
      saved_page (err e) = failed_page

  -- `save`
  unfoldable pub save_form : Database → Io Answer
  save_form form = try_io (submitted form) >>= save_submitted

  abbrev pub enqueued_page : Result Bool → Answer
  enqueued_page (err e) = failed_page
  enqueued_page (ok true) = redirected "Backup adicionado à fila."
  enqueued_page (ok false) = redirected "Este banco já tem um backup na fila ou em andamento."

  abbrev pub enqueue_found : Result Database → Io Answer
  enqueue_found (err e) = pure not_found
  enqueue_found (ok d) = do
    now ← time_now
    added ← try_io (enqueue d "manual" now)
    pure (enqueued_page added)

  -- `enqueue`
  unfoldable pub enqueue_id : ℕ → Io Answer
  enqueue_id id = try_io (database w.cipher w.key id) >>= enqueue_found

  -- The end of `toggle`, with the new values.
  unfoldable pub set_enabled : ℕ → Bool → ℕ → Io Answer
  set_enabled id enabled next = do
    r ← try_io (run (set_schedule id enabled next))
    pure (or_failed "Agendamento atualizado. Backups já enfileirados continuam normalmente." r)

  abbrev pub enable_from : ℕ → Result (ℕ → ℕ) → Io Answer
  enable_from id (err e) = pure failed_page
  enable_from id (ok next) = time_now >>= λ now. set_enabled id true (next now)

  abbrev pub toggle_found : Result Database → Io Answer
  toggle_found (err e) = pure not_found
  toggle_found (ok d) =
      if d.enabled
      then set_enabled d.id false 0
      else enable_from d.id (schedule w.cron (record d { enabled = true; next_run = 0 }))

  unfoldable pub toggle : ℕ → Io Answer
  toggle id = try_io (database w.cipher w.key id) >>= toggle_found

  abbrev pub deleted_page : Result ℕ → Answer
  deleted_page (err e) = failed_page
  deleted_page (ok n) =
      if n == 0
      then redirected "Não foi possível remover: banco inexistente ou backup pendente."
      else redirected "Cadastro removido. Arquivos e histórico foram preservados."

  unfoldable pub delete : ℕ → Io Answer
  delete id = do
    n ← try_io (
        exec (delete_database id)
          (λ t. if is_busy id t then 0 else rows_matching (λ r. r.id == id) t.databases))
    pure (deleted_page n)

  abbrev pub download_file : Run → Result Bytes → Answer
  download_file r (err e) = refused 404 "Arquivo indisponível"
  download_file r (ok b) = content b r.sha256

  abbrev pub download_from : Run → Result String → Io Answer
  download_from r (err e) = pure (refused 503 "Destino indisponível")
  download_from r (ok root) = try_io (read_file root r.path) >>= λ b. pure (download_file r b)

  abbrev pub download_run : Result Run → Io Answer
  download_run (err e) = pure not_found
  download_run (ok r) =
      if is_success r.status
      then try_io (open_destination w.destinations r.destination) >>= download_from r
      else pure not_found

  unfoldable pub download : ℕ → Io Answer
  download id = try_io (run_by_id id) >>= download_run
