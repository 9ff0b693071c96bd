-- ===== src/Store/Methods.antt =====
-- The methods of `Store`, apart from `OpenStore`. The cipher, its key and the world are explicit.
use base_guard.Base.{
  ℕ, suc, String, Bool, not, ◌&&◌, List, reverse, Option, none, some, first, take, ◌==◌, str_eq,
  eq_ℤ, no_rows, failure, message, Result, ok, err, ◌⊕◌, itoa, collect, if◌then◌else◌,
}
use base_guard.Disk.{Bytes}
use base_guard.Model.{Database, Run, Json, json, malformed, running}
use base_guard.Security.{Cipher, encrypt, decrypt}
use base_guard.Store.Tables.{
  DatabaseRow, insert_database, update_database, enqueue_listed, claim, is_queued, is_listed,
  is_busy,
}
use base_guard.Exec.{Io, pure, lift, query, exec, run, transaction, time_now, ◌>>=◌, ◌>>◌}

-- `json.Unmarshal`
abbrev pub unmarshal : {A : Type 0} → Json A → Result A
unmarshal (json a) = ok a
unmarshal (malformed s) = err (failure s)

-- `QueryRow(...).Scan`
abbrev pub or_no_rows : {A : Type 0} → Option A → Result A
or_no_rows none = err no_rows
or_no_rows (some a) = ok a

abbrev pub same_schedule : Bool → Database → Database → Bool
same_schedule enabled old d =
    (if enabled then d.enabled else not d.enabled)
    && str_eq old.schedule_kind d.schedule_kind
    && str_eq old.at d.at
    && str_eq old.timezone d.timezone
    && eq_ℤ old.interval d.interval
    && eq_ℤ old.weekday d.weekday

-- The first part of `Save`: an edit that leaves the schedule alone keeps the planned run.
unfoldable pub keep_next_run : Database → Io Database
keep_next_run d = if d.id == 0 then pure d else do
  found ← query (λ t. first (λ r. r.id == d.id) t.databases)
  row ← lift (or_no_rows found)
  old ← lift (unmarshal row.config)
  pure (if same_schedule row.enabled old d then record d { next_run = row.next_run } else d)

unfoldable pub insert_row : Database → Json Database → Io Database
insert_row d config = do
  id ← exec (insert_database config d.enabled d.next_run) (λ t. suc t.database_seq)
  pure (record d { id = id })

unfoldable pub update_row : Database → Json Database → Io Database
update_row d config = do run (update_database d.id config d.enabled d.next_run); pure d

-- The `INSERT` or the `UPDATE` of `Save`, of the record with the sealed password.
unfoldable pub write_database : Database → String → Io Database
unfolding insert_row update_row
write_database d sealed =
    let config = json (record d { password = sealed }) in
    if d.id == 0 then insert_row d config else update_row d config

module _ (c : Cipher) (key : Bytes) where
  -- `Save`, which returns the record that `d` points to afterwards.
  unfoldable pub save : Database → Io Database
  save d =
      transaction
        do d' ← keep_next_run d; sealed ← encrypt c key d'.password; write_database d' sealed

  unfoldable pub with_row : DatabaseRow → Database → Result String → Result Database
  with_row row d (ok password) = ok (record d {
    id = row.id;
    next_run = row.next_run;
    enabled = row.enabled;
    password = password;
  })
  with_row row d (err e) =
      err (failure ("não foi possível decifrar banco " ⊕ itoa row.id ⊕ ": " ⊕ message e))

  unfoldable pub load_config : DatabaseRow → Json Database → Result Database
  unfolding with_row
  load_config row (json d) = with_row row d (decrypt c key d.password)
  load_config row (malformed s) = err (failure s)

  -- One round of the loop in `Databases`.
  unfoldable pub load_row : DatabaseRow → Result Database
  unfolding load_config
  load_row row = load_config row row.config

  unfoldable pub databases : Io (List Database)
  databases = do rows ← query (λ t. reverse t.databases); lift (collect load_row rows)

  unfoldable pub database : ℕ → Io Database
  database id = do ds ← databases; lift (or_no_rows (first (λ d. d.id == id) ds))

unfoldable pub enqueue : Database → String → ℕ → Io Bool
enqueue d trigger now =
    exec (enqueue_listed d trigger now) (λ t. is_listed d.id t && not (is_busy d.id t))

-- `scanRun`: the row, unless its details do not decode.
unfoldable pub scan_run : Run → Result Run
scan_run r = elim r.client_info [ json info ↦ ok r | malformed s ↦ err (failure s) ]

unfoldable pub runs : Io (List Run)
runs = do rows ← query (λ t. take 200 (reverse t.runs)); lift (collect scan_run rows)

unfoldable pub run_by_id : ℕ → Io Run
run_by_id id = do
  found ← query (λ t. first (λ r. r.id == id) t.runs)
  row ← lift (or_no_rows found)
  lift (scan_run row)

abbrev pub claimed : ℕ → Option Run → Option Run
claimed now none = none
claimed now (some r) = some (record r { status = running; started = now })

-- `Claim`: the oldest queued run becomes the running one.
unfoldable pub claim_run : Io Run
claim_run = do
  now ← time_now
  found ← exec (claim now) (λ t. claimed now (first (λ r. is_queued r.status) t.runs))
  row ← lift (or_no_rows found)
  lift (scan_run row)

unfoldable pub setting : String → Io String
setting key = do
  found ← query (λ t. first (λ e. str_eq e.0 key) t.settings)
  row ← lift (or_no_rows found)
  pure row.1
