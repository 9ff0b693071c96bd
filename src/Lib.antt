-- ===== src/Lib.antt =====
-- BaseGuard (cmd/baseguard, internal/app): scheduled dumps of PostgreSQL, MySQL and MariaDB
-- databases to mounted destinations, with a queue of runs in SQLite, a worker that takes one run at
-- a time, a retention rule, and a web panel.
--
-- The modules follow the files of internal/app.
--
-- Base, FilePath, Disk: what the code uses of Go's standard library: texts and code points,
-- integers, the lists, errors as values (Base.Fallible), `filepath.Clean`, `Join` and `IsLocal`, and
-- the files below the destinations.
--
-- Exec: the state that everything acts on (`World`: tables, disk, clock, random source) and the
-- actions on it. A statement or file operation that may fail first reads the next entry of `faults`,
-- so a theorem for every world covers every pattern of failures. `transaction` is `Begin`, `Commit`
-- and `Rollback`. Exec.Keeps has one rule per way to build an action, Exec.Steps chains actions,
-- Exec.Inversion reads off what a success implies.
--
-- Model (model.go): `Database`, `Run`, `Schedule`, `Validate`. The zones and robfig/cron are a
-- record of parameters, `Cron`. Model.TimeOfDay is `time.Parse` of the layout "15:04", Model.Plans what
-- `Schedule` is to answer, without its tests.
--
-- Security (security.go): `encrypt` and `decrypt`. AES-GCM and base64 are the interface `Cipher`,
-- whose two laws are that opening what was sealed, and decoding what was encoded, give it back.
--
-- Security.Key: `loadKey`. The key file, as other files outside the destinations, is one below the
-- root "" by its whole path.
--
-- Clients (clients.go): `profileFor` and `serverSeries`, with the regular expression
-- `numericVersion` as a scan of digits. Clients.Numeral is about `strconv.Atoi`, Clients.Offered has the
-- matrix of the series, engine by engine.
--
-- Store (store.go): the tables, one constructor of `Statement` for each SQL statement with its
-- guard, and the methods. Store.Invariant is the invariant `IsSound`: ids are unique and rise, and a
-- database has at most one run that is queued or running, which the source also asks of SQLite by
-- the index `one_active_run`. Store.Open is `OpenStore`, with the migration to schema version 2.
-- JSON columns hold the value or a text that does not decode.
--
-- Backup (backup.go): `limitedBuffer`, `InitDestination`, `openDestination`, `writeBackup`. What an
-- executor writes is a parameter, `Executor`; the digest too.
--
-- Native (backup.go, clients.go): the executor that starts the tools of the servers. Native.Escape
-- and Native.Credentials are the texts of `credentials`, Native.Process its file and `command`,
-- Native.Versions `clientVersion`, Native.Prepare `Prepare`, Native.Told
-- what a server reports, Native.Executor `Check`, `Dump` and
-- `dumpWithProfile`. Which program answers what, and gzip, are a record of parameters, `Tools`.
--
-- Worker (worker.go): `Recover`, `Schedule`, the tick of `Start`, `execute`, `backupWithExecutor`,
-- `Retain`. Worker.Drain is the loop of `Start`, a list of ticks. Worker.Paths is about the paths of the
-- backups, Worker.Intact about the files of the successful runs, with the rules of Exec.Ends, which
-- are those of Exec.Leads for the tables and the disk together.
--
-- Server (server.go): Server.Handler has the routes, the check of the origin and the order in which
-- the rest is called. Server.Attempts is the throttle of `login`, Server.Login the login,
-- Server.Panel the handlers `save`, `enqueue`, `toggle`, `delete` and `download` with `submitted`,
-- Server.Pages the other handlers and what a page shows, Server.Texts the functions of the
-- templates, Server.Sessions `auth`, `logout`, `Bootstrap` and the session that `login`
-- opens. A request is the values that the handlers take from it, with the pattern of `http.ServeMux`
-- that it matches; bcrypt and SHA-256 are parameters. Server.History runs any sequence of the calls
-- of the worker and of the panel.
--
-- Command (cmd/baseguard/main.go): the commands and the start. The lock, the decoder of JSON and the
-- libraries of the network are parameters, `Setup`. Command.Service is the program after its start, as a
-- relation `Step` between states of `Service`: a round of the worker's loop, the scheduler's call of each
-- minute, a request, a signal, an error of the listener, `Shutdown` and `<-done`. Each round, call and
-- request is one step there: how the statements of two of them may mix is not modelled, and a
-- dump that the end of the context cuts off is one that ends with an error.
-- Command.Lifetime chains starts and services. Store.Lifecycle has the diagram of a run's status,
-- Exec.Leads the rules for what an action establishes when it succeeds and leaves when it fails, and
-- Store.Law the statements that presume no status, with the predicates that they keep.
--
-- No definition needs fuel: all loops run over lists. Row ids and Unix times are natural numbers;
-- Go's int64 does not overflow on them. A deadline or a cancellation of a context shows as an error
-- of the call that it ends. Not modelled: the timers of the worker and the
-- deadlines of the HTTP server, headers and attributes of cookies, templates, logs and the scripts of the
-- container.
pub mod Base
pub mod FilePath
pub mod Model
pub mod Disk
pub mod Exec
pub mod Security
pub mod Clients
pub mod Native
pub mod Store
pub mod Backup
pub mod Worker
pub mod Server
pub mod Command
pub mod Samples
