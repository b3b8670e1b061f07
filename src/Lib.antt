-- ===== src/Lib.antt =====
-- loxbak backs up a Loxone Miniserver: on a cron schedule it mirrors the Miniserver's files over
-- FTP, archives the mirror as a zip file, stores the archive at the schedule's destinations, prunes
-- old archives there, and records runs in a SQLite database behind an HTTP API.
--
-- The files and the code they model:
-- - Base: Boolean tests on numbers, lists, byte strings, and Go's errors as values (`Result`).
-- - Archive (internal/scheduler/job.go: SanitizeName, the name that archiveDir forms,
--   ParseArchiveTimestamp). A Go string is a list of bytes, which Archive/Runes decodes as `range`
--   does; a time is its six fields in UTC.
-- - Db (internal/db and its migrations): tables as lists of rows, each function of the package as a
--   function on the connection. Db/Sql says how statements run: any of them may fail, by the
--   number of the statement, and a statement that would break a constraint of the schema fails.
--   Foreign keys act as the schema says (CASCADE, SET NULL), as they do on the connection that `Open` returns,
--   which switches them on; that the schema is enforced is SQLite's part, not the program's. An AUTOINCREMENT column has a counter
--   that never goes back. A time is a number of seconds, and an id is not bounded by 2^63.
-- - Crypto (internal/crypto/crypto.go) and Session (internal/session/session.go). SHA-256, AES-GCM
--   and HMAC are parameters; what is assumed of the cipher is the record `Crypto.IsLawful`. Random
--   bytes are arguments.
-- - Destinations (internal/destinations): the interface of a destination, on a state of its own, Prune
--   and the registry (destination.go), and the types of destination, in Destinations/Local (local.go),
--   Destinations/Remote (ftp.go) and Destinations/Webdav (webdav.go). Paths are joined and cleaned as
--   `path.Join` does (Destinations/Locations). The file system and the libraries are parameters; what
--   is assumed of them are the records `Destinations.Storage.IsLawful` and
--   `Destinations.Connections.Counted`, and of a store of named archives
--   `Destinations.Retention.IsLawful`. `sort.Slice` is insertion sort.
-- - Ftp (internal/ftp/client.go): Connect, withRetry, fileUpToDate, and in Ftp/Mirror the mirroring. The
--   loop of withRetry runs on the number of attempts left, five at first, as `maxRetries` bounds it. The
--   recursion of mirrorDir, which the code leaves to the Miniserver's tree, runs on fuel, which counts
--   directories on the way down and is enough where it exceeds the depth of the tree. A path is its
--   components. The FTP library, the file system and the context are the record `Ftp.Mirror.Platform`.
-- - Scheduler (internal/scheduler/job.go): RunSchedule, TriggerRun and what they call, on a world that
--   holds the database, the outside (the mirror, the archive file and the destinations, each of
--   which may fail at any time) and the runs that TriggerRun has left to goroutines. It uses Db,
--   Crypto, Archive and Destinations as job.go uses those packages.
--   Scheduler/Zip is archiveDir, which the outside of a run stands for, over the zip writer.
--   Scheduler/Cron is internal/scheduler/scheduler.go; what is assumed of the cron library is the record
--   `Scheduler.Jobs.IsLawful`. Scheduler/Locking is the section under `mirrorMu` as a relation between the
--   states of runs that overlap, move by move; there, an archive is its file name and the run whose mirror
--   it was made of. Scheduler/Racing has the query of a reload and what it does under its mutex as separate
--   steps, between which other reloads and changes of the table may come.
-- - Api (internal/api): handlers as functions from the server's state (a world as above, and the cron
--   entries) to a response and a state; the decoded body and the path values are arguments, and an id
--   is a natural number. Api/Router is the route table, with the frontend's files as a parameter;
--   Api/Headers sets the cookie, what withCORS allows, and the line that withLogging writes.
--   ftp.Validate, the random source, HMAC and the cron library are the record `Api.Backend`. Api calls
--   Session, Db, Crypto, Destinations and Scheduler.
-- - System: the process as a relation between states of the server: a request through Api/Router, a job of the
--   cron library, a goroutine that TriggerRun has started, and a restart are one step each, in any order. What
--   handlers and runs leave alone outside is the records `Scheduler.Frames.Leaves` and
--   `System.Calls.LeavesBackend`. Statements of two requests are not interleaved here; Db/Calls takes the
--   writes of the database one by one.
-- - Startup (cmd/loxbak/main.go): the start of the process, which opens the database (Db/Migrations),
--   establishes the secret of the sessions, loads the schedules and serves. Running a migration's
--   script, serving and the signals are parameters.
-- - Tests: runs of the model on concrete data, and the theorems at inputs where their hypotheses hold.
--
-- Not modelled: the SQL of the migrations behind the schema, and the frontend (web, internal/web). Logging
-- is left out everywhere.
pub mod Api
pub mod Archive
pub mod Base
pub mod Crypto
pub mod Db
pub mod Destinations
pub mod Ftp
pub mod Scheduler
pub mod Session
pub mod Startup
pub mod System
pub mod Tests
