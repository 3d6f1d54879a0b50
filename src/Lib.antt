-- ===== src/Lib.antt =====
-- pg-guard supervises one postgres process and pairs it with the pg-guard of a peer node: it starts
-- and restarts postgres, stops it in coordination with the peer, promotes it when the peer fails,
-- and clones or rewinds it when the peer has become primary. This library models the decisions of
-- src/*.go as functions on the state of one node, and proves what they guarantee.
--
-- A node is a record (Node.antt: the variables of src/state.go, those of the main loop, and the
-- counters that the code writes) with a trace of all exchanges with the surroundings, newest first.
-- The surroundings (postgres, the peer's HTTP answers, the operating system, the tools initdb,
-- pg_rewind and pg_basebackup, the name service and the clock) are the record Env: what they
-- answer after any history. Nothing is assumed of them, but where a theorem names IsClock: that the
-- clock does not run backwards, and that a sleep takes at least its time. Operations are state
-- passing functions (Node/Monad.antt) in the source's order of effects. Go errors are the type
-- Result; messages are reduced to the reason. Times are nanoseconds on the natural numbers.
--
--   Prelude             Boolean tests, lists, Go strings as bytes, lines, integers for settings
--   Config              src/config.go (the record), src/timeouts.go
--   Settings            loadConfig and the functions that read one variable (src/config.go),
--                       buildServerTLSConfig (src/tls.go): load_config runs load_postgres, load_tls
--                       and so on in the source's order, up to the first refusal;
--                       Settings/Variables, Defaults: the table varDefs; Settings/Dump: dumpConfig
--   Node                src/state.go; Node/History: what a trace tells
--   Peer                src/peer.go, peerHealthy of src/failover.go
--   Handover            src/handover.go: stopLocal is stop_local, coordinateHandover is
--                       coordinate_handover, coordinateReboot is coordinate_reboot
--   Hba, Database       hbaUpsertLine, ensureRoleAndDatabase and what it calls (src/bootstrap.go)
--   Rewind              src/rewind.go
--   Bootstrap           runBootstrap and what it calls (src/bootstrap.go)
--   Startup             startPostgres, rejoinAtStartupIfNeeded (src/main.go)
--   Supervisor          the select loop and its handlers (src/main.go)
--   Failover            a tick of the monitor (src/failover.go), the deadlines of src/state.go
--   Links               the addresses and the TLS of both sides of a call: src/tls.go,
--                       startAPIServer (src/api.go), peerAPIURL (src/peer.go)
--   Names               derivePeerHost (src/config.go)
--   Quoting             pgIdent, pgLiteral (src/bootstrap.go), dsnQuote (src/db.go)
--   Queries             src/db.go, and the connection strings of src/rewind.go; Queries/Conninfo: how
--                       libpq reads such a string
--   Auth                src/auth.go
--   Backup              performBackup, pruneOldBackups (src/backup.go); Backup/Endpoint: the
--                       scheduler, handleBackup (src/api.go) and runBackupToStdout
--   Api                 the handlers of src/api.go that change the state
--   Process             runInteractive (src/main.go): main loop, API and monitor interleaved;
--                       Process/Phases and Supervisor/Phases: the machine of phases that it refines;
--                       Process/Saving: the process with its backups and its state file
--   StateFile           src/statepersist.go, with every disk that a save passes through
--   Textfile            src/textfile.go, on the same files
--   Status              the pages of src/metrics_server.go
--   Metrics             collectMetrics, writeGauge and writeCounter (src/metrics.go)
--   Cli                 main and requireNoOpts (src/main.go), src/remotecli.go, buildClientTLSConfig
--                       (src/tls.go); Cli/Routes: the routes of both listeners
--   Password            src/setpassword.go
--   Log                 src/log.go; Log/Severity: postgresLogLevel and classifyPostgresLine
--                       (src/supervisor.go)
--   Reaper              src/reaper_linux.go
--   Child               src/supervisor.go, src/runcmd.go, src/stop_linux.go, src/stop_windows.go
--   Detect              src/detect_linux.go, src/detect_windows.go
--   Staging             stageTLSFile (src/tls.go), src/tempdir.go
--   WindowsService      Execute and waitForShutdown (src/service_windows.go), beside the same handlers
--                       as Process
--   ServiceInstall      src/service_install_windows.go
--   Examples            the statements at concrete nodes
--
-- Loops. The two loops that wait for a role, the one that rejoins, the one that waits for a promotion
-- to be confirmed and the one that sets up the database run on fuel. Each pauses between two
-- rounds, so the fuel is the deadline divided by the pause, and one or two more rounds: 21 for the
-- confirmation (10 s, 500 ms), 62 for the second node (120 s, 2 s), 17 for the tiebreak (15 s,
-- 1 s), 32 for the rejoin (30 s, 1 s), 31 for the set-up (60 s, 2 s). Running out of fuel is the
-- result `stuck`, which is no result of the program. Where the source waits for a loop only to go
-- on, as for the set-up, the model goes on too, and the result tells how the loop ended.
--
-- Kills. The source goes on after a kill whose exit is not confirmed within five seconds. A child is
-- called let go when it was seen to exit or when that time has passed (Node/History).
--
-- Interleaving. A step of a process is one round of the main loop, one whole API request, or one
-- whole tick of the monitor. That two API requests overlap, or that a tick runs in the middle of
-- one, is not modelled, except for the monitor alone (Failover), where anything may happen between
-- two ticks. A request that ends the process (a child that cannot be started) still gets a code in the
-- model, which the source never sends.
--
-- Parameters. time.ParseDuration computes fractions of a unit in floating point and is a parameter of
-- the loader, with the search for the postgres binary, the host's name, and the staging and loading
-- of TLS files. encoding/json is a parameter of the state file; its theorem asks for a codec that
-- reads back what it wrote. The kernel gives the reaper the children that have ended; no pid is given
-- to a new child while an earlier one of that pid is uncollected. Text is bytes, and white space,
-- capitals and the quoting of `%q` are those of ASCII.
--
-- The limit of a line is that of bufio.Scanner, which is modelled by its documentation, as are the reading
-- of a connection string by libpq, of a page of metrics by Prometheus, and of the environment of a
-- service by Windows. The value of a metric is exact: its conversion to a float and its text are a
-- parameter. What Windows answers to the installation and how often the ticker of a shutdown fires
-- are given; the state file is written by the process of Process/Saving only.
--
-- Not modelled: sockets and TLS sessions, the creation and signalling of processes by the operating
-- system, the permissions of files, the routing of the HTTP servers by the library, the printing of help and of answers on the command line, and the text of most log
-- messages: they are output, or calls of libraries and of the operating system whose answers Env
-- stands for. A request's own time limit is part of the answer: it shows as a failure. Cli/Guarding
-- puts the authentication of Auth in front of the routes of Cli/Routes. Which bind addresses take
-- calls to 127.0.0.1 is a parameter, as are the variables that Windows gives all services.
pub mod Prelude
pub mod Config
pub mod Node
pub mod Password
pub mod Peer
pub mod Handover
pub mod Hba
pub mod Database
pub mod Rewind
pub mod Bootstrap
pub mod Startup
pub mod Supervisor
pub mod Failover
pub mod Cli
pub mod Log
pub mod Reaper
pub mod Child
pub mod Settings
pub mod Detect
pub mod StateFile
pub mod Staging
pub mod Status
pub mod Metrics
pub mod Textfile
pub mod Names
pub mod Quoting
pub mod Queries
pub mod Auth
pub mod Backup
pub mod Api
pub mod Process
pub mod WindowsService
pub mod ServiceInstall
pub mod Links
pub mod Examples
