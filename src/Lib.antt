-- ===== src/Lib.antt =====
-- Verification of the Python code of browser-visit-logger.
--
-- The native host writes a log line for each visit and each tag, and a database with the visits and
-- their events. The Python code rebuilds that database from the logs and from the archive of
-- snapshot files, seals the archive's directories with a manifest, and exchanges log lines with other
-- machines over a sync server.
--
-- Base holds what all parts share: equality tests, lists, Python's text operations (Base/Strings),
-- a stable sort, dicts as association lists, and the SQL statements on a table as the list of its rows
-- (Base/Table).
-- Database: the tables of browser-visit-logger/schema.sql.
-- Paths, Names and Files: os.path, the regular expressions on file names, and the file system as a
-- dict from paths to nodes.
-- Host: browser-visit-logger/native-host/host.py, insert_visit, _insert_event and tag_visit.
-- Host/Counters says when a database is consistent: no url and no event key occurs twice, every event
-- has a visit, and each counter of a visit is the number of its events.
-- Rebuilder: browser-visit-logger/native-host/visits_rebuilder.py. Lines is the parser of log lines,
-- Collect _collect_log_paths, Replay phase 1 (_replay_one_file, replay_logs, _apply_action), Rehydrate
-- phase 2 (rehydrate_filesystem), Run rebuild and cli. Replay/Pairing describes a replay apart from the
-- code: the list of the actions that a success line closes.
-- Snapshots: browser-visit-snapshot-lib/snapshot_mover.py. Effects is a monad over the file system and
-- the connection in which any call may fail, as the environment says by the number of the call; Errors
-- is the mover_errors table, Manifest the manifest, Seal _seal_directory, Orphans
-- _orphan_log_merge_pass. Manifest/Listing says which rows a manifest is to have. Effects/Rules has the rules by which a property of the calls passes to what
-- is built of them, and Seal/Closed those by which it passes to the sealing of a directory.
-- Sync: browser-visit-logger/native-host/sync_client.py. Cursors is the sync_state table and the error
-- rows, Replay replay_into_db, Push do_push, Pull do_pull, Run main. Exchange puts a push and a pull
-- together, over a server that hands on what it was given. Push/Behind describes the lines behind a
-- cursor apart from the code, over all lines of all local logs at once.
-- Sealer: the command lines browser-visit-logger/native-host/snapshot_sealer.py (One) and
-- browser-visit-sync-server/sealer/seal_completed_days.py (Days).
-- DbDiff: browser-visit-tools/db_diff.py, the comparison of two databases by table and its report
-- (DbDiff/Printed is _format_text).
-- ReadingList: browser-visit-tools/reading_list.py. Query is _fetch_rows, Markdown and Html the two
-- renderings, Run is main with os.makedirs and the writing of the file; Strip is str.strip.
-- QueryServer: browser-visit-mcp/server.py. Comments, Statements and Validate are the parts of
-- _validate_readonly_sql, Run is _do_query with its timer and _do_schema, over a SQLite that is a
-- parameter: a statement is its rows, each with the time that it takes.
-- Enrolment: browser-visit-tools/enroll_machine.py, the table of the machines that may sync.
-- Cloud: the tools for the virtual machine. Calls is a monad whose operations make calls of AWS, read
-- and write the state file, and raise; what AWS answers, and the clock, are functions of the calls so
-- far. Aws is browser-visit-tools/_bvl_aws.py, Vm manage_vm.py, and Server with Server/Scripts
-- manage_sync_server.py: its commands, and the shell lines that they run on the machine. Quote is
-- shlex.quote, with a reader of the quoted words written from the rules of a POSIX shell.
-- Migration: browser-visit-tools/migrate_icloud_to_gdrive.py, the copy of the archive and the UPDATE of
-- the directories with SQLite's LIKE and REPLACE. Migration/Origins follows each file at the target
-- to where it comes from.
-- Reset: browser-visit-logger/reset.py.
-- Tests has small runs of the code.
--
-- A text is a list of character codes, and a number is a natural number. A loop is a recursion over a
-- list, but for the two loops of Cloud/Aws that wait for the machine: they run on fuel, 37 turns with
-- pauses of 5 seconds up to a deadline of 180, and 101 turns with pauses of 3 up to one of 300, which
-- is enough where the clock does not go back and a pause lasts as long as it is asked to. In Host,
-- Rebuilder and Sync a statement or a file operation does not fail; in Snapshots and Sealer each one
-- may, in Cloud each call may, in Migration each copy may. A transaction is explicit where the code can
-- lose it (Snapshots, Sync). The server, the clock, the time parser, the hash functions and the
-- configuration are parameters.
--
-- Not modelled: log messages, what most tools print, argparse, the lock file and the TLS channel of the
-- sync client, the protocol of the query server, and browser-visit-tools/fetch_vm_snapshot.py, which
-- writes the answer of one call to a file: all of these are input and output; the Swift host, the Go
-- server and the browser extension, which are other languages.
pub mod Base
pub mod Database
pub mod Paths
pub mod Migration
pub mod Reset
pub mod Names
pub mod Host
pub mod Files
pub mod Rebuilder
pub mod Snapshots
pub mod Sync
pub mod Sealer
pub mod DbDiff
pub mod Tests
pub mod ReadingList
pub mod QueryServer
pub mod Enrolment
pub mod Cloud
