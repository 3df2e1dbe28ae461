-- ===== src/Lib.antt =====
-- Verification library of transferencia-switch, a file transfer application for the console: an
-- MTP responder whose object database exposes storages to a computer, a receiver that installs
-- the packages (NSP and XCI) which the computer sends, and a client of the DBI program on the
-- computer, which lists remote files and reads parts of them.
--
-- The parts, their files here, and the code that they model:
--
-- - Base: the native numbers, tests, lists, byte strings, little-endian words, ordered maps (the
--   `std::map` of the code) and a result type for calls that stop at the first error.
-- - Domain: SafePath is `ts_is_safe_direct_child` of switch_app/source/domain/safe_path.c. A C string
--   is the list of its bytes, a null pointer is `none`. Domain/SafePath/Sound describes a direct
--   child. Status has the codes and texts of switch_app/source/domain/status.c, Catalog
--   `ts_catalog_parse` and `ts_catalog_copy_name` of switch_app/source/domain/catalog.c, with the
--   lines of a text as their description (Domain/Catalog/Lines).
-- - Database: `ReadOnlySdDatabase` of switch_app/source/adapters/read_only_sd_database.cpp. Types has
--   its private records and its members, Storage the storages and sessions, Send the transfers
--   (`beginSendObject`, `endSendObject`), Scan `scan` and `detectFormat`, Query the listings and the
--   lookups. A method is a function from the database to its result and the database after it. The
--   file system (`stat`, `opendir` and `readdir`) is a parameter, so a theorem holds for any. The
--   database asks SafePath before it takes an object.
-- - Install: `SdPackageInstallSink` of switch_app/source/adapters/sd_install_receiver.cpp. Names has
--   the file names and content ids, Header the table of an NSP, Sink the members and the ways to
--   fail, Receive the header phase of an NSP, Xci the two tables of an XCI and (in Xci/Consume) its
--   header phase, Stream `write`, Entries `beginEntry`, `consumeEntry` and `endEntry`, Data
--   `consumeData`, Rollback `rollback` and `abort`, Cnmt `readCnmt`, Meta `buildInstallMeta`, Finish
--   `importTickets`, `installMetadata` and `finish`, Setup `initialize`, the destructor and the
--   factory. A method is a function from the sink to its result and the sink after it. The services
--   of the console (content storage, content meta database, the cipher of NCA headers) are the
--   parameter Install/Services, with their state inside the sink; Install/MetaServices adds the calls
--   of the last stage and the layout of the structs of libnx, Setup those that start the services.
--   The laws of content storage that theorems need are a record in Install/Restore, those of the
--   other calls in Install/Finish/Tracks and Install/Setup/Prepared. A service may answer any call
--   with an error; the contents that a rollback cannot delete for that reason are described in
--   Install/Undo/Rollbacks, what the bytes of a table say of its files in Install/Layout/Files. Session
--   is the sequence of writes between the opening of a sink and its end.
-- - Remote: the client of switch_app/source/adapters/dbi_catalog.c. Transport is the port
--   (`TsByteTransport`), a parameter with a state of its own, which may take or give fewer bytes than
--   it was asked for; Runs are exchanges that stop at the first error (`goto fail`), Codec the
--   messages, Exact `read_exact` and `write_exact`, Client the connection and the three requests.
--   Requests has `ts_list_remote_files` and `ts_probe_remote_file` of switch_app/source/application,
--   which call the client through ports and the catalog of Domain. The laws of a transport that is a
--   stream are in Remote/Exact/Streams, those of one that works in Remote/Exact/Reliable.
-- - Installed: of switch_app/source/adapters/installed_catalog.cpp, Names has `sanitizeName`, Files
--   `writeFileAtomic` over the calls of POSIX, a parameter whose laws are in Installed/Files/Atomic.
-- - Saves: Plan is switch_app/source/domain/save_backup_plan.c (`ts_save_backup_plan_create` and the
--   manifest), Batch switch_app/source/application/plan_save_backups.c, which calls it for each save.
--   Texts are lists of bytes, and `vsnprintf` is the text with its arguments filled in.
--
-- Bounds: `uint64_t` sums wrap at 2 ^ 64, and the handle counter at 2 ^ 32; theorems on the
-- counter ask for room below that. The loops of the code are recursions on the list or on the
-- number of entries that are left. The loops of `write` and `consumeXciHeader`, and those of
-- `read_exact`, `write_exact` and `writeFileAtomic`, run on fuel, the number of bytes: each round
-- takes a byte or is the last. In `write`, too little fuel is `none`.
--
-- Not modelled: the log file, the texts of errors beyond the values in them, the vendored MTP
-- server, the mounts, menus and the renderer, which call libraries and hold no logic of their own;
-- the rest of the catalog of installed applications, which reads records of the console and removes
-- an old catalog; the USB transport, which calls libnx; and the closing of the installer's services,
-- which leaves no trace.
pub mod Base
pub mod Domain
pub mod Database
pub mod Install
pub mod Saves
pub mod Remote
pub mod Installed
pub mod Tests
