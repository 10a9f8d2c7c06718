-- ===== src/Lib.antt =====
-- A model of MySQLBackup, a program that dumps all databases of a MySQL or MariaDB server into one
-- ZIP archive for each database, keeps archives by windows of days, weeks, months and years, copies
-- them to a server over SFTP, and installs the schedule that runs it.
--
-- How the parts interact. The run (internal/run/run.go) checks the disk, starts the database server
-- if it must, asks internal/mysql/mysql.go for the databases and the users, lets
-- internal/backup/backup.go write the archives, internal/retention/retention.go delete old ones,
-- and internal/remote/remote.go copy the rest; internal/schedule/schedule.go keeps the job that
-- calls the program. The files are named for these parts:
--
--   Base       texts, lists, lines, paths and numbers as the Go library treats them
--   Calendar   the dates of Go's package time, as day numbers from 0000-01-01 on
--   Regexp     the part of Go's package regexp that the program uses
--   I18n       internal/i18n/i18n.go: translation, choice of the language
--   Retention  internal/retention/retention.go: ListBackups, Classify, LastBackupBefore, Apply,
--              ApplyToDirs (the last two in Retention/Apply)
--   Storage    the calls of package os that a backup makes, over a directory
--   Backup     internal/backup/backup.go: Run, recoverSavFiles, safeWriteZIPStreaming with its closures
--   UserSql    internal/backup/usersql.go: parseUserRecords; UserSql/Render: ParseUserSQL
--   Remote     internal/remote/remote.go: Sync, uploadFile, streamEncryptUpload; Remote/Fetch: dial,
--              GetFile, getOneFile
--   Run        internal/run/run.go: Backup, sendErrorEmail, splitCommandLine
--   Email      internal/email/email.go: Send, sendTLS, sendSTARTTLS, FormatErrorBody
--   Mysql      internal/mysql/mysql.go: the arguments and outputs of the client programs
--   Restore    internal/restore/restore.go: RestoreFromZips, restoreZip, FullReinit
--   Main       main.go: the choice of the action, runRestore, formatSize, validGetfilePattern
--   Waiting    waitForMySQL of internal/run/run.go, waitForPortState of internal/restore/restore.go
--   Config     internal/config/config.go: normalizePaths, HostnameForBackup, ConfigPath
--   Schedule   internal/schedule/schedule.go: the cron tables; Schedule/Units: the units of systemd,
--              Status and Uninstall; Schedule/Tasks and Schedule/Windows: the task of Windows
--
-- Conventions. A Go string is the list of its code points. A value and an error are a Result, a
-- method that changes state takes the state and gives it back. A branch on the answer of a call is
-- a function by clauses named for what was asked (rename, then start_moved), so that the branches
-- of the source are its clauses. A call of the system can fail: in Storage a schedule says which
-- calls are refused, so a theorem about every schedule is one about every error path; elsewhere the
-- answer is a parameter. Two names of a directory are told apart by text_eq; the archive of a
-- database whose name has a slash would lie elsewhere, and the theorem about a run leaves it out.
--
-- What is a parameter: the programs mysql, mysqldump, mysqlpump, crontab, powershell and schtasks,
-- the orders in which Go ranges over a map, the package filepath of Windows, the SFTP client and
-- SSH, the cipher and its key derivation, the sort, the clock. The laws that theorems need of them
-- are their hypotheses: ClientLaws in Remote/Uploads, ToolLaws in Schedule/Upkeep, IsRunOrder in
-- UserSql/Sections, the fields of Sort in Base/Sorting, and that adding a key stream twice gives
-- the text back. Each is met by a concrete one in the file of examples.
--
-- Bounds. The loops of the source that run over a list or count down are structural recursion here;
-- the search for a month or a year in Calendar has as much fuel as there are days, and the waiting
-- loops one round more than the timeout, which the theorem about them shows to be enough. Sizes,
-- times and the numbers of days stay far below 64 bits, so no wrap-around is modelled; strconv.Atoi
-- refuses what does not fit. bufio.Scanner stops at a line of 64 KB, or of the size that sc.Buffer
-- sets.
--
-- What is not modelled: the reading of the configuration (a library), the log file, the copy of a
-- directory and the sockets of the restore, the parser of a task's command (windowsTaskGetCommand),
-- which nothing calls, and the SSH connection itself. Numbers in log messages are left out.
pub mod Base
pub mod Calendar
pub mod Regexp
pub mod I18n
pub mod Retention
pub mod Backup
pub mod Config
pub mod Email
pub mod Main
pub mod Mysql
pub mod Remote
pub mod Restore
pub mod Run
pub mod Schedule
pub mod Storage
pub mod UserSql
pub mod Waiting
