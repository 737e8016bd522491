-- ===== src/Lib.antt =====
-- The import service: clients upload files of newline-delimited JSON, a worker claims the job of
-- each file, parses and validates its lines, scores the records and stores them in batches.
-- Imports can be cancelled, and workers may crash.
--
-- The parts, bottom up. Base holds the shared names, the list and Boolean helpers, and `Effect`:
-- a call that may throw, over a state that is kept after a throw. Js is what the code uses of
-- JavaScript: strings as lists of UTF-16 units, and a record of parameters for doubles, dates,
-- JSON and SHA-256. Domain is src/domain: ImportStatus (import/import-status.ts), Errors
-- (domain-errors.ts, and src/http/common/filters/app-exception.filter.ts in Errors.Responses),
-- ParseLine, Validate, Fingerprint and Transaction (transaction/*.ts), and RiskScore
-- (risk/compute-risk-score.ts). Concurrency.Semaphore and Concurrency.WorkerThreadPool are
-- src/infrastructure/concurrency/semaphore.ts and worker-thread-pool.ts, Retry is
-- src/infrastructure/resilience/exponential-backoff-retry.policy.ts. Database is
-- prisma/schema.prisma with src/infrastructure/repository: Table has the queries on lists of
-- rows, World the rows, the clock and the connection, and JobRepository, ImportRepository,
-- TransactionRepository, ImportFileRepository, ImportQuery with ImportSummary, and HealthCheck
-- the operations of the classes, each with its statements, its transaction and its wrapping of
-- errors. Processing is src/application/use-cases/process-import-file.use-case.ts over the ports
-- that it is given, and Processing.Store fills these ports with the repositories over the
-- database. Imports holds the other use cases of the same folder (Creation, whose ports
-- Creation.Server fills with the disk and the database, Cancellation, Reports), and src/http/common/interceptors/concurrent-upload-limit.interceptor.ts. Storage is
-- src/infrastructure/storage/disk-file-storage.ts with src/worker/orphan-file-sweeper.service.ts
-- (Disk, Sweep), and countLines of src/infrastructure/streaming/readline-line-reader.ts. Worker
-- is src/worker/job-poller.service.ts (Poller), and src/shutdown/graceful-shutdown.ts with
-- src/application/shutdown/shutdown-state.ts (Shutdown). Observability is
-- src/infrastructure/system/log-sanitizer.ts and
-- src/infrastructure/observability/prometheus-metrics-recorder.ts. Http.ImportController is
-- src/http/import/import.controller.ts over the use cases.
--
-- How state is kept. The database is a record of tables; a statement is a function on them. What
-- the connection makes of each statement and of each commit is read from a list of replies,
-- which the theorems leave open: carried out and answered, refused, or carried out with the
-- answer lost. A transaction that throws rolls back. SQL text and Prisma calls are read by their
-- documented meaning: a unique key refuses a second row, ON CONFLICT DO NOTHING skips it, update
-- of a missing row throws P2025. A statement is one atomic step, as PostgreSQL makes it for the
-- single UPDATE of claimNext with FOR UPDATE SKIP LOCKED; the transactions of different callers
-- follow one another. In Processing the local variables of `execute` stand beside the state of
-- the ports. Each flush is awaited, so a run has one persist in flight at a time. The semaphore,
-- the upload limit, the worker threads, the shutdown and the metrics are step relations: an
-- event is one step, and the theorems hold of every sequence of steps. The disk is a function
-- from paths to files. The five queries of getSummary run at the same time and outside a
-- transaction, so each reads tables of its own; a reclaim may stop between its query and its
-- transaction.
--
-- Loops. `for await` over the lines is structural recursion on the list of lines. The retry loop
-- counts down its attempts, and the cause chain is a data type, so no fuel is needed; a client
-- that reads pages has a bound on its requests, and more requests than there are records are
-- enough. The loop of the poller has no end of its own: it runs for a number of turns, and a
-- loop that goes on has no result. Ids, worker ids and times are natural numbers; times are in
-- milliseconds. No machine-width integer occurs: the counters are JavaScript numbers and 32-bit
-- columns, whose overflow at 2^31 records is not modelled.
--
-- Not modelled: the DTO classes and decorators, the health controller, the message handler of
-- the risk score worker, the streams of the line reader, the samplers of the runtime, the
-- logger, and the start-up of the processes. Payloads of log lines are left out. Examples apply
-- the theorems to small inputs; they stand in the modules named Examples.
pub mod Base
pub mod Js
pub mod Domain
pub mod Concurrency
pub mod Retry
pub mod Database
pub mod Processing
pub mod Imports
pub mod Storage
pub mod Worker
pub mod Observability
pub mod Http
