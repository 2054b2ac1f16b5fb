-- ===== src/Lib.antt =====
-- batchq: a batch queue. A server keeps jobs in an SQLite database; clients submit, hold, release and
-- cancel them; runners claim them, run them or hand them to SLURM, and report how they ended.
--
-- The program's parts. `jobs/` defines what a job is. `storage/` keeps all state: its interface
-- `Storage` (storage/storage.go) has one method for each transaction, and storage/sqlite.go implements
-- it on the tables of storage/schema.sql. `service/` decides who may do what and calls the store,
-- `server/` serves it over HTTP, `client/`, `cmd/` and `web/` are its users, and `runner/` has the two
-- runners. The store has one writer, so its transactions come one after the other; what a method reads
-- before its transaction may be out of date in it.
--
-- The files of this development:
-- - Shared: Boolean tests, lists, integers, Go's texts and numbers (`strings`, `strconv`), results.
-- - Job.Status, Job.Def: the states and the definition of a job, jobs/jobdef.go. Job.Lifecycle: the
--   specified life of a job, with the holds, releases and hand-overs of which the comments there do not tell.
-- - Job.Names, Job.Quantities: `NormalizeName`, `ParseResourceEntry`, `ParseCustomEntry`,
--   `ParseMemoryString` and `ParseWalltimeString` of jobs/jobdef.go.
-- - Job.ArraySpec: `ParseArraySpec` of jobs/arrayspec.go, with proofs in its child modules.
-- - Api: the words for states, api/status.go.
-- - Store.Db: the tables of storage/schema.sql. A table is the list of its rows; INSERT adds in front.
--   A query without ORDER BY takes the order of the list.
-- - Store.Submit: `InsertJob`, `InsertArray` and `insertJobTx`, with `validateDeps`.
-- - Store.Resolve: `ResolveDependencies`.
-- - Store.Claim, Store.Claim.Fits: `ClaimNextJob`, `claimJobTx` and the tests of a job's needs against
--   what a runner offers: `jobFitsLimits`, `jobFitsResources`, `jobArrayThrottleOK`.
-- - Store.Batch: `ClaimNextArrayBatch` and `claimArrayTasksTx`.
-- - Store.Cancel: `cancelOne`, `cascadeCancel`, `CancelJob`, `CancelArray`.
-- - Store.Transition: `MarkJobProxied`, `UpdateRunningDetails`, `EndJob`, `EndProxiedJob`, and the
--   users' `HoldJob`, `ReleaseJob`, `AdjustJobPriority` with their forms for arrays.
-- - Store.Cleanup: `CleanupJob`, `CleanupJobs`, `execBatchTx`.
-- - Service.Removal: `CleanupCandidates`, `planRemoval` and, in Service.Removal.Bulk, `CleanupBulk` where
--   it deletes without an archive.
-- - Service.Archive: `LoadJobs`, `RestoreJobs` and `restoreJobTx` of storage/sqlite.go, and `archiveOrdered` of
--   service/service.go, from the new archive on. Package time is a
--   parameter; the file system and the context's end are not modelled.
-- - Store.Run: requests one after the other, each one method of `Storage`. Store.Overlap: `InsertJob` and
--   `InsertArray` with other requests between the reads of the parents and the transaction.
-- - Service.Access: `authorizeJobAction`, `authorizeArrayAction` and the user actions of
--   service/service.go. The user that the socket attests is an argument.
-- - Service.Submission: `SubmitJob`, `applyPeerIdentity` and `joinUint32` of service/service.go, `IsUUID` of
--   support/utils.go, and the answer of `handleSubmitJob`. The name service is a parameter, and so is
--   what other requests write between this one's reads and its insertion.
-- - Server: `handleEndProxied` of server/handlers.go. Server.Auth: `withAuth` and `bearerToken` of
--   server/auth.go, with SHA-256 as a parameter. Server.Gate, Server.Teardown, Server.Lifecycle: the
--   life of the server, server/server.go, as a step relation: `withActivity`, `shutdown`, the idle
--   monitor and the main goroutine of `ServeListener` and of `runServer` in cmd/server.go, one access
--   to the shared memory at a time. `Shutdown` and `Serve` of net/http are as their documentation
--   says: the one returns when no connection is busy or its deadline has passed, the other at once
--   when the listener is closed.
-- - Client: `doOnce`, `doRetry`, `do`, `doIdempotent` and `SubmitJob` of client/client.go. What network and
--   server make of each send is an argument; no other client is at work meanwhile.
-- - Runner.Simple: the loop of the simple runner, runner/simple.go, and the goroutines of its jobs, as a
--   step relation; Runner.Simple.Ledger, Offers and Capacity: what is free and what is used.
-- - Runner.AfterOk, Runner.Slurm: `slurmAfterOkDirective`, `clampMinArray` and `applySlurmState` of
--   runner/slurm.go. The server's answers are a parameter.
-- - Runner.Simple.Turns: the turns of that loop that follow each other at once, with the store's claims.
-- - Service.Deps: the dependencies that a submission names, service/service.go and support/taskaddr.go:
--   `parseDepSpecs`, `expandSingleDeps`, `expandArrayDepsForTasks`. The indices of an array are distinct.
-- - Store.Wf and Store.Invariant: the invariant of the tables, and the proofs for each operation.
-- - Store.Lifecycle: that each operation keeps the life of each job.
-- - Store.Laws, Store.Cancel.*, Store.Claim.Order, Store.Claim.First, Store.Claim.Priority, Store.Resolve.Parents,
--   Store.Cleanup.* and Service.Deps.Expansion: the proofs about one component.
-- - Scenarios: runs on small tables.
--
-- Conventions. A transaction that returns an error is rolled back, so its result has no database. The
-- clock's texts are arguments, read once for each operation. A job that is returned is given by its
-- id: `txGetJob` only reads it back. Errors are named by kind, without their texts. SQLite's CAST of a
-- text to INTEGER is a parameter, which only orders the tasks of an array; its LIKE and the order of
-- its texts are written out as it documents them. The queue of `cascadeCancel` runs on fuel, one more
-- than the number of jobs: each job that it queues is canceled first, and no job is canceled twice, so
-- the fuel never runs out. A priority is an integer without a bound. Go's maps are lists of entries.
-- `canRemove` and `add` of `planRemoval` run on fuel, one more than the number of candidates: each visit
-- that goes deeper marks a candidate that had no mark, and a job that is added needs fuel only for the
-- chain of its dependents. The loop over a range of an array specification runs on fuel for the numbers
-- of the range; an index wraps around in 64 bits.
--
-- Not modelled: listings and searches (they read), backup, the
-- migration of the schema, the retries of SQLite's busy errors, cancellation of a request's context,
-- the submission of an array, the refusal of a second bulk cleanup and its VACUUM, HTTP, the election
-- by socket and the probe of the ownership monitor, the runners' processes and what a runner
-- advertises, `cmd/` and `web/`.
pub mod Shared
pub mod Job
pub mod Store
pub mod Service
pub mod Api
pub mod Server
pub mod Client
pub mod Runner
pub mod Scenarios
