-- ===== src/Lib.antt =====
-- Verification of the backend of workspace107, archive/workspace107/backend/src/workspace107: a
-- platform on which the members of a workspace keep projects and run them on a cluster.
--
-- The parts and how they interact. A use case (application/) runs in one database transaction: it
-- asks the access guard which role the user has, reads and writes tables through the repositories,
-- calls the scheduler and the storage through ports, and reports what was done to the activity
-- feed and the notifications. What raises rolls its transaction back.
--
-- Base passes on the library and holds what the parts share: tests and lists over the native
-- numbers, tables (Base/Rows), Python's integers, texts and dicts, results and actions, and
-- Base/Results/Partial, the rules of partial correctness by which invariants are proved.
-- Domain models domain/: Enums (enums.py), Capabilities (capabilities.py), Errors (errors.py), Compute
-- (compute.py), Secrets (`resolve_env` of secrets.py), Models (models.py), Snapshot
-- (run_snapshot.py), Pagination (pagination.py and `_paginate`).
-- Store models infrastructure/db/: a World is the tables, a table the list of its rows in the order
-- of insertion, an Op a transaction. Store/Members, Store/Projects and Store/Runs are the
-- repositories of repositories.py, one function per method under its name (`membership_get` for
-- `MembershipRepositoryImpl.get`); a primary or unique key that is taken is an error, as the
-- database reports it.
-- Access models application/access.py, Activities application/activity.py and the publishing side of
-- application/notifier.py with their savepoints.
-- Workspaces models the members of application/workspace_service.py: Workspaces/Members the
-- operations, Workspaces/Owned and below it the rule about ownership.
-- Projects models application/project_service.py: Projects/Paths `normalize_path`, with
-- `posixpath.normpath`, Projects/Files the calls on files, Projects/Diff `_diff`, Projects/Versions the
-- versions, Projects/Settings and Projects/Fork the project itself; Store/Configurations is the
-- tables that a fork copies. Projects/Contained and below it say what a call keeps of the files and
-- versions, Projects/Trees what stands at each path, Projects/Steps the histories of committed
-- calls, Projects/Restored, Saved, Moved, Written and Deleted what single calls do.
-- Projects/Configurations models application/run_configuration_service.py; Domain/Secrets/Expressions
-- the references to variables and secrets that it parses (domain/secrets.py).
-- Runs models application/run_service.py and application/run_lifecycle.py: Runs/Preflight the checks,
-- Runs/Idempotency the keys, Runs/Submit the hand-over to the scheduler, Runs/Create `create`,
-- `rerun` and `cancel`, Runs/Lifecycle `sync_run`, `sync_all` and the collection of artifacts;
-- Runs/Limits, Runs/Ended, Runs/Proven, Runs/Replays and Runs/Repeats hold proofs, Runs/Rows,
-- Runs/Untouched and Runs/Keys what they share, Runs/Steps the histories of committed calls.
-- Scheduler models infrastructure/scheduler/: Scheduler/Script the job script (script.py), with
-- `str.isalnum` a parameter, Scheduler/Mock the polling, cancelling and job environment of mock.py,
-- where the return code of a process is a field of its job.
-- Tests holds a small store (Tests/Data) and the results at it.
--
-- Parameters. Env is the clock, `uuid4`, `isoformat`, and how the database's LIKE compares two
-- characters, which is not the same on SQLite and on PostgreSQL; Ports (Runs/Ports) is the scheduler
-- and the storage, BlobStorage (Projects/Ports) the storage's blobs: each answers the n-th call as
-- it likes, failures included. Only `write_read` assumes anything of the ports, that a blob that was
-- written is read back, and only `delete_path-IsDeleted` of LIKE, that a character is like itself.
-- A call that was rolled back to a savepoint is not counted.
--
-- Bounds. Loops run over lists; `decimal` prints with fuel n + 1, and a number n has no more digits.
-- An identifier is a number, since identifiers are made and compared only and are never empty. The
-- concurrency of requests is the order of their transactions: the lock of an entitlement row, which
-- `create` and `rerun` take before they count, is what makes them one after the other.
--
-- Not modelled: the texts of errors, events and feed entries (an error carries the data of its
-- message), columns that no modelled code reads, overviews and their orders, the HTTP layer, the
-- starting of processes, the adapters of Slurm and of the storage, and the creation and settings of
-- workspaces.
pub mod Base
pub mod Domain
pub mod Store
pub mod Access
pub mod Activities
pub mod Workspaces
pub mod Projects
pub mod Runs
pub mod Scheduler
pub mod Tests
