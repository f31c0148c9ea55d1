-- ===== src/Lib.antt =====
-- Agent Eval Orchestrator: a controller that keeps runs, batches, cases and workers in an SQLite
-- database, gives queued batches to workers that ask for them, takes their reports, merges reruns
-- of failed cases into the batch they came from, and brings workers up over ssh.
--
-- The parts, and where they are:
--   Table            the tables of the database: rows in the order of insertion, by primary key
--   Json, Text       the values of the *_json columns, and what is used of str and pathlib
--   Core             src/agent_eval_orchestrator/core/ids.py, core/worker_paths.py, storage/layout.py
--   Storage          src/agent_eval_orchestrator/storage/store.py, the class Store:
--     Schema           one record for each table; Store is the state of the database
--     Cases            _infer_case_id, _trial_merge_key, the rows of a report, the summary
--     Templates, Runs  the operations on task_templates and runs
--     Batches          create_batch, the lists of a run, promote_ and mark_worker_batches_*
--     Sharding         _weighted_case_groups, create_sharded_batches
--     Clone            clone_primary_batches_to_run
--     Claim            claim_next_batch, the scheduler
--     Progress         update_batch_progress
--     Merge            merge_rerun_cases_into_parent
--     Exceptions       list_exception_cases_for_run and its groups
--     Status           _overall_status_from_batch_counts and the status shown of a run
--     Rerun            the rerun jobs and finish_rerun_batch_if_complete
--     Jobs             the provision, worker update and asset sync jobs
--     Workers          register_worker, delete_worker, settings and the status shown
--   Controller       src/agent_eval_orchestrator/controller:
--     StepRunner       _run_step and set_step_status, which two kinds of jobs share
--     Provisioner      provisioner.py: run_job, cancel_job, decommission_worker
--     WorkerUpdater    worker_updater.py: run_job, resolve_paths, cancel_job
--     AssetSyncer      asset_syncer.py: run_job, sync_rerun_job, cleanup_run_sync_assets; their threads
--                      are in AssetSyncer.Threads
--     HarborYaml       harbor_yaml.py: discover_bind_assets
--     RerunCoordinator run_rerun_coordinator.py: start_rerun
--   Tests            runs on small states
-- A module below one of these holds its laws. A function has the name of its method, without a
-- leading underscore.
--
-- How they interact: every operation of the store takes the state and gives the new one, with what
-- the method returns, or the error that it raises; a call is one step, as if no other call came
-- between its statements, and a transaction that raises leaves the state as it was. Calls of
-- claim_next_batch may overlap: Storage.Claim has their reads and their transactions as separate
-- events, and Storage.Claim.Overlap what follows. The scheduler, the reports and the merges share
-- the batches and the case rows; a job of the Provisioner or of the WorkerUpdater is a sequence of
-- store operations with remote actions between them, during which other threads may change the
-- state in any way that keeps the job's row. A job of the AssetSyncer has a thread for each
-- worker: a step of one is one block under the lock, one call of the store or one copy, and the
-- steps of the threads and of the rest of the program follow each other in any order. A start of a
-- rerun has three parts, between which other threads run: its checks, the part under the lock, and
-- the creation of the rerun's batches.
--
-- What stands for what: a time is the number of its ISO text; a random id is an argument, so that
-- a clash of ids is an IntegrityError, whose text is the one of SQLite for the key's column; REAL
-- columns and other JSON numbers are literals; a JSON column holds the value dumped into it; rows
-- with one created_at keep the order of insertion; NULL is `none`; the operations on floats that
-- the split of cases uses and int() of a JSON value are parameters (Sharding). The loops of the
-- code are over lists, but for the search of a free name in _stable_asset_name: its fuel is one
-- more than the number of used names, which is enough since the names that it tries differ.
--
-- Not modelled: the migrations of an old database file, the making of directories, the HTTP server
-- and the pages, the ssh and git commands, the worker's daemon and the executors, which are I/O
-- around these operations; the summaries of exceptions, the scope of a rerun and its configuration,
-- and the other Harbor files, which are further logic.
pub mod Prelude
pub mod Table
pub mod Json
pub mod Text
pub mod Core
pub mod Storage
pub mod Controller
pub mod Tests
