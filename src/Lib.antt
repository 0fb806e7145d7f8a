-- ===== src/Lib.antt =====
-- forgemaster is a local forge that runs coding agents. A project has features, a feature has tasks;
-- the orchestrator dispatches a worker on the next task of each feature that is ready, in a worktree
-- with a port of its own; a feature whose work is done goes to the gate, where
-- deterministic checks, reviews and a human decide on its merge. What blocks is an alert.
--
-- The store is SQLite. A table is the list of its rows (Prelude/Tables: select, delete, update), a
-- transaction is the function that gives the store after it, and the constraints that the code relies
-- on are written out where a row is inserted. An id, a time, the answer of a probe and the order in
-- which workers end are arguments. A call that raises gives a value that says so.
--
-- What models what, by the paths of the repository:
--   Prelude               shared names, Boolean tests, lists over native numbers, tables, texts
--   Core/Ids              src/forgemaster/core/ids.py: is_slug, ensure_slug
--   Roadmap/Rows          src/forgemaster/db/schema.py and the reads of roadmap/model.py
--   Roadmap/Resolver      src/forgemaster/roadmap/resolver.py; the engine taskmap is a parameter
--   Roadmap/Model         src/forgemaster/roadmap/model.py: add_feature, set_feature_deps, add_task,
--                         set_task_deps
--   Db/Alerts             src/forgemaster/db/alerts.py: emit_alert, resolve_alerts, ack_alert
--   Dispatch/Ports        src/forgemaster/dispatch/ports.py: free_port, reserve, release
--   Dispatch/Jobs         src/forgemaster/dispatch/jobs.py: record_start, record_pid, record_finish
--   Dispatch/Reconcile    src/forgemaster/dispatch/reconcile.py: mark_job_orphan, reconcile_orphans
--   Dispatch/Worktree     src/forgemaster/dispatch/worktree.py: reserve, audit
--   Dispatch/Worker       src/forgemaster/dispatch/worker.py: _run_worker, dispatch_next
--   Dispatch/Orchestrator src/forgemaster/dispatch/orchestrator.py: _discoverable_features, the loop of
--                         run_project (Drain), of run_feature (Single), the summary (Summary)
--   Dispatch/Cost         src/forgemaster/dispatch/cost.py
--   Dispatch/Finalize     src/forgemaster/dispatch/orchestrator.py: finalize_feature
--   Dispatch/Refix        src/forgemaster/dispatch/refix.py: dispatch_refix
--   Dispatch/Redrain      src/forgemaster/dispatch/redrain.py: redrain_feature
--   Gate/Decision         src/forgemaster/gate/merge.py: compose_merge_decision, blocker_tier
--   Gate/Merge            src/forgemaster/gate/merge.py: evaluate_gate, run_merge
--   Gate/Review           src/forgemaster/gate/review.py: build_verdict and its guard, status
--   Gate/Toolchain        src/forgemaster/gate/toolchain.py: triggers, run_toolchain, status
--   Update/Base64         the base64 of src/forgemaster/update_channel.py and channel_publish.py
--   Update/TrustRoot      src/forgemaster/update_channel.py: trust_root, key_id
--   Update/Envelope       src/forgemaster/update_channel.py: parse_envelope, verify_envelope
--   Update/Announce       src/forgemaster/update_channel.py: parse_announce, situate
--   Update/Refresh        src/forgemaster/update_channel.py: fetch, refresh, verdict, the state file
--   Update/Publish        src/forgemaster/channel_publish.py
--   Update/Apply          src/forgemaster/apply_update.py: apply, rollback
--   Update/Wheels         src/forgemaster/update.py: stage_wheel, prune_wheels
--   Update/Preflight      src/forgemaster/update.py: preflight, preflight_rollback, aptitude,
--                         _preflight_service (Service), _cible_utilisable (Target),
--                         survey_updates_in_flight (Surveys)
--   Update/Runs           src/forgemaster/update.py: run_state, list_runs, spawn (Spawn)
--   Update/Health         src/forgemaster/apply_update.py: _wait_health
--   Update/Snapshots      src/forgemaster/snapshot.py: _purge, and the guard of apply_update.py
--   Snapshot              src/forgemaster/snapshot.py: _restorability, list_snapshots, the journals of
--                         the runs (Journals); restore.py: check_compatibility (Compatibility)
--   Projects/Authority    src/forgemaster/projects/authority.py
--   Git/Sync              src/forgemaster/git/internal.py: remote_divergence
--   Git/Reconcile         src/forgemaster/git/internal.py: reconcile, sync_tracking, merge_ff
--   Db/Outcomes           src/forgemaster/db/merge_outcomes.py
--   Db/Proposals          src/forgemaster/db/proposals.py and update_proposals.py
--   Secrets               src/forgemaster/secrets/file_store.py
--   Terminal/Session      src/forgemaster/terminal/registry.py: PtySession, PtySessionRegistry
--   Examples              the theorems at concrete inputs, and runs of the code
--
-- How they interact: the drain submits what the resolver finds ready; a worker's run starts and ends a
-- job and moves its task; a reconciliation ends the jobs whose worker is gone. The gate reads the
-- status of the toolchain and of the reviews; the merge releases the worktree and its port, closes the
-- tasks and resolves the alerts.
--
-- A publisher signs the announce of an edition; an instance fetches it, verifies it against its trust
-- root, situates itself and notes a proposal, which its user answers. An update moves the stable link and
-- the data.
--
-- Before an update or a way back, a preflight reads the unit of the service, the work of the projects
-- (which reads the distance of each to its mirror), the jobs and the runs; the way back chooses a snapshot
-- and the environment that reads it from the list of the snapshots and the journals of the runs. A launch
-- makes the directory of a run, which the next preflight reads. A reconciliation moves the branches of a
-- project and of its mirror forward, the one to the other.
--
-- Loops: the loop of `reserve` runs its five rounds, the scan of the ports one round for each port of
-- the range. The loop of a drain has no bound in the code that a model can read off: it is the list of
-- the rounds that it makes, of any length, and so is the loop of one feature; each round that
-- goes on brings it on. The wait for an instance has one unit of fuel for each millisecond that is left,
-- and one more.
--
-- Parameters: SHA-256, Ed25519, Fernet, the addition of doubles and the JSON printer and parser, with
-- what is relied on as hypotheses.
--
-- Not modelled: git itself (a reference is a commit, and what it reaches is a parameter), processes,
-- signals, files and HTTP, whose outcomes are arguments; the prompts and the messages, except for the
-- values that they show; the journals that are written for their trace.
-- Nor are the readers of the workers' transcripts, the end-to-end proofs and the provisioning, which are
-- parsers and glue around the parts above.
mod Prelude
pub mod Core
pub mod Dispatch
pub mod Gate
pub mod Db
pub mod Roadmap
pub mod Terminal
pub mod Update
pub mod Secrets
pub mod Snapshot
pub mod Git
pub mod Projects
mod Examples
