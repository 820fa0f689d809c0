-- ===== src/Lib.antt =====
-- The part of Operator that runs coding agents for tasks: who may run a turn, in which order callers
-- get a lock, what becomes of questions, queued messages and the task's row, how the events for a
-- tracker card are delivered, how tasks wait for each other, what becomes of a project's services, how
-- a transcript is shown, and which agents are admitted. The agents, the database, the processes and
-- the network are reached from here only by what the models take as arguments.
--
-- Parts, their files, and the code they follow:
-- - Base, Maps, Sets: names, tests, lists; JavaScript maps and sets keyed by strings, in insertion
--   order.
-- - Turns: lib/abort.ts. The turn slots and the tasks being deleted (claimTurn, handoffTurn,
--   unregisterTurn, abortTurn, beginTaskDeletion, waitForTurnSettlement).
--   An AbortController is a number, and the tripped ones are listed.
-- - Locks, TaskLock, RepoLock: lib/taskLock.ts and lib/repoLock.ts. A call is split at its awaits
--   into arrival, wake-up and end, and a run is any list of these steps. The locked function is
--   whatever happens between a call's start and its end.
-- - Asks: lib/asks.ts. The parked questions, their promises and abort listeners, and the outcomes
--   that a bridge takes (waitForAnswer, submitAnswer, settleAsk, takeAskOutcome).
-- - Pending: the pending_messages table of lib/store.ts (list, add, pop, delete, clear).
-- - World, Runner: lib/runner.ts over the rows of lib/store.ts and the events of lib/events.ts.
--   Runner/Events has the loop and the catch of `run`, Runner/Settle its `finally`, and Runner/Launch
--   startTurn, startResumeTurn and the follow-up that a finished turn starts. Runner/Crash has the
--   `finally` block where a call of it throws by itself, and the `.catch` handlers of the detached turn
--   and of that follow-up. The other modules of Runner hold proofs. A turn uses Turns for its slot and Pending for its queue; between two events
--   of the agent anything else in the process may change the world, by a function of it.
-- - Outbox: lib/workstreams/store.ts and the two tables of lib/db.ts that it writes. Outbox/Changes
--   has the calls that settle a claim, queue an event or change a link. A SELECT reads the list of
--   rows, and an UPDATE with a condition is a test of one row; each call is one transaction.
-- - Worker: lib/workstreams/worker.ts with the result types of lib/workstreams/client.ts. One pass
--   of the worker (runWorkstreamWorkerOnce, eligibleLinksAfterReconciliation, retryDelay), and in
--   Worker/Queueing what it queues. It calls Outbox.
-- - Nav: app/orchestrator/navHistory.ts. The browser history as a list of entries, and Back.
-- - Codex: lib/agents/codex/events.ts (mapThreadEvent), whose events are those that Runner/Events reads;
--   Codex/Rows puts the two together.
-- - Kimi: lib/agents/kimi-code/events.ts (mapKimiCodeEvent). Runner/Landing has what Codex/Rows and
--   Kimi/Answered share: a driver whose results come after their tool events.
-- - Git: lib/git.ts. The commands that git is given are data, and its answers a function of the command
--   and of the repository's state, which is a parameter; a log keeps both. Git/Status has
--   worktreeMergeStatus, worktreePruneSafety and worktreeSyncStatus, Git/Merge mergeTask, and Git/Resolve
--   prepareWorktreeMerge, abortWorktreeMerge and completeWorktreeMerge; the other modules of Git hold
--   proofs. Commands that the source starts together come one after the other, and the making of the
--   folder of throwaway worktrees is left out.
-- - Clear: app/api/tasks/[id]/clear/route.ts, around the summary that the request waits for; it calls
--   Turns and Pending, and meets the `finally` block of Runner.
-- - LaunchConfig: lib/agents/launchConfig.ts (validateLaunchConfiguration, resolvedRunDefault), with
--   getCapabilities of lib/agents/capabilities.ts; the tables of capabilities are arguments.
-- - Routes: the requests under app/api/tasks/[id]. Routes/Send has POST of messages/route.ts, Routes/Stop
--   abort/route.ts and pending/route.ts, Routes/Edit PATCH and Routes/Delete DELETE of route.ts; the other
--   modules of Routes hold proofs. They call Turns, Pending, Deps, LaunchConfig and Runner/Launch. A
--   request is cut at its awaits, and what the rest of the process does there is an argument.
-- - Deps: lib/store.ts, getTaskDeps and setTaskDeps over the task_dependencies table, with the tasks of
--   World. The search for a cycle follows the source's stack.
-- - Services: lib/services.ts. The registry and its objects, the services table and the labels; in
--   Services/Rows the writes to the table, in Services/Lifecycle starting, the handlers of a process,
--   stopping, removing and exposing, in Services/Sharing who may open a service. startService is split
--   at its await into two steps, and Services/Runs takes lists of all these steps in any order.
-- - Transcript: app/orchestrator/workGroups.ts (groupTranscript).
-- - Admission: lib/agents/admission.ts. Admission/Observed has what a trial run gives; the gates, the
--   artifact and the approval are in Admission, sanitizeEvidence in Admission/Evidence.
-- - Tests: runs on concrete inputs.
--
-- Times, ids (nanoid) and claim tokens are arguments. `trim`, the classifiers of failures, the
-- registration of a conversation, the catching up of a branch, the delivery of an event, the answers
-- of the remote side and of git, the reading of JSON and the tables of capabilities are parameters,
-- and no more is assumed of them than a theorem says.
-- Numbers are natural numbers: times are milliseconds, and they stay far below 2 ^ 53.
-- Fuel is used in three places. The polls in waitForTurnSettlement: each sleeps 25 ms, so that
-- `timeout_ms / 25 + 2` of them reach the deadline. The search of setTaskDeps: each turn of its loop
-- takes an element that one edge or one valid id put there, so that one more than their number is
-- enough. The search for a free label: where different numbers make different labels, one of as many as
-- there are rows and one more is free. Each of these is proved. All else is recursion on lists.
--
-- What other requests do while the branch of a resumed task catches up with its base is a function of
-- the world. Not modelled: the artifact publications, titles and peeks of the runner and its work at
-- boot; the checks of payloads, the registration of conversations, the storage reconciliation and the
-- timer of the worker; of the services the restoring at boot, the probe of a port, public addresses
-- and subscriptions; of lib/git.ts the diffs, the making and removing of worktrees, and the parsers of
-- git's output, which are parameters; lib/github.ts, which runs gh; the drivers under lib/agents but for
-- the events of codex and Kimi Code; the rest of lib/store.ts; of the task requests the reading ones,
-- the stream of events and the card completion that an edit queues; the other routes under app/api;
-- the user interface but for Nav and Transcript.
pub mod Base
pub mod Maps
pub mod Sets
pub mod Turns
pub mod Locks
pub mod TaskLock
pub mod RepoLock
pub mod Asks
pub mod Pending
pub mod World
pub mod Outbox
pub mod Worker
pub mod Runner
pub mod Git
pub mod Codex
pub mod Kimi
pub mod Clear
pub mod LaunchConfig
pub mod Routes
pub mod Nav
pub mod Deps
pub mod Services
pub mod Transcript
pub mod Admission
pub mod Tests
