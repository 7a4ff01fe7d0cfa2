-- ===== src/Lib.antt =====
-- A model of vishwakarma, an agent that investigates infrastructure alerts, with proofs about the
-- parts that decide what it runs, how often, with which key and on whose behalf.
--
-- How the parts interact. An alert is let through by a lock (storage/dedup.py) and by the window
-- of its alert name (storage/queries.py), and becomes a durable job (storage/investigations.py).
-- The engine (core/engine.py) picks the toolsets of the question (core/tool_selection.py), asks a
-- language model for tool calls through chains of models (core/llm.py) with a key of the pool
-- (core/keypool.py), has each call judged by the loop guard (core/safeguards.py) and the approval
-- policy, answers every call, and shortens its conversation when it grows too long
-- (core/compaction.py). It looks at each step whether a user has aborted the job (core/aborts.py).
-- Its calls run a tool (core/tools.py), among them the shell (plugins/toolsets/bash/bash.py), and
-- what each tool was good for is counted (storage/tool_effectiveness.py). Its events go to the
-- subscribers of the event bus (core/eventbus.py). A confirmed cause is kept as a pattern
-- (storage/patterns.py), which is replayed at the next alert; runbooks (storage/runbooks.py) are
-- found for an alert by core/runbook_match.py, the facts learned so far by core/learnings.py, and
-- samples of evidence tell whether an incident is over (storage/evidence.py). An alert of an
-- entity under investigation joins it (core/correlation.py); any other is routed
-- (core/cloud_router.py) to the stream of its cloud (core/jobstream.py), off which a worker
-- (executor.py) takes the jobs; the halves of a job for both clouds are put together by one worker
-- (core/cross_cloud.py). A job whose worker no longer beats is resumed from its checkpoint by the
-- reaper (server.py). The agent is scored on incidents of known cause by core/eval_harness.py. A
-- fix that the engine proposes is scored (core/fix_scorer.py). The health of the toolsets
-- (core/toolset_manager.py) is kept in a cache (utils/cache.py).
--
-- Files. Each names its source at the top; paths are from the package vishwakarma/.
--   Prelude: shared names; Prelude/Dict is Python's dict with text keys, in insertion order.
--   Core/Models: core/models.py. Core/Safeguards: core/safeguards.py (`is_allowed`, `reset`).
--   Core/Conversation: the message dicts. Core/Compaction: core/compaction.py, a function each.
--   Core/Engine: core/engine.py. Engine/Checks is the pre-check of the calls of a step,
--   Engine/Outputs `_compress_tool_outputs`, Engine/State the variables of `investigate`,
--   Engine/Steps and Engine/Loop its loop; Engine/Stream is `stream_investigate`, with its checks
--   in Stream/Chunks, the taking in of results in Stream/Gather and its loop in Stream/Rounds.
--   Core/ToolSelection: core/tool_selection.py. Core/Llm: the chains and the fallback of core/llm.py.
--   Core/Aborts: core/aborts.py. Core/KeyPool: core/keypool.py (`get`, `penalize`).
--   Core/FixScorer: core/fix_scorer.py (`score_fix`). Core/EventBus: core/eventbus.py.
--   Core/Correlation: core/correlation.py. Core/CloudRouter: core/cloud_router.py.
--   Core/CrossCloud: core/cross_cloud.py. Core/JobStream: `enqueue` of core/jobstream.py.
--   Core/Tools: `ToolExecutor` of core/tools.py, the `execute` that the engine calls.
--   Core/ToolsetManager: `check_all` and the lookups of core/toolset_manager.py.
--   Core/EvalHarness: core/eval_harness.py.
--   Core/Learnings: core/learnings.py and the table of storage/site_content.py.
--   Core/RunbookMatch: core/runbook_match.py. Storage/Runbooks: storage/runbooks.py.
--   Storage/Dedup: storage/dedup.py. Storage/Investigations: storage/investigations.py and the
--   UPDATE of `abort_investigation` in ui/console_api.py. Storage/Patterns: storage/patterns.py.
--   Storage/Queries: storage/queries.py. Storage/Evidence: storage/evidence.py.
--   Storage/ToolEffectiveness: storage/tool_effectiveness.py. Utils/Cache: utils/cache.py.
--   Plugins/Bash: plugins/toolsets/bash/bash.py, its rules in Bash/Rules, its session in Bash/Shell.
--   Server/Reaper: the reaper of orphaned jobs in server.py.
--   Executor: executor.py (`_loop`, `_run_job`) and `ack` of core/jobstream.py.
-- Below each stand its proofs, named for what they prove, and its tests and instances (Tests).
--
-- Conventions. A method of an object, or a function that writes module state, returns the new
-- state beside its result. A clock reading is a natural number of seconds and an argument. A lock
-- held with `with` makes a function one step, so that concurrent calls are sequences of steps. The
-- lock of the database is one of the process: for workers of several processes that share a Postgres
-- server, what is proved of the tables holds as long as their calls do not overlap.
-- Log lines are left out. A message that is only shown is a constructor with what it is made of.
-- Loops recur on the list that they go through, or on the rounds left. The loop over a chain of
-- models, which may go back to a model, takes as fuel two turns for each model and one more.
--
-- Not modelled: the calls of Slack, of the language model's servers, of the tools' servers and of
-- the databases, which are parameters where they are used, the assembling of streamed answers, the
-- sub-agents and the prompts, and the web server, the console and the reports.
pub mod Prelude
pub mod Executor
pub mod Core
pub mod Storage
pub mod Utils
pub mod Plugins
pub mod Server
