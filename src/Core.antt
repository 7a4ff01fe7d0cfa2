-- ===== src/Core.antt =====
-- The package vishwakarma/core.
pub mod Models
pub mod Safeguards
pub mod Conversation
pub mod Compaction
pub mod Engine
pub mod EventBus
pub mod Tools
pub mod CrossCloud
pub mod Correlation
pub mod JobStream
pub mod CloudRouter
pub mod KeyPool
pub mod FixScorer
pub mod ToolSelection
pub mod Learnings
pub mod Llm
pub mod RunbookMatch
pub mod Aborts
pub mod ToolsetManager
pub mod EvalHarness
