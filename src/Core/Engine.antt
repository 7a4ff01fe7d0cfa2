-- ===== src/Core/Engine.antt =====
-- vishwakarma/core/engine.py: the loop of an investigation. Its parts are in the modules below:
-- Checks judges the tool calls of a step, Outputs compresses what the tools returned, State
-- holds the variables of a run, Steps runs and answers the calls, and Loop puts the steps together.
pub mod Checks
pub mod Outputs
pub mod State
pub mod Steps
pub mod Loop
pub mod Stream
mod Rulings
mod Approval
mod Pairing
mod Answers
mod Replies
mod Calls
mod Tests
