-- ===== src/Plugins/Bash.antt =====
-- vishwakarma/plugins/toolsets/bash/bash.py: Rules decides which commands run, Shell reads what the
-- one bash process writes, and Toolset is the tool that the engine calls.
pub mod Rules
pub mod Shell
pub mod Toolset
mod Clean
mod Framing
mod Unnamed
mod Tests
