-- ===== src/Terminal.antt =====
-- magent2/tools/terminal/tool.py: the policy under which a command runs.
pub mod Policy
pub mod Guarded
pub mod Capped
pub mod Checks
