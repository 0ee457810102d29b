-- ===== src/Team.antt =====
-- magent2/team/registry.py: the registry of agents and the owners of paths.
pub mod Glob
pub mod Registry
pub mod Order
pub mod Owner
pub mod Checks
