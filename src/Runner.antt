-- ===== src/Runner.antt =====
-- magent2/runner/openai_agents_runner.py: the adapter between the agents SDK and the worker.
pub mod Sessions
pub mod Recent
pub mod Held
pub mod Lru
pub mod Objects
pub mod Fields
pub mod Texts
pub mod Step
pub mod Tools
pub mod Queues
pub mod Fifo
pub mod Matched
pub mod Lifecycle
pub mod Pairs
pub mod Responses
pub mod Events
pub mod Stream
pub mod Streamed
pub mod Delivery
pub mod Stalled
pub mod Checks
