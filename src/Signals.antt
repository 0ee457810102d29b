-- ===== src/Signals.antt =====
-- magent2/tools/signals/impl.py: signals between agents over the bus.
pub mod Send
pub mod Sent
pub mod Published
pub mod Receive
pub mod Wait
pub mod Many
pub mod Later
pub mod Found
pub mod Ends
pub mod Any
pub mod Gather
pub mod Return
pub mod Checks
