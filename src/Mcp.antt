-- ===== src/Mcp.antt =====
-- magent2/tools/mcp: tools that other processes offer over standard input and output.
pub mod Frame
pub mod Decimal
pub mod RoundTrip
pub mod Config
pub mod Gateway
pub mod Calls
pub mod Exposed
pub mod Checks
