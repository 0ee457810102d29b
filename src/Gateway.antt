-- ===== src/Gateway.antt =====
-- magent2/gateway/app.py: the size limit of server-sent events, and POST /send.
pub mod Sse
pub mod Fits
pub mod Send
pub mod Sent
pub mod Outcome
pub mod Checks
