-- ===== src/Bus.antt =====
-- magent2/bus: the message type of interface.py, the topics of utils.py and the Redis adapter.
pub mod Topics
pub mod Redis
pub mod Group
pub mod Checks
use magent.Prelude.{Text}
use magent.Json.{Value}

-- `payload` is a dict where the program publishes; a stored payload may decode to any JSON value.
pub record BusMessage : Type 0 where
  pub topic : Text
  pub payload : Value
  pub id : Text
