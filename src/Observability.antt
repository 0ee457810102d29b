-- ===== src/Observability.antt =====
-- magent2/observability: redaction and the increments of metrics (__init__.py), the index (index.py).
pub mod Redact
pub mod Kept
pub mod Index
pub mod Capped
pub mod Checks
use magent.Prelude.{Text, List}

-- One call of `Metrics.increment(name, labels)`.
pub record Metric : Type 0 where
  pub name : Text
  pub labels : List (Text × Text)
