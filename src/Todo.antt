-- ===== src/Todo.antt =====
-- magent2/tools/todo: the task type (models.py), the Redis store (redis_store.py) and the tools over
-- it (tools.py).
pub mod Store
pub mod Laws
pub mod Crud
pub mod Tools
pub mod Replies
pub mod Checks
