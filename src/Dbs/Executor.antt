-- ===== src/Dbs/Executor.antt =====
-- lib/src/dbs/executor.rs: the loop over the statements of a query.
-- `State` holds the executor's fields, its local variables and what it reaches (store, clock,
-- flags). `unreachable!()` is a panic. A transaction is shared with the statement that runs on it by
-- an `Arc<Mutex<_>>`: the statement returns it, and the executor holds what came back.
pub mod State
pub mod Run
pub mod Block
pub mod Single
pub mod Panic
