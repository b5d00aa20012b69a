-- ===== src/Dbs.antt =====
-- lib/src/dbs: sessions, options, the query executor and the result iterator.
pub mod Auth
pub mod Session
pub mod Options
pub mod Response
pub mod Executor
pub mod Iterator
pub mod Walk
pub mod Iterate
