-- ===== src/Tests.antt =====
-- Concrete runs: the store that the tests use, and the theorems at concrete inputs.
pub mod Demo
pub mod Kvs
pub mod Ctx
pub mod Dbs
pub mod Executor
pub mod Keys
pub mod Definitions
pub mod Array
pub mod Iterator
pub mod Session
pub mod Statements
pub mod Doc
pub mod Denied
pub mod Iterate
pub mod Value
