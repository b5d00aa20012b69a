-- ===== src/Sql.antt =====
-- lib/src/sql: the values of the language, its statements and the definitions that they make.
pub mod Array
pub mod Value
pub mod Permission
pub mod Run
pub mod Definition
pub mod Escape
pub mod Statements
