-- ===== src/Sql/Statements.antt =====
-- lib/src/sql/statements: the statements that change or describe definitions. `ctx` and `doc` are not
-- used by them but for the UPDATE that follows a DEFINE, which is a parameter.
pub mod Selected
pub mod Define
pub mod Remove
pub mod Info
pub mod Live
