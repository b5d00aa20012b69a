-- ===== src/Kvs.antt =====
-- lib/src/kvs: the key-value store behind a query.
pub mod Engine
pub mod Mem
pub mod Cache
pub mod Order
pub mod Find
pub mod Gone
pub mod Laws
pub mod Batch
pub mod Definitions
pub mod Tx
