-- ===== src/Kv.antt =====
-- The packages under kv/: prefixes of byte keys, transactions and locks over a key value store.
pub mod Locker
pub mod NextPrefix
pub mod Interface
pub mod Db
pub mod Memory
pub mod BadgerTx
pub mod TikvTx
pub mod Streams
mod Tests
