-- ===== src/Rocks.antt =====
-- rocksdb_playground: a command shell over a RocksDB database.
pub mod Api
pub mod Store
pub mod Line
pub mod Commands
pub mod Shell
