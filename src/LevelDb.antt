-- ===== src/LevelDb.antt =====
-- fast_leveldb: a UDP server of puts, gets and deletes over a LevelDB database.
pub mod Start
pub mod Api
pub mod Deliver
pub mod Receiver
pub mod Sender
mod Tests
