-- ===== src/Net.antt =====
-- fast_leveldb/src/net.c and the macros of fast_leveldb/include/common.h. `FATAL` and `PFATAL` end the program:
-- the result is then their reason.
pub mod Result
pub mod Numbers
pub mod Addr
pub mod Sockets
pub mod Receiver
pub mod Sender
mod Tests
