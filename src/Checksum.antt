-- ===== src/Checksum.antt =====
-- checksum/main.c: the checksum of the IP header, and the packets of `paxos_send`. raw_socket/main.c has the same
-- functions over a shorter datagram.
pub mod Csum
pub mod Send
mod Tests
