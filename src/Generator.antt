-- ===== src/Generator.antt =====
-- dpdk/gen_packet/main.c: a generator of Paxos messages, its statistics and its start.
pub mod Packet
pub mod Batch
pub mod Timer
pub mod Start
mod Tests
