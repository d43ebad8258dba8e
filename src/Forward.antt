-- ===== src/Forward.antt =====
-- client_server/dpdk/src/basicfwd.c: a forwarder that answers ARP and ICMP echo requests.
pub mod Packet
pub mod Burst
pub mod Start
mod Tests
