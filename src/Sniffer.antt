-- ===== src/Sniffer.antt =====
-- libpcap/sniffex.c: the callback that takes packets apart and prints them.
pub mod Rows
pub mod Packet
pub mod Capture
mod Tests
