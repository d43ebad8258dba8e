-- ===== src/UdpEcho.antt =====
-- client_server/udp: the server that sends each datagram back, and the client that times its answers.
pub mod Server
pub mod Client
pub mod Exchange
mod Tests
