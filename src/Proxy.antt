-- ===== src/Proxy.antt =====
-- client_server/uthash/src/server.c and client_server/tcp/src/server.c: echo servers, the first
-- with a table of the requests that it has not answered.
pub mod Api
pub mod Server
pub mod Stream
pub mod Listener
pub mod Client
mod Tests
