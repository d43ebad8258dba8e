-- ===== src/Serial.antt =====
-- struct_serialization/src/client.c and struct_serialization/src/server.c: a client and a server that exchange the
-- messages of `Message` over a stream.
pub mod Wire
pub mod Times
pub mod Client
pub mod Server
pub mod Exchange
mod Tests
