-- ===== src/Million.antt =====
-- how-to-receive-a-million-packets: the threads of udpreceiver1.c and udpsender.c. Their net.c is the file that `Net`
-- models.
pub mod Receiver
pub mod Sender
pub mod Stream
mod Tests
