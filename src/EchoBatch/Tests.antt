-- ===== src/EchoBatch/Tests.antt =====
-- The theorem at two datagrams.
use diversity.Prelude.{ℕ, replicate}
use diversity.EchoBatch.{ServerContext, Message}

abbrev datagram : ℕ → Message
datagram n = record { msg_len = n; buf = replicate 129 7 }

abbrev quiet : ServerContext
quiet = record { at_second = 3; message_per_second = 1 }
