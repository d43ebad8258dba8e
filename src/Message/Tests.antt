-- ===== src/Message/Tests.antt =====
-- A message of five bytes.
use diversity.Prelude.{◌≡◌, refl, codes}
use diversity.Message.{message_length, message_size}

hello_length : message_length record { length_field = message_size 5; content = codes "hello" } ≡ 5
unfolding message_length
hello_length = refl
