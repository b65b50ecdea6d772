-- ===== src/Connection/Input/Tests.antt =====
-- A read event of poll_default_linux.go on a connection whose input buffer is new.
use netpoll.Base.{ℕ, zero, suc, false, List, [], ◌∷◌}
use netpoll.LinkBuffer.Writer.{new_link_buffer}
use netpoll.Connection.Input.{Receiver}

-- An allocator that gives `n` bytes.
abbrev ones : ℕ → List ℕ
ones zero = []
ones (suc n) = 1 ∷ ones n

-- A reader waits for two bytes, and five arrive.
abbrev waiting : Receiver
waiting = record {
  input = new_link_buffer ones 4 8;
  book_size = 4;
  max_size = 8;
  wait_read_size = 2;
  triggered = false;
}

abbrev five : List ℕ
five = 1 ∷ 2 ∷ 3 ∷ 4 ∷ 5 ∷ []
