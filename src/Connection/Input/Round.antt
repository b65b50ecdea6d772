-- ===== src/Connection/Input/Round.antt =====
-- connection_reactor.go: what a read event of the poller does to a connection.
use netpoll.Base.{ℕ, ◌*◌, ◌≤◌, ◌<◌, ◌≡◌, ◌⊎◌, Bool, true, false, [], length}
use netpoll.LinkBuffer.State.{LinkBuffer, readable}
use netpoll.LinkBuffer.Reader.{malloc_max}
use netpoll.LinkBuffer.Book.Input.{IsInput}
use netpoll.Connection.Input.{Receiver, next_book_size, next_max_size, wake}

-- The sizes by which `inputs` books stay within bounds.
pub record IsReceiver (s : Receiver) : Type 0 where
  pub valid : IsInput s.input
  pub book_pos : 0 < s.book_size
  pub book_lt : s.book_size < malloc_max * 2
  pub max_pos : 0 < s.max_size
  pub max_le : s.max_size ≤ malloc_max

-- A reader that waits for no more than there is now is woken, unless `onRequest` has taken the
-- bytes over, or none have come.
abbrev pub Wakes : Bool → ℕ → Receiver → Receiver → Type 0
Wakes requests n s s' =
    (s'.triggered ≡ true)
    ⊎ ((length (readable s'.input) < s.wait_read_size)
        ⊎ ((n ≡ 0) ⊎ ((requests ≡ false) × (readable s.input ≡ []))))

-- `inputAck` of `n` bytes that have come.
acked : Bool → ℕ → LinkBuffer → Receiver → Receiver
acked requests n b s = wake requests n (length (readable b)) (record s {
  input = b;
  book_size = next_book_size n s.book_size;
  max_size = next_max_size (length (readable b)) s.max_size;
})
