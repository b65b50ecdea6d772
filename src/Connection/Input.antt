-- ===== src/Connection/Input.antt =====
-- connection_reactor.go, `inputs` and `inputAck`, and the poller's read event (poll_default_linux.go)
-- that calls them. `arrived` are the bytes that the kernel holds; it reads as many as fit into the
-- slice. `requests` is what `onRequest` returns: whether the one who waits is to be woken.
pub mod Round
mod Tests
use netpoll.Base.{
  ℕ, ◌*◌, Bool, true, ◌&&◌, Option, none, some, List, ltb, leb, ◌==◌, if◌then◌else◌, ◌>>=◌, length,
  take,
}
use netpoll.LinkBuffer.State.{LinkBuffer, Outcome, ok, err, panic}
use netpoll.LinkBuffer.Reader.{malloc_max}
use netpoll.LinkBuffer.Writer.{fill}
use netpoll.LinkBuffer.Book.{book, book_ack}

-- The input side of a connection; `triggered` tells whether `readTrigger` holds a message.
pub record Receiver : Type 0 where
  pub input : LinkBuffer
  pub book_size : ℕ
  pub max_size : ℕ
  pub wait_read_size : ℕ
  pub triggered : Bool

abbrev pub result : {A : Type 0} → Outcome A → Option A
result (ok a) = some a
result _ = none

-- `bookSize <<= 1`
abbrev pub next_book_size : ℕ → ℕ → ℕ
next_book_size n size = if (n == size) && ltb size malloc_max then size * 2 else size

-- `maxSize`, where `length` bytes are in the buffer.
abbrev pub next_max_size : ℕ → ℕ → ℕ
next_max_size length size =
    let grown = if ltb size length then length else size in
    if ltb malloc_max grown then malloc_max else grown

-- The end of `inputAck`
unfoldable pub wake : Bool → ℕ → ℕ → Receiver → Receiver
wake requests n length s =
    let needs = if length == n then requests else true in
    if needs && leb s.wait_read_size length then record s { triggered = true } else s

-- `inputAck`. Of a negative `n` it does what it does of 0.
unfoldable pub input_ack : Bool → ℕ → Receiver → Option Receiver
input_ack requests n s = do
  (length, b) ← result (book_ack n s.input)
  some (
      if n == 0
      then record s { input = b }
      else wake requests n length (record s {
        input = b;
        book_size = next_book_size n s.book_size;
        max_size = next_max_size length s.max_size;
      }))

module _ (alloc : ℕ → List ℕ) (link_buffer_cap : ℕ) where
  -- `inputs`: the offset and the size of the slice.
  unfoldable pub inputs : Receiver → Option ((ℕ × ℕ) × Receiver)
  inputs s = do
    (slice, b) ← result (book alloc link_buffer_cap s.book_size s.max_size s.input)
    some (slice, record s { input = b })

  -- The read event of the poller
  unfoldable pub read_event : Bool → List ℕ → Receiver → Option Receiver
  read_event requests arrived s = do
    ((at, l), s1) ← inputs s
    let q = take l arrived
    b ← fill at q s1.input
    input_ack requests (length q) (record s1 { input = b })
