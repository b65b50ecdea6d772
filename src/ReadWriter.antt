-- ===== src/ReadWriter.antt =====
-- nocopy_readwriter.go: `zcWriter.Flush`, `ioReader.Read` and `ioWriter.Write`, which join
-- LinkBuffers with io.Reader and io.Writer.
-- The writer behind a `zcWriter` takes `n` bytes of those that it is given, at most all.
pub mod Laws
pub mod ZcReader
mod Tests
use netpoll.Base.{
  ℕ, Option, none, some, List, [], ◌++◌, ltb, ◌==◌, if◌then◌else◌, ◌>>=◌, length, take, pos,
}
use netpoll.LinkBuffer.State.{LinkBuffer, Outcome, ok, err, panic, Error}
use netpoll.LinkBuffer.Reader.{next, release}
use netpoll.LinkBuffer.Writer.{malloc, fill, flush}
use netpoll.LinkBuffer.Output.{bytes}
use netpoll.Connection.Output.{drop_sent}

-- What `ioReader.Read` comes to: bytes for the caller's slice, io.EOF, or another error.
pub data IoRead : Type 0 where
  got : List ℕ → LinkBuffer → IoRead
  eof : IoRead
  read_failed : Error → IoRead

abbrev pub read_released : List ℕ → Outcome LinkBuffer → Option IoRead
read_released src (ok b) = some (got src b)
read_released src (err e) = some (read_failed e)
read_released src panic = none

abbrev pub read_release : Outcome (List ℕ × LinkBuffer) → Option IoRead
read_release panic = none
read_release (err e) = some (read_failed e)
read_release (ok (src, b)) = read_released src (release b)

-- `ioReader.Read` into a slice of `l` bytes
unfoldable pub io_read : ℕ → LinkBuffer → Option IoRead
io_read l b =
    let l' = if ltb b.length l then b.length else l in
    if l == 0 then some (got [] b) else if l' == 0 then some eof else read_release (next (pos l') b)

-- A `zcWriter`, with what the writer behind it has taken.
pub record ZcWriter : Type 0 where
  pub buf : LinkBuffer
  pub sink : List ℕ

module _ (alloc : ℕ → List ℕ) (link_buffer_cap : ℕ) where
  abbrev pub flushed : Outcome LinkBuffer → Option LinkBuffer
  flushed (ok b) = some b
  flushed _ = none

  -- `zcWriter.Flush`
  unfoldable pub zc_flush : ℕ → ZcWriter → Option ZcWriter
  zc_flush n w = do
    b ← flushed (flush alloc link_buffer_cap w.buf)
    p ← bytes b
    let sent = take n p
    (_, b') ← drop_sent (length sent) b
    some (record { buf = b'; sink = w.sink ++ sent })

  abbrev pub copied : List ℕ → Outcome (ℕ × LinkBuffer) → Option LinkBuffer
  copied p (ok (at, b)) = if length p == 0 then some b else fill at p b
  copied p _ = none

  -- `ioWriter.Write` to a LinkBuffer
  unfoldable pub io_write : List ℕ → LinkBuffer → Option LinkBuffer
  io_write p b = do
    b' ← copied p (malloc alloc link_buffer_cap (pos (length p)) b)
    flushed (flush alloc link_buffer_cap b')
