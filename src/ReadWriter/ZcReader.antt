-- ===== src/ReadWriter/ZcReader.antt =====
-- nocopy_readwriter.go: `zcReader`, which reads from an io.Reader through a LinkBuffer.
-- What the io.Reader's `Read` leaves in the 4096 bytes of its slice, and what it returns, is data. With
-- none left, the next `Read` does not return, and `none` is the result.
pub mod Stream
mod Tests
use netpoll.Base.{
  ℕ, zero, suc, Bool, Option, none, some, List, [], ◌∷◌, leb, if◌then◌else◌, ◌>>=◌, length, ℤ, pos,
  negsuc,
}
use netpoll.LinkBuffer.State.{LinkBuffer, Outcome, ok, err, panic, Error}
use netpoll.LinkBuffer.Reader.{next, peek, read_binary, read_byte}
use netpoll.LinkBuffer.Writer.{malloc, fill, malloc_ack, flush}
use netpoll.Connection.Input.{result}

abbrev pub block4k : ℕ
block4k = 4096

abbrev pub max_read_cycle : ℕ
max_read_cycle = 16

-- The errors of `waitRead`; `io.EOF` and the exception that it becomes are one. `other` is any other
-- error of the io.Reader.
pub data ReadError : Type 0 where
  eof negative_count other : ReadError

-- One `Read`: the slice after it, and `num, err`.
pub record Given : Type 0 where
  pub slice : List ℕ
  pub num : ℤ
  pub fails : Option ReadError

pub record ZcReader : Type 0 where
  pub buf : LinkBuffer
  pub reads : List Given

-- `num = 0` where it is negative
abbrev pub count : ℤ → ℕ
count (pos n) = n
count (negsuc _) = 0

abbrev pub failure : ℤ → Option ReadError → Option ReadError
failure (negsuc _) none = some negative_count
failure _ e = e

-- What a loop goes on with, unless there is an error.
abbrev pub unless_failed :
    (ZcReader → Option (Option ReadError × ZcReader))
    → Option ReadError × ZcReader
    → Option (Option ReadError × ZcReader)
unless_failed go (some e, r) = some (some e, r)
unless_failed go (none, r) = go r

-- What a method gives: its result, an error of `waitRead`, or an error of the buffer's method.
pub data Served {ℓ} (A : Type ℓ) : Type ℓ where
  served : A → ZcReader → Served A
  not_filled : ReadError → ZcReader → Served A
  refused : Error → Served A

abbrev pub serve : {A : Type 0} → List Given → Outcome (A × LinkBuffer) → Option (Served A)
serve gs (ok (a, b)) = some (served a (record { buf = b; reads = gs }))
serve gs (err e) = some (refused e)
serve gs panic = none

abbrev pub when_filled :
    {A : Type 0}
    → (LinkBuffer → Outcome (A × LinkBuffer))
    → Option ReadError × ZcReader
    → Option (Served A)
when_filled method (some e, r) = some (not_filled e r)
when_filled method (none, r) = serve r.reads (method r.buf)

module _ (alloc : ℕ → List ℕ) (link_buffer_cap : ℕ) where
  -- The body of the loop of `fill`
  unfoldable pub fill_once : LinkBuffer → List Given → Option (Option ReadError × ZcReader)
  fill_once b [] = none
  fill_once b (g ∷ gs) = do
    (at, b1) ← result (malloc alloc link_buffer_cap (pos block4k) b)
    b2 ← fill at g.slice b1
    b3 ← result (malloc_ack (pos (count g.num)) b2)
    b4 ← result (flush alloc link_buffer_cap b3)
    some (failure g.num g.fails, record { buf = b4; reads = gs })

  -- The loop of `fill`, at most `i` times
  unfoldable pub fill_cycles : ℕ → ℕ → ZcReader → Option (Option ReadError × ZcReader)
  fill_cycles zero n r = some (none, r)
  fill_cycles (suc i) n r =
      if leb n r.buf.length
      then some (none, r)
      else (fill_once r.buf r.reads >>= unless_failed (λ r'. fill_cycles i n r'))

  -- `waitRead`, at most `fuel` calls of `fill`
  unfoldable pub wait_fill : ℕ → ℕ → ZcReader → Option (Option ReadError × ZcReader)
  wait_fill zero n r = none
  wait_fill (suc fuel) n r =
      if leb n r.buf.length
      then some (none, r)
      else (fill_cycles max_read_cycle n r >>= unless_failed (λ r'. wait_fill fuel n r'))

  -- `Next`, `Peek`, `ReadString`, `ReadBinary` of `n`, not negative: `waitRead`, and then the buffer's method. Each `fill`
  -- takes at least one `Read`.
  unfoldable pub zc_serve :
      {A : Type 0} → (LinkBuffer → Outcome (A × LinkBuffer)) → ℕ → ZcReader → Option (Served A)
  zc_serve method n r = wait_fill (suc (length r.reads)) n r >>= when_filled method

  unfoldable pub zc_next : ℕ → ZcReader → Option (Served (List ℕ))
  unfolding zc_serve
  zc_next n r = zc_serve (next (pos n)) n r

  -- `ReadBinary` and `ReadString`, which differ in what they return with an error.
  unfoldable pub zc_read_binary : Bool → ℕ → ZcReader → Option (Served (List ℕ))
  unfolding zc_serve
  zc_read_binary always_nocopy_read n r = zc_serve (read_binary always_nocopy_read (pos n)) n r

  unfoldable pub zc_peek : ℕ → ZcReader → Option (Served (List ℕ))
  unfolding zc_serve
  zc_peek n r = zc_serve (peek alloc (pos n)) n r

  unfoldable pub zc_read_byte : ZcReader → Option (Served ℕ)
  unfolding zc_serve
  zc_read_byte r = zc_serve read_byte 1 r
