-- ===== src/LinkBuffer/Book.antt =====
-- nocopy_linkbuffer.go: `book`, `bookAck`, `calcMaxSize` and `resetTail`, by which the poller
-- reads into a LinkBuffer.
pub mod Input
pub mod Round
pub mod Tail
use netpoll.Base.{
  ℕ, ◌+◌, ◌-◌, Option, none, some, List, [], ◌∷◌, ltb, leb, ◌==◌, if◌then◌else◌, ◌>>=◌, get_elem?,
  set, take, pos,
}
use netpoll.LinkBuffer.Node.{Node, cap, node_malloc}
use netpoll.LinkBuffer.State.{LinkBuffer, Outcome, or_panic, recal_len}
use netpoll.LinkBuffer.Writer.{pagesize, splice, new_node}

module _ (alloc : ℕ → List ℕ) (link_buffer_cap : ℕ) where
  -- A write node without room is followed by a new one of `maxSize`.
  unfoldable pub book_tail : ℕ → LinkBuffer → Option (ℕ × LinkBuffer)
  book_tail max_size b = do
    nd ← get_elem? b.nodes b.write
    some (
        if cap nd - nd.malloc == 0
        then (
          max_size,
          record b {
            nodes = splice (b.write + 1) b.nodes (new_node alloc link_buffer_cap max_size ∷ []);
            write = b.write + 1;
          },
        )
        else (cap nd - nd.malloc, b))

  -- `book`: the offset in the write node and the size of the slice that is handed out.
  unfoldable pub book : ℕ → ℕ → LinkBuffer → Outcome ((ℕ × ℕ) × LinkBuffer)
  unfolding book_tail
  book book_size max_size b = or_panic (do
    (room, b') ← book_tail max_size b
    let l = if ltb book_size room then book_size else room
    nd ← get_elem? b'.nodes b'.write
    (at, nd') ← node_malloc l nd
    some ((at, l), record b' { nodes = set b'.nodes b'.write nd' }))

  -- `resetTail`
  unfoldable pub reset_tail : ℕ → LinkBuffer → LinkBuffer
  reset_tail max_size b = if leb max_size pagesize then b else record b {
    nodes = splice (b.write + 1) b.nodes (new_node alloc link_buffer_cap 0 ∷ []);
    write = b.write + 1;
    flush = b.write + 1;
  }

-- `bookAck`, which also returns the new length.
unfoldable pub book_ack : ℕ → LinkBuffer → Outcome (ℕ × LinkBuffer)
book_ack n b = or_panic (do
  nd ← get_elem? b.nodes b.write
  let b' = recal_len (pos n) (record b {
    nodes = set b.nodes b.write (record nd { malloc = n + nd.len; len = n + nd.len });
    flush = b.write;
  })
  if leb (n + nd.len) (cap nd) then some (b'.length, b') else none)

-- `calcMaxSize`
unfoldable pub sum_len : List Node → ℕ
sum_len [] = 0
sum_len (nd ∷ nds) = nd.len + sum_len nds

unfoldable pub calc_max_size : LinkBuffer → Option ℕ
calc_max_size b = do nd ← get_elem? b.nodes b.read; some (sum_len (take b.read b.nodes) + nd.len)
