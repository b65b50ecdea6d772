-- ===== src/LinkBuffer/Writer.antt =====
-- nocopy_linkbuffer.go: the zero-copy writer.
-- `alloc n` is what `malloc(0, n)` gets from mcache: a backing array, with any bytes in it.
-- `link_buffer_cap` is the variable `LinkBufferCap`.
pub mod Pending
pub mod Fill
pub mod Malloc
pub mod Binary
pub mod Flush
pub mod Ack
pub mod Reading
use netpoll.Base.{
  ℕ, suc, ◌+◌, ◌-◌, Bool, true, false, ◌||◌, Option, none, some, List, [], ◌∷◌, ◌++◌, map, ltb, leb,
  ◌==◌, if◌then◌else◌, ◌>>=◌, length, get_elem?, set, take, drop, ℤ, pos, negsuc,
}
use netpoll.LinkBuffer.Node.{Node, cap, node_malloc}
use netpoll.LinkBuffer.State.{
  LinkBuffer, Outcome, ok, err, panic, or_panic, malloc_ack_invalid, recal_len,
}

abbrev pub pagesize : ℕ
pagesize = 8192

abbrev pub binary_inplace_threshold : ℕ
binary_inplace_threshold = 4096

-- The chain from the node `w` on is replaced.
abbrev pub splice : ℕ → List Node → List Node → List Node
splice w nodes nds = take w nodes ++ nds

-- A node of `newLinkBufferNode(0)`, whose `buf` is set to `mem[:0]`.
abbrev pub wrap_node : List ℕ → ℕ → Node
wrap_node mem n = record {
  mem = mem;
  len = 0;
  off = 0;
  malloc = n;
  readonly = true;
  nocopy_read = false;
}

-- `WriteDirect`'s and `WriteBinary`'s copy into what `Malloc` returned.
unfoldable pub copy_at : ℕ → List ℕ → List ℕ → List ℕ
copy_at at p mem = take at mem ++ (p ++ drop (at + length p) mem)

-- A node that `growth` passes over: not ours to write in, or without room.
abbrev pub unfit : ℕ → Node → Bool
unfit n nd = nd.readonly || ltb (cap nd - nd.malloc) n

-- A caller's write of `p` at the offset `at` of the write node.
unfoldable pub fill : ℕ → List ℕ → LinkBuffer → Option LinkBuffer
fill at p b = do
  nd ← get_elem? b.nodes b.write
  some (record b { nodes = set b.nodes b.write (record nd { mem = copy_at at p nd.mem }) })

-- `delta > 0` and `node.buf = node.buf[:node.malloc]` of `Flush`
abbrev pub commit : Node → Node
commit nd = if ltb nd.len nd.malloc then record nd { len = nd.malloc } else nd

-- What `Flush` adds up.
unfoldable pub deltas : List Node → ℕ
deltas [] = 0
deltas (nd ∷ nds) = (nd.malloc - nd.len) + deltas nds

unfoldable pub flush_nodes : LinkBuffer → Option LinkBuffer
unfolding deltas
flush_nodes b =
    let n = (b.write + 1) - b.flush in
    let todo = take n (drop b.flush b.nodes) in
    if leb b.flush (b.write + 1)
    then some (
        recal_len (pos (deltas todo)) (record b {
          nodes = splice b.flush b.nodes (map commit todo ++ drop n (drop b.flush b.nodes));
          flush = b.write;
        }))
    else none

module _ (alloc : ℕ → List ℕ) (link_buffer_cap : ℕ) where
  -- `newLinkBufferNode`
  unfoldable pub new_node : ℕ → Node
  new_node size = if size == 0 then wrap_node [] 0 else record {
    mem = alloc (if ltb size link_buffer_cap then link_buffer_cap else size);
    len = 0;
    off = 0;
    malloc = 0;
    readonly = false;
    nocopy_read = false;
  }

  -- `NewLinkBuffer`
  unfoldable pub new_link_buffer : ℕ → LinkBuffer
  new_link_buffer size = record {
    length = 0;
    malloc_size = 0;
    nodes = new_node size ∷ [];
    read = 0;
    flush = 0;
    write = 0;
    caches = [];
    cache_peek = none;
  }

  -- The loop of `growth`, from `b.write` on: how far `b.write` moves, and the chain.
  unfoldable pub growth_nodes : ℕ → List Node → Option (ℕ × List Node)
  growth_nodes n [] = none
  growth_nodes n (nd ∷ []) =
      if unfit n nd then some (1, nd ∷ new_node n ∷ []) else some (0, nd ∷ [])
  growth_nodes n (nd ∷ nd2 ∷ nds) =
      let rest = growth_nodes n (nd2 ∷ nds) in
      if unfit n nd
      then (do (k, nds') ← rest; some (suc k, nd ∷ nds'))
      else some (0, nd ∷ nd2 ∷ nds)

  -- `growth(n)` and then `b.write.Malloc(n)`: the offset in the write node, and the buffer.
  unfoldable pub malloc_body : ℕ → LinkBuffer → Option (ℕ × LinkBuffer)
  malloc_body n b = do
    (k, nds) ← growth_nodes n (drop b.write b.nodes)
    nd ← get_elem? nds k
    (at, nd') ← node_malloc n nd
    some (
      at,
      record b {
        nodes = splice b.write b.nodes (set nds k nd');
        write = b.write + k;
        malloc_size = b.malloc_size + n;
      },
    )

  -- `Malloc`
  unfoldable pub malloc : ℤ → LinkBuffer → Outcome (ℕ × LinkBuffer)
  unfolding malloc_body
  malloc (negsuc _) b = ok (0, b)
  malloc (pos n) b = if n == 0 then ok (0, b) else or_panic (malloc_body n b)

  -- `WriteBinary`, and `WriteString`, which views the text as bytes.
  unfoldable pub write_binary : List ℕ → LinkBuffer → Outcome (ℕ × LinkBuffer)
  unfolding malloc_body fill
  write_binary p b =
      if length p == 0
      then ok (0, b)
      else if ltb binary_inplace_threshold (length p)
      then (if ltb b.write (length b.nodes)
          then ok (
            length p,
            record b {
              nodes = splice (b.write + 1) b.nodes (wrap_node p (length p) ∷ []);
              write = b.write + 1;
              malloc_size = b.malloc_size + length p;
            },
          )
          else panic)
      else or_panic
          (do (at, b') ← malloc_body (length p) b; b'' ← fill at p b'; some (length p, b''))

  -- A tail node that is too large is followed by an empty one.
  unfoldable pub close_tail : LinkBuffer → Option LinkBuffer
  close_tail b = do
    nd ← get_elem? b.nodes b.write
    some (
        if ltb pagesize (cap nd)
        then record b {
          nodes = splice (b.write + 1) b.nodes (new_node 0 ∷ []);
          write = b.write + 1;
        }
        else b)

  -- `Flush`
  unfoldable pub flush : LinkBuffer → Outcome LinkBuffer
  unfolding close_tail flush_nodes
  flush b = or_panic (do b' ← close_tail (record b { malloc_size = 0 }); flush_nodes b')

-- The loop of `MallocAck` from `b.flush` on.
unfoldable pub ack_nodes : ℕ → List Node → Option (ℕ × List Node)
ack_nodes ack [] = none
ack_nodes ack (nd ∷ nds) =
    let l = nd.malloc - nd.len in
    let rest = ack_nodes (ack - l) nds in
    if leb ack l
    then some (0, record nd { malloc = ack + nd.len } ∷ nds)
    else (do (k, nds') ← rest; some (suc k, nd ∷ nds'))

-- A discarded node
abbrev pub discard : Node → Node
discard nd = record nd { off = 0; malloc = 0; len = 0 }

-- Where `b.write` is after the loop, which makes no round at 0.
ack_write : ℕ → LinkBuffer → Option (ℕ × List Node)
ack_write n b =
    if n == 0
    then (if ltb b.flush (length b.nodes) then some (0, drop b.flush b.nodes) else none)
    else ack_nodes n (drop b.flush b.nodes)

-- `MallocAck`
unfoldable pub malloc_ack : ℤ → LinkBuffer → Outcome LinkBuffer
unfolding ack_write
malloc_ack (negsuc _) b = err malloc_ack_invalid
malloc_ack (pos n) b = or_panic (do
  (k, nds) ← ack_write n b
  some (record b {
    malloc_size = n;
    write = b.flush + k;
    nodes = splice b.flush b.nodes (take (suc k) nds ++ map discard (drop (suc k) nds));
  }))
