-- ===== src/LinkBuffer/Direct.antt =====
-- nocopy_linkbuffer.go, `WriteDirect`: a caller's slice that is put between the bytes that have been
-- allocated, without a copy.
pub mod Nodes
pub mod Insert
use netpoll.Base.{
  ℕ, ◌+◌, ◌-◌, Bool, true, false, Option, none, some, List, [], ◌∷◌, ◌++◌, ltb, leb, ◌==◌,
  if◌then◌else◌, ◌>>=◌, length, drop, ℤ, pos, negsuc,
}
use netpoll.LinkBuffer.Node.{Node, cap}
use netpoll.LinkBuffer.State.{LinkBuffer, Outcome, ok, or_panic}
use netpoll.LinkBuffer.Writer.{splice, wrap_node}

-- The node of the bytes behind the place, which lie at `m` in the array of `nd`.
abbrev pub new_half : ℕ → Node → Node
new_half m nd = record {
  mem = nd.mem;
  len = m;
  off = m;
  malloc = nd.malloc;
  readonly = false;
  nocopy_read = false;
}

-- What stands for the node `nd` in which the place is, `m` being its offset in the array. Without
-- bytes behind it, the slice's node follows `nd`.
unfoldable pub split_node : Bool → ℕ → List ℕ → Node → Option (List Node)
split_node true m extra nd =
    if leb m (cap nd)
    then some (
        record nd { malloc = m; readonly = true }
        ∷ wrap_node extra (length extra)
        ∷ new_half m nd
        ∷ [])
    else none
split_node false m extra nd = some (nd ∷ wrap_node extra (length extra) ∷ [])

-- The loop that finds the node, from `b.flush` on, and what is linked in there; `k` is `malloc`.
unfoldable pub direct_nodes : Bool → ℕ → List ℕ → List Node → Option (List Node)
direct_nodes splits k extra [] = none
direct_nodes splits k extra (nd ∷ nds) =
    let t = nd.malloc - nd.len in
    let rest = direct_nodes splits (k - t) extra nds in
    if ltb t k
    then (do nds' ← rest; some (nd ∷ nds'))
    else (do half ← split_node splits (k + nd.len) extra nd; some (half ++ nds))

-- With more bytes behind the place than have been allocated, by `d`: the loop stops at once, with an
-- offset below the node's length.
unfoldable pub direct_before : ℕ → List ℕ → List Node → Option (List Node)
direct_before d extra [] = none
direct_before d extra (nd ∷ nds) =
    if leb d nd.len
    then (do half ← split_node true (nd.len - d) extra nd; some (half ++ nds))
    else none

-- `WriteDirect` of a slice, with `remain` bytes behind it; `b.write` moves on to the last node.
unfoldable pub direct_body : List ℕ → ℕ → LinkBuffer → Option LinkBuffer
direct_body extra remain b = do
  nds ←
      (if leb remain b.malloc_size
        then direct_nodes (ltb 0 remain) (b.malloc_size - remain) extra (drop b.flush b.nodes)
        else direct_before (remain - b.malloc_size) extra (drop b.flush b.nodes))
  let nodes = splice b.flush b.nodes nds
  some (record b {
    nodes = nodes;
    write = length nodes - 1;
    malloc_size = b.malloc_size + length extra;
  })

unfoldable pub write_direct : List ℕ → ℤ → LinkBuffer → Outcome LinkBuffer
write_direct extra (negsuc _) b = ok b
write_direct extra (pos remain) b =
    if length extra == 0 then ok b else or_panic (direct_body extra remain b)
