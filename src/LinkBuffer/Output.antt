-- ===== src/LinkBuffer/Output.antt =====
-- nocopy_linkbuffer.go: `Bytes` and `GetBytes`, by which a connection sends what a LinkBuffer holds,
-- and `WriteByte`. Their loops go from `b.read` to `b.flush`: `k` counts the nodes up to there.
pub mod Laws
use netpoll.Base.{
  ℕ, zero, suc, ◌-◌, Option, none, some, List, [], ◌∷◌, ◌++◌, ltb, ◌==◌, if◌then◌else◌, ◌>>=◌,
  get_elem?, take,
}
use netpoll.LinkBuffer.Node.{Node, node_len, unread}
use netpoll.LinkBuffer.State.{LinkBuffer, Outcome, ok, or_panic, chain}
use netpoll.LinkBuffer.Writer.{malloc_body, fill}

-- The copy loop of `Bytes`
unfoldable pub copy_nodes : ℕ → List Node → Option (List ℕ)
copy_nodes k [] = none
copy_nodes zero (nd ∷ nds) = some (unread nd)
copy_nodes (suc k) (nd ∷ nds) = do rest ← copy_nodes k nds; some (unread nd ++ rest)

-- `Bytes`. A copy is cut at `b.Len()`.
unfoldable pub bytes : LinkBuffer → Option (List ℕ)
bytes b =
    if b.read == b.flush
    then (do nd ← get_elem? b.nodes b.read; some (unread nd))
    else (do p ← copy_nodes (b.flush - b.read) (chain b); some (take b.length p))

-- The loop of `GetBytes`, with room for `slots` slices: a node without bytes takes none, but for
-- the last.
unfoldable pub fill_slots : ℕ → ℕ → List Node → Option (List (List ℕ))
fill_slots slots k [] = if slots == 0 then some [] else none
fill_slots slots zero (nd ∷ nds) = some (if slots == 0 then [] else unread nd ∷ [])
fill_slots slots (suc k) (nd ∷ nds) =
    let same = fill_slots slots k nds in
    let fewer = fill_slots (slots - 1) k nds in
    if slots == 0
    then some []
    else if ltb 0 (node_len nd)
    then (do vs ← fewer; some (unread nd ∷ vs))
    else same

-- `GetBytes`, for the length of the slice that is passed. Without one it makes room for the nodes
-- before `b.flush`.
unfoldable pub get_bytes : ℕ → LinkBuffer → Option (List (List ℕ))
get_bytes slots b =
    fill_slots (if slots == 0 then b.flush - b.read else slots) (b.flush - b.read) (chain b)

module _ (alloc : ℕ → List ℕ) (link_buffer_cap : ℕ) where
  -- `WriteByte`
  unfoldable pub write_byte : ℕ → LinkBuffer → Outcome LinkBuffer
  write_byte p b =
      or_panic (do (at, b') ← malloc_body alloc link_buffer_cap 1 b; fill at (p ∷ []) b')
