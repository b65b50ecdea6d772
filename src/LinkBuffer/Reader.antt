-- ===== src/LinkBuffer/Reader.antt =====
-- nocopy_linkbuffer.go: the zero-copy reader. Loops over `b.read = b.read.next` recur on the
-- chain, and say how many nodes they pass.
pub mod Chain
pub mod Position
pub mod Next
pub mod Peek
pub mod Binary
pub mod Release
use netpoll.Base.{
  ℕ, suc, ◌+◌, ◌-◌, ◌*◌, min, Bool, true, ◌&&◌, ◌||◌, not, Option, none, some, List, [], ◌∷◌, ◌++◌,
  ltb, leb, ◌==◌, if◌then◌else◌, ◌>>=◌, length, get_elem?, take, drop, ℤ, pos, negsuc,
}
use netpoll.LinkBuffer.Node.{Node, cap, node_len, node_next, node_peek}
use netpoll.LinkBuffer.State.{
  CachePeek, LinkBuffer, Error, Outcome, ok, err, panic, or_panic, not_enough, no_delim, chain, neg,
  recal_len,
}

abbrev pub block1k : ℕ
block1k = 1024

abbrev pub malloc_max : ℕ
malloc_max = 8192 * 1024

abbrev pub min_reuse_bytes : ℕ
min_reuse_bytes = 64

-- The loop of `isSingleNode`: where `b.read` stops.
unfoldable pub skip_empty : ℕ → ℕ → List Node → Option ℕ
skip_empty r flush [] = none
skip_empty r flush (nd ∷ nds) =
    let rest = skip_empty (r + 1) flush nds in
    if (node_len nd == 0) && not (r == flush) then rest else some r

-- `isSingleNode`
unfoldable pub is_single_node : ℕ → LinkBuffer → Option (Bool × LinkBuffer)
is_single_node n b = if n == 0 then some (true, b) else do
  r ← skip_empty b.read b.flush (chain b)
  nd ← get_elem? b.nodes r
  some (leb n (node_len nd), record b { read = r })

-- The copy loop of `Next` and `readBinary`: the bytes, how many nodes `b.read` passes, and the
-- chain from the old `b.read`. The loop runs at `0 < ack` only.
unfoldable pub take_bytes : ℕ → List Node → Option (List ℕ × ℕ × List Node)
take_bytes ack [] = none
take_bytes ack (nd ∷ nds) =
    let rest = take_bytes (ack - node_len nd) nds in
    if leb ack (node_len nd) then (do (p, nd') ← node_next ack nd; some (p, 0, nd' ∷ nds)) else (do
      (p, nd') ← if ltb 0 (node_len nd) then node_next (node_len nd) nd else some ([], nd)
      (q, k, nds') ← rest
      some (p ++ q, suc k, nd' ∷ nds'))

-- `b.read` moves by `k`, and `nds` is the chain from where it was.
abbrev pub move_read : ℕ → List Node → LinkBuffer → LinkBuffer
move_read k nds b = record b { nodes = take b.read b.nodes ++ nds; read = b.read + k }

read_node : ℕ → LinkBuffer → Option (List ℕ × LinkBuffer)
read_node n b = elim (chain b) [
  | [] ↦ none
  | nd ∷ nds ↦ do (p, nd') ← node_next n nd; some (p, move_read 0 (nd' ∷ nds) b)
]

read_nodes : ℕ → LinkBuffer → Option (List ℕ × LinkBuffer)
read_nodes n b = do (p, k, nds) ← take_bytes n (chain b); some (p, move_read k nds b)

-- A copy of a size that mcache serves is freed by `Release`.
keep_cache : ℕ → List ℕ → LinkBuffer → LinkBuffer
keep_cache n p b = record b {
  caches = if ltb block1k n && leb n malloc_max then b.caches ++ (p ∷ []) else b.caches;
}

next_body : ℕ → LinkBuffer → Option (List ℕ × LinkBuffer)
unfolding read_node read_nodes keep_cache
next_body n b = do
  (single, b') ← is_single_node n (recal_len (neg n) b)
  if single then read_node n b' else (do (p, b'') ← read_nodes n b'; some (p, keep_cache n p b''))

-- `Next`
unfoldable pub next : ℤ → LinkBuffer → Outcome (List ℕ × LinkBuffer)
unfolding next_body
next (negsuc _) b = ok ([], b)
next (pos n) b =
    if n == 0
    then ok ([], b)
    else if ltb b.length n
    then err not_enough
    else or_panic (next_body n b)

-- One round of the loop of `Peek`: what `p` has after the node.
peek_node : ℕ → ℕ → List ℕ → Node → Option (List ℕ)
peek_node n scanned p nd =
    let l = node_len nd in
    let start = length p - scanned in
    if leb (scanned + l) (length p)
    then some p
    else (do q ← node_peek l nd; some (p ++ take (min (n - length p) (l - start)) (drop start q)))

-- The loop of `Peek`
unfoldable pub peek_nodes : ℕ → ℕ → List ℕ → List Node → Option (List ℕ)
unfolding peek_node
peek_nodes n scanned p [] = if leb n (length p) then some p else none
peek_nodes n scanned p (nd ∷ nds) =
    if leb n (length p)
    then some p
    else (do p' ← peek_node n scanned p nd; peek_nodes n (scanned + node_len nd) p' nds)

peek_single : ℕ → LinkBuffer → Option (List ℕ × LinkBuffer)
peek_single n b = do nd ← get_elem? b.nodes b.read; p ← node_peek n nd; some (p, b)

module _ (alloc : ℕ → List ℕ) where
  -- `b.cachePeek` before the loop: kept if it has room for `n`, else a fresh one of length 0.
  peek_cache : ℕ → Option CachePeek → CachePeek
  peek_cache n none = record { bytes = []; room = length (alloc n) }
  peek_cache n (some c) = if ltb c.room n then record { bytes = []; room = length (alloc n) } else c

  peek_across : ℕ → LinkBuffer → Option (List ℕ × LinkBuffer)
  unfolding peek_cache
  peek_across n b = do
    let c = peek_cache n b.cache_peek
    p ← peek_nodes n 0 c.bytes (chain b)
    some (take n p, record b { cache_peek = some (record c { bytes = p }) })

  peek_body : ℕ → LinkBuffer → Option (List ℕ × LinkBuffer)
  unfolding peek_across peek_single
  peek_body n b = do
    (single, b') ← is_single_node n b
    if single then peek_single n b' else peek_across n b'

  -- `Peek`. If `len(p) >= n` the loop makes no round, which is the source's early return.
  unfoldable pub peek : ℤ → LinkBuffer → Outcome (List ℕ × LinkBuffer)
  unfolding peek_body
  peek (negsuc _) b = ok ([], b)
  peek (pos n) b =
      if n == 0
      then ok ([], b)
      else if ltb b.length n
      then err not_enough
      else or_panic (peek_body n b)

-- The loop of `Skip`. Passed nodes keep their `off`.
unfoldable pub skip_bytes : ℕ → List Node → Option (ℕ × List Node)
skip_bytes ack [] = none
skip_bytes ack (nd ∷ nds) =
    let rest = skip_bytes (ack - node_len nd) nds in
    if leb ack (node_len nd)
    then some (0, record nd { off = nd.off + ack } ∷ nds)
    else (do (k, nds') ← rest; some (suc k, nd ∷ nds'))

skip_body : ℕ → LinkBuffer → Option LinkBuffer
skip_body n b = do (k, nds) ← skip_bytes n (chain b); some (move_read k nds (recal_len (neg n) b))

-- `Skip`
unfoldable pub skip : ℤ → LinkBuffer → Outcome LinkBuffer
unfolding skip_body
skip (negsuc _) b = ok b
skip (pos n) b =
    if n == 0 then ok b else if ltb b.length n then err not_enough else or_panic (skip_body n b)

-- The nodes that `Release` walks over: `for b.read != b.flush && b.read.Len() == 0`.
unfoldable pub skip_read : ℕ → ℕ → List Node → Option ℕ
skip_read r flush [] = if r == flush then some r else none
skip_read r flush (nd ∷ nds) =
    let rest = skip_read (r + 1) flush nds in
    if not (r == flush) && (node_len nd == 0) then rest else some r

-- `Release`. The nodes before `b.read` are given back; a `flush` or `write` among them would
-- dangle. What `free` does with `caches` and `cachePeek` is mcache's.
unfoldable pub release : LinkBuffer → Outcome LinkBuffer
release b = or_panic (do
  r ← skip_read b.read b.flush (chain b)
  if leb r b.flush && leb r b.write
      then some (record b {
        nodes = drop r b.nodes;
        read = 0;
        flush = b.flush - r;
        write = b.write - r;
        caches = [];
        cache_peek = none;
      })
      else none)

-- `readBinary`, for the value of `featureAlwaysNoCopyRead`. Every path hands out the same bytes;
-- they differ in whether the node is marked.
module _ (always_nocopy_read : Bool) where
  mark_nocopy : ℕ → Node → Node
  mark_nocopy n nd = record nd {
    nocopy_read =
        nd.nocopy_read || (not nd.readonly && always_nocopy_read && leb min_reuse_bytes n);
  }

  read_marked : ℕ → LinkBuffer → Option (List ℕ × LinkBuffer)
  unfolding mark_nocopy
  read_marked n b = elim (chain b) [
    | [] ↦ none
    | nd ∷ nds ↦ do (p, nd') ← node_next n (mark_nocopy n nd); some (p, move_read 0 (nd' ∷ nds) b)
  ]

  read_binary_body : ℕ → LinkBuffer → Option (List ℕ × LinkBuffer)
  unfolding read_marked read_nodes
  read_binary_body n b = do
    (single, b') ← is_single_node n (recal_len (neg n) b)
    if single then read_marked n b' else read_nodes n b'

  -- `ReadBinary`; `ReadString` has the same body, and views the bytes as a string.
  unfoldable pub read_binary : ℤ → LinkBuffer → Outcome (List ℕ × LinkBuffer)
  unfolding read_binary_body
  read_binary (negsuc _) b = ok ([], b)
  read_binary (pos n) b =
      if n == 0
      then ok ([], b)
      else if ltb b.length n
      then err not_enough
      else or_panic (read_binary_body n b)

-- The loop of `ReadByte`
unfoldable pub find_byte : List Node → Option (List ℕ × ℕ × List Node)
find_byte [] = none
find_byte (nd ∷ nds) =
    let rest = find_byte nds in
    if leb 1 (node_len nd)
    then (do (p, nd') ← node_next 1 nd; some (p, 0, nd' ∷ nds))
    else (do (p, k, nds') ← rest; some (p, suc k, nd ∷ nds'))

-- `ReadByte`: `[0]` of the one byte that `Next(1)` gives.
unfoldable pub read_byte : LinkBuffer → Outcome (ℕ × LinkBuffer)
read_byte b =
    if ltb b.length 1
    then err not_enough
    else or_panic (do
      (p, k, nds) ← find_byte (chain b)
      c ← get_elem? p 0
      some (c, move_read k nds (recal_len (neg 1) b)))
