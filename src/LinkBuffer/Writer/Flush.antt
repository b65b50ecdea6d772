-- ===== src/LinkBuffer/Writer/Flush.antt =====
-- `Flush` of nocopy_linkbuffer.go.
pub mod Commit
use native.Mathlib.Numerals.{add-one}
use netpoll.Base.{
  ℕ, suc, ◌+◌, ◌-◌, ◌≡◌, refl, sym, ap, ◌∙◌, inl, inr, some, List, [], ◌∷◌, ◌++◌, map, append-nil,
  arith, ltb, le→leb, Bool-cases, All, length, get_elem?, take, drop, length-append, length-take,
  length-drop, take-append-drop, drop-append_right, drop-drop, drop-splice, length-splice,
  get_elem?-drop, drop-splice_before, drop_cons, length-map, All-drop, All-take, All-append,
}
use netpoll.LinkBuffer.Node.{Node, cap, unread, IsNode}
use netpoll.LinkBuffer.State.{
  CachePeek, LinkBuffer, ok, content, content-append, readable, recal_len, PeekedPrefix,
}
use netpoll.LinkBuffer.Writer.{
  pagesize, wrap_node, new_node, commit, deltas, close_tail, flush_nodes, flush,
}
use netpoll.LinkBuffer.Writer.Pending.{
  pend, pending_nodes, pending, IsWritten, IsClean, IsWritable, pending-append, pending-clean,
  content-clean, All-IsNode, Adds-Wrote, after,
}
use netpoll.LinkBuffer.Writer.Binary.{fresh_tail, wrap_node_lem}
use netpoll.LinkBuffer.Writer.Flush.Commit.{
  pend-commit, unread-commit, IsWritten-commit, All-commit, pending-commit, empty_left, empty_right,
  content-commit_tail, content-commit, deltas-length, PeekedPrefix-append, pending-drop,
  content-commit_chain,
}

-- All that was pending can be read, behind what could be read before, and nothing is pending.
pub record Flushed (b b' : LinkBuffer) : Type 0 where
  pub valid : IsWritable b'
  pub submitted : readable b' ≡ readable b ++ pending b
  pub emptied : pending b' ≡ []
  pub none_counted : b'.malloc_size ≡ 0

module _ (b : LinkBuffer) (v : IsWritable b) where
  open v use {readable_ok, written, flush_le, write_lt}

  rounds : ℕ
  rounds = (b.write + 1) - b.flush

  todo : List Node
  unfolding rounds
  todo = take rounds (drop b.flush b.nodes)

  rest : List Node
  unfolding rounds
  rest = drop rounds (drop b.flush b.nodes)

  front : List Node
  front = take (b.flush - b.read) (drop b.read b.nodes)

  new_nodes : List Node
  unfolding todo rest
  new_nodes = take b.flush b.nodes ++ (map commit todo ++ rest)

  whole : drop b.flush b.nodes ≡ todo ++ rest
  unfolding todo rest
  whole = sym (take-append-drop rounds (drop b.flush b.nodes))

  chain_before : drop b.read b.nodes ≡ front ++ (todo ++ rest)
  unfolding front
  chain_before =
      let e : b.read + (b.flush - b.read) ≡ b.flush = omega (arith, readable_ok.linked.read_le) in
      sym (take-append-drop (b.flush - b.read) (drop b.read b.nodes))
      ∙ ap (λ xs. front ++ xs) (rw (drop-drop (b.flush - b.read) b.read b.nodes, e) whole)

  chain_after : drop b.read new_nodes ≡ front ++ (map commit todo ++ rest)
  unfolding new_nodes front
  chain_after =
      drop-splice_before b.read b.flush b.nodes (map commit todo ++ rest) readable_ok.linked.read_le
        (omega arith)

  rest-IsClean : All IsClean rest
  unfolding rest
  rest-IsClean =
      let e : b.flush + rounds ≡ suc b.write = omega arith in
      rw (drop-drop rounds b.flush b.nodes, e) v.clean

  todo-IsWritten : All IsWritten todo
  unfolding todo
  todo-IsWritten = All-take IsWritten rounds (drop b.flush b.nodes) written

  rest-IsWritten : All IsWritten rest
  unfolding rest
  rest-IsWritten = All-drop IsWritten rounds (drop b.flush b.nodes) written

  from_flush : drop b.flush new_nodes ≡ map commit todo ++ rest
  unfolding new_nodes
  from_flush =
      let e : b.flush + 0 ≡ b.flush = omega arith in
      rw e at (drop-splice b.flush 0 b.nodes (map commit todo ++ rest) (omega arith))

  All-committed : All IsWritten (map commit todo ++ rest)
  All-committed =
      All-append IsWritten (map commit todo) rest (All-commit todo todo-IsWritten) rest-IsWritten

  none_pending : pending_nodes (map commit todo ++ rest) ≡ []
  none_pending =
      rw (
        pending-append (map commit todo) rest,
        pending-commit todo,
        pending-clean rest rest-IsClean,
      )

  now_readable : content (drop b.read new_nodes) ≡ readable b ++ pending b
  now_readable =
      rw (chain_after, chain_before, whole)
        (content-commit_chain front todo rest todo-IsWritten rest-IsClean
          (rw (← whole, drop-drop 1 b.flush b.nodes, add-one) readable_ok.linked.submitted))

  from_write : drop (b.write - b.flush) (map commit todo ++ rest) ≡ drop b.write new_nodes
  from_write =
      let e : b.flush + (b.write - b.flush) ≡ b.write = omega arith in
      rw (← from_flush, drop-drop (b.write - b.flush) b.flush new_nodes, e)

  emptied : pending_nodes (drop b.write new_nodes) ≡ []
  emptied =
      rw (← from_write) (pending-drop (b.write - b.flush) (map commit todo ++ rest) none_pending)

  behind_write : drop (suc b.write) new_nodes ≡ rest
  unfolding todo
  behind_write =
      let e : b.flush + rounds ≡ suc b.write = omega arith in
      let size : length (map commit todo) ≡ rounds = omega (
        arith,
        length-map todo commit,
        length-take rounds (drop b.flush b.nodes),
        length-drop b.flush b.nodes,
        write_lt,
      ) in
      let none_left : rounds - length (map commit todo) ≡ 0 = omega (arith, size) in
      rw (
        ← e,
        ← drop-drop rounds b.flush new_nodes,
        from_flush,
        drop-append_right rounds (map commit todo) rest (omega (arith, size)),
        none_left,
      )

  length-new_nodes : length new_nodes ≡ length b.nodes
  unfolding new_nodes
  length-new_nodes = length-splice b.flush b.nodes (map commit todo ++ rest) (omega arith) (
      omega (
        arith,
        ap length whole,
        length-append (map commit todo) rest,
        length-append todo rest,
        length-map todo commit,
      ))

  now_counted : b.length + deltas todo ≡ length (content (drop b.read new_nodes))
  now_counted = omega (
    arith,
    readable_ok.counted,
    ap length now_readable,
    length-append (readable b) (pending b),
    deltas-length todo todo-IsWritten,
    ap length (ap pending_nodes whole),
    ap length (pending-append todo rest),
    ap length (pending-clean rest rest-IsClean),
    length-append (pending_nodes todo) (pending_nodes rest),
  )

  new_valid : All IsNode (drop b.read new_nodes)
  unfolding front
  new_valid = rw chain_after (
      All-append IsNode front (map commit todo ++ rest)
        (All-take IsNode (b.flush - b.read) (drop b.read b.nodes) readable_ok.linked.valid)
        (All-IsNode (map commit todo ++ rest) All-committed))

  abbrev flushed : LinkBuffer
  flushed = record b {
    length = b.length + deltas todo;
    malloc_size = 0;
    nodes = new_nodes;
    flush = b.write;
  }

  flushed-Flushed : Flushed b flushed
  flushed-Flushed = record {
    valid = record {
      readable_ok = record {
        linked = record {
          valid = new_valid;
          read_le = omega (arith, readable_ok.linked.read_le);
          flush_le = omega (arith, length-new_nodes);
          submitted = rw behind_write (content-clean rest rest-IsClean);
        };
        counted = now_counted;
        peeked =
            rw now_readable
              (PeekedPrefix-append b.cache_peek (readable b) (pending b) readable_ok.peeked);
      };
      written =
          rw (← from_write)
            (All-drop IsWritten (b.write - b.flush) (map commit todo ++ rest) All-committed);
      flush_le = omega arith;
      write_lt = omega (arith, length-new_nodes);
      clean = rw behind_write rest-IsClean;
      sized = rw emptied;
    };
    submitted = now_readable;
    emptied = emptied;
    none_counted = refl;
  }

  flush_nodes-flushed : flush_nodes (record b { malloc_size = 0 }) ≡ some flushed
  unfolding flush_nodes recal_len new_nodes todo rest rounds
  flush_nodes-flushed = rw (le→leb b.flush (b.write + 1) (omega arith))

module _ (alloc : ℕ → List ℕ) (link_buffer_cap : ℕ) where
  -- `Flush` submits: what can be read is then all that could be read before and behind it, in
  -- order, all that was pending; nothing is left pending, and `MallocLen` is 0. The buffer
  -- satisfies `IsWritable`.
  pub flush-Flushed :
      (b : LinkBuffer)
      → IsWritable b
      → (b' : LinkBuffer) × (flush alloc link_buffer_cap b ≡ ok b') × Flushed b b'
  unfolding flush close_tail new_node
  flush-Flushed b v = elim (Bool-cases (ltb pagesize (cap node))) [
    | inl large ↦
        let w = wrap_node_lem [] in
        let t = fresh_tail b [] (wrap_node [] 0) v w.0 w.1 w.2 in
        let x = Adds-Wrote v t.1 in
        let f = flushed-Flushed (after v t.1) x.valid in
        (
          flushed (after v t.1) x.valid,
          rw (at, large, t.2, flush_nodes-flushed (after v t.1) x.valid),
          record {
            valid = f.valid;
            submitted = f.submitted ∙ rw (x.same, x.added, append-nil (pending b)) refl;
            emptied = f.emptied;
            none_counted = refl;
          },
        )
    | inr small ↦ (flushed b v, rw (at, small, flush_nodes-flushed b v), flushed-Flushed b v)
  ]
    where
      found : (nd : Node) × (nds : List Node) × (drop b.write b.nodes ≡ nd ∷ nds)
      found = drop_cons b.write b.nodes v.write_lt

      node : Node
      node = found.0

      at : get_elem? b.nodes b.write ≡ some node
      at = get_elem?-drop b.write b.nodes (found.2)
