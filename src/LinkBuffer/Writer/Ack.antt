-- ===== src/LinkBuffer/Writer/Ack.antt =====
-- `MallocAck` of nocopy_linkbuffer.go.
mod Nodes
use native.Mathlib.Numerals.{add-one}
use netpoll.Base.{
  ℕ, suc, ◌+◌, ◌-◌, ◌≤◌, ◌<◌, ◌≡◌, refl, ◌∙◌, false, List, [], ◌∷◌, ◌++◌, map, append-nil, arith,
  ◌==◌, lt→ltb, All, length, take, drop, length-append, length-take, take-append-drop,
  drop-append_left, drop-append_right, drop-drop, drop-take, drop-splice, drop-splice_before,
  All-take, All-append, pos,
}
use netpoll.LinkBuffer.Node.{Node, unread, IsNode}
use netpoll.LinkBuffer.State.{LinkBuffer, ok, content, content-append, readable}
use netpoll.LinkBuffer.Writer.{close_tail, discard, ack_nodes, malloc_ack, flush}
use netpoll.LinkBuffer.Writer.Pending.{
  pend, pending_nodes, pending, IsWritten, IsClean, IsWritable, pending-append, pending-clean,
  content-clean, All-IsNode,
}
use netpoll.LinkBuffer.Writer.Flush.{flush-Flushed}
use netpoll.LinkBuffer.Writer.Flush.Commit.{empty_left, empty_right}
use netpoll.LinkBuffer.Writer.Ack.Nodes.{
  length-pend, shorter_lem, Acked, Acks, ack_nodes-Acks, All-discard, All-IsWritten, content-drop,
  content-take,
}

module _ (b : LinkBuffer) (v : IsWritable b) (k : ℕ) (nds : List Node) where
  open v use {readable_ok, written, flush_le, write_lt}

  tail_nodes : List Node
  tail_nodes = take (suc k) nds ++ map discard (drop (suc k) nds)

  acked : ℕ → LinkBuffer
  unfolding tail_nodes
  acked m = record b {
    malloc_size = m;
    write = b.flush + k;
    nodes = take b.flush b.nodes ++ tail_nodes;
  }

  acked_lem :
      (m : ℕ)
      → ok (record b {
        malloc_size = m;
        write = b.flush + k;
        nodes = take b.flush b.nodes ++ (take (suc k) nds ++ map discard (drop (suc k) nds));
      })
        ≡ ok (acked m)
  unfolding acked
  acked_lem m = refl

  acked_size : (m : ℕ) → (acked m).malloc_size ≡ m
  unfolding acked
  acked_size m = refl

  module _ {p : List ℕ} (a : Acked p k (drop b.flush b.nodes) nds) where
    pending-tail : pending_nodes tail_nodes ≡ p
    unfolding tail_nodes
    pending-tail =
        rw
          (
            pending-append (take (suc k) nds) (map discard (drop (suc k) nds)),
            pending-clean (map discard (drop (suc k) nds)) (All-discard (drop (suc k) nds)),
            a.kept,
          )
          (append-nil p)

    -- Behind the flush node nothing can be read.
    behind : content (drop 1 nds) ≡ []
    behind = rw (a.tail_eq, drop-drop 1 b.flush b.nodes, add-one) readable_ok.linked.submitted

    content-tail : content tail_nodes ≡ content (drop b.flush b.nodes)
    unfolding tail_nodes
    content-tail =
        let e : 1 + k ≡ suc k = omega arith in
        let rest : content (drop (suc k) nds) ≡ [] =
          rw (← e, ← drop-drop k 1 nds) (content-drop k (drop 1 nds) behind) in
        rw
          (
            content-append (take (suc k) nds) (map discard (drop (suc k) nds)),
            content-clean (map discard (drop (suc k) nds)) (All-discard (drop (suc k) nds)),
            ← rest,
            ← content-append (take (suc k) nds) (drop (suc k) nds),
            take-append-drop (suc k) nds,
          )
          a.content_eq

    content-tail_behind : content (drop 1 tail_nodes) ≡ []
    unfolding tail_nodes
    content-tail_behind =
        let e : suc k - 1 ≡ k = omega arith in
        rw (
          drop-append_left 1 (take (suc k) nds) (map discard (drop (suc k) nds))
              (omega (arith, length-take (suc k) nds, a.inside)),
          drop-take 1 (suc k) nds,
          e,
          content-append (take k (drop 1 nds)) (map discard (drop (suc k) nds)),
          content-clean (map discard (drop (suc k) nds)) (All-discard (drop (suc k) nds)),
          content-take k (drop 1 nds) behind,
        )

    IsWritten-tail : All IsWritten tail_nodes
    unfolding tail_nodes
    IsWritten-tail =
        All-append IsWritten (take (suc k) nds) (map discard (drop (suc k) nds)) a.written
          (All-IsWritten (drop (suc k) nds))

    flush-lt : b.flush ≤ length b.nodes
    flush-lt = omega arith

    from_flush : drop b.flush (acked 0).nodes ≡ tail_nodes
    unfolding acked
    from_flush =
        let e : b.flush + 0 ≡ b.flush = omega arith in
        rw e at (drop-splice b.flush 0 b.nodes tail_nodes flush-lt)

    same : (m : ℕ) → readable (acked m) ≡ readable b
    unfolding acked
    same m =
        let e : b.read + (b.flush - b.read) ≡ b.flush = omega (arith, readable_ok.linked.read_le) in
        rw (
          drop-splice_before b.read b.flush b.nodes tail_nodes readable_ok.linked.read_le flush-lt,
          content-append (take (b.flush - b.read) (drop b.read b.nodes)) tail_nodes,
          content-tail,
          ← e,
          ← drop-drop (b.flush - b.read) b.read b.nodes,
          e,
          ← content-append (take (b.flush - b.read) (drop b.read b.nodes))
              (drop (b.flush - b.read) (drop b.read b.nodes)),
          take-append-drop (b.flush - b.read) (drop b.read b.nodes),
        )

    pending-acked : (m : ℕ) → pending (acked m) ≡ p
    unfolding acked
    pending-acked m = rw from_flush pending-tail

    length-acked : length (acked 0).nodes ≡ b.flush + length tail_nodes
    unfolding acked
    length-acked = omega (
      arith,
      length-append (take b.flush b.nodes) tail_nodes,
      length-take b.flush b.nodes,
      flush-lt,
    )

    inside : k < length tail_nodes
    unfolding tail_nodes
    inside = omega (
      arith,
      length-append (take (suc k) nds) (map discard (drop (suc k) nds)),
      length-take (suc k) nds,
      a.inside,
    )

    clean : All IsClean (drop (suc (b.flush + k)) (acked 0).nodes)
    unfolding acked tail_nodes
    clean =
        let e : suc (b.flush + k) ≡ b.flush + suc k = omega arith in
        let z : suc k - length (take (suc k) nds) ≡ 0 =
          omega (arith, length-take (suc k) nds, a.inside) in
        rw
          (
            e,
            drop-splice b.flush (suc k) b.nodes tail_nodes flush-lt,
            drop-append_right (suc k) (take (suc k) nds) (map discard (drop (suc k) nds))
                (omega (arith, length-take (suc k) nds)),
            z,
          )
          (All-discard (drop (suc k) nds))

    -- The invariant, once `mallocSize` is what is pending.
    acked-IsWritable : (m : ℕ) → m ≡ length p → IsWritable (acked m)
    unfolding acked
    acked-IsWritable m e = record {
      readable_ok = record {
        linked = record {
          valid =
              rw
                (drop-splice_before b.read b.flush b.nodes tail_nodes readable_ok.linked.read_le
                  flush-lt)
                (All-append IsNode (take (b.flush - b.read) (drop b.read b.nodes)) tail_nodes
                  (All-take IsNode (b.flush - b.read) (drop b.read b.nodes)
                    readable_ok.linked.valid)
                  (All-IsNode tail_nodes IsWritten-tail));
          read_le = readable_ok.linked.read_le;
          flush_le = omega (arith, length-acked);
          submitted =
              let at : suc b.flush ≡ b.flush + 1 = omega arith in
              rw (at, drop-splice b.flush 1 b.nodes tail_nodes flush-lt) content-tail_behind;
        };
        counted = rw (same m) readable_ok.counted;
        peeked = rw (same m) readable_ok.peeked;
      };
      written = rw from_flush IsWritten-tail;
      flush_le = omega arith;
      write_lt = omega (arith, length-acked, inside);
      clean = clean;
      sized = rw (pending-acked m) e;
    }

-- What a call of `MallocAck` leaves.
pub record Kept (n : ℕ) (b b' : LinkBuffer) : Type 0 where
  pub valid : IsWritable b'
  pub kept : pending b' ≡ take n (pending b)
  pub same : readable b' ≡ readable b
  pub counted : b'.malloc_size ≡ n

-- `MallocAck(n)` for `0 < n`, up to what is pending: the first `n` pending bytes stay, the rest is
-- discarded, and `MallocLen` is `n`. The buffer satisfies `IsWritable`.
pub malloc_ack-Kept :
    (n : ℕ) (b : LinkBuffer)
    → IsWritable b
    → 0 < n
    → n ≤ length (pending b)
    → (b' : LinkBuffer) × (malloc_ack (pos n) b ≡ ok b') × Kept n b b'
unfolding malloc_ack
malloc_ack-Kept n b v p h =
    let x = ack_nodes-Acks n (drop b.flush b.nodes) v.written p h in
    let positive : (n == 0) ≡ false = ground arith in
    (
      acked b v x.passed x.after n,
      rw (positive, x.runs) (acked_lem b v x.passed x.after n),
      record {
        valid =
            acked-IsWritable b v x.passed x.after x.acked n
              (omega (arith, length-take n (pending b)));
        kept = pending-acked b v x.passed x.after x.acked n;
        same = same b v x.passed x.after x.acked n;
        counted = acked_size b v x.passed x.after n;
      },
    )

module _ (alloc : ℕ → List ℕ) (link_buffer_cap : ℕ) where
  -- `Flush` sets `mallocSize` before it reads anything.
  flush-acked :
      (b : LinkBuffer) (v : IsWritable b) (k : ℕ) (nds : List Node) (m m' : ℕ)
      → flush alloc link_buffer_cap (acked b v k nds m)
        ≡ flush alloc link_buffer_cap (acked b v k nds m')
  unfolding acked flush close_tail
  flush-acked b v k nds m m' = refl

  -- `MallocAck(0)` makes no round of its loop, so what has been allocated in the flush node is not
  -- discarded: `MallocLen` says 0, and the next `Flush` submits those bytes. The buffer satisfies
  -- `IsWritable`, and `nd` is its flush node.
  pub malloc_ack_zero :
      (b : LinkBuffer) (nd : Node) (nds : List Node)
      → IsWritable b
      → drop b.flush b.nodes ≡ nd ∷ nds
      → (b' : LinkBuffer) × (b'' : LinkBuffer) × (malloc_ack (pos 0) b ≡ ok b')
        × (b'.malloc_size ≡ 0)
        × (flush alloc link_buffer_cap b' ≡ ok b'')
        × (readable b'' ≡ readable b ++ pend nd)
  unfolding malloc_ack
  malloc_ack_zero b nd nds v at =
      let f =
        flush-Flushed alloc link_buffer_cap (acked b v 0 (drop b.flush b.nodes) (length (pend nd)))
          (acked-IsWritable b v 0 (drop b.flush b.nodes) a (length (pend nd)) refl) in
      (
        acked b v 0 (drop b.flush b.nodes) 0,
        f.0,
        rw (lt→ltb b.flush (length b.nodes) (omega (arith, v.flush_le, v.write_lt)))
            (acked_lem b v 0 (drop b.flush b.nodes) 0),
        acked_size b v 0 (drop b.flush b.nodes) 0,
        flush-acked b v 0 (drop b.flush b.nodes) 0 (length (pend nd)) ∙ f.1,
        f.2.submitted
            ∙ rw
                (
                  same b v 0 (drop b.flush b.nodes) a (length (pend nd)),
                  pending-acked b v 0 (drop b.flush b.nodes) a (length (pend nd)),
                )
                refl,
      )
    where
      written_here : All IsWritten (nd ∷ nds)
      written_here = rw at at v.written

      a : Acked (pend nd) 0 (drop b.flush b.nodes) (drop b.flush b.nodes)
      a = rw at (record {
        kept = append-nil (pend nd);
        content_eq = refl;
        tail_eq = refl;
        written = (written_here.0, tt);
        inside = omega arith;
      })
