-- ===== src/LinkBuffer/Reader/Binary.antt =====
-- `ReadBinary` of nocopy_linkbuffer.go.
use netpoll.Base.{
  ℕ, zero, suc, ◌+◌, ◌≤◌, ◌<◌, ◌≡◌, refl, sym, ap, ◌∙◌, inl, inr, Bool, some, List, ◌∷◌, arith, ltb,
  leb, leb→le, suc-==-zero, Bool-cases, All, length, take, drop, take-append_left, pos, negsuc,
}
use netpoll.LinkBuffer.Node.{
  Node, node_len, node_next, unread, IsNode, length-unread, node_next-Nexts,
}
use netpoll.LinkBuffer.State.{
  LinkBuffer, ok, or_panic, chain, content, readable, recal_len, IsReadable, Consumed-none, Reads,
  Serves,
}
use netpoll.LinkBuffer.Reader.{move_read, mark_nocopy, read_marked, read_binary_body, read_binary}
use netpoll.LinkBuffer.Reader.Chain.{Moves-first, take_bytes-Takes}
use netpoll.LinkBuffer.Reader.Position.{Single, is_single_node_lem}
use netpoll.LinkBuffer.Reader.Next.{moved-Consumed}

module _ (always_nocopy_read : Bool) where
  read_marked_lem :
      (n : ℕ) (b : LinkBuffer) {nd nd' : Node} {nds : List Node} {p : List ℕ}
      → chain b ≡ nd ∷ nds
      → node_next n (mark_nocopy always_nocopy_read n nd) ≡ some (p, nd')
      → read_marked always_nocopy_read n b ≡ some (p, move_read 0 (nd' ∷ nds) b)
  unfolding read_marked mark_nocopy
  read_marked_lem n b e f = rw (e, read_marked) (rw f)

  read_binary_body-Reads :
      (n : ℕ) (b : LinkBuffer)
      → IsReadable b
      → 0 < n
      → n ≤ length (readable b)
      → Reads n b (or_panic (read_binary_body always_nocopy_read n b))
  unfolding read_binary_body recal_len unread node_len
  read_binary_body-Reads zero b v p h = absurd (omega arith)
  read_binary_body-Reads (suc m) b v p h = elim (Bool-cases (leb (suc m) (node_len s.node))) [
    | inl one ↦
        let fit : suc m ≤ node_len s.node = leb→le _ _ one in
        let nd = mark_nocopy always_nocopy_read (suc m) s.node in
        let ok_nd : IsNode nd = record {
          read_le = nodes_ok.0.read_le;
          len_le = nodes_ok.0.len_le;
        } in
        let x = node_next-Nexts (suc m) nd ok_nd fit in
        record {
          after = move_read 0 (x.node ∷ s.rest) at;
          runs =
              rw (s.runs, one, read_marked_lem (suc m) at s.here x.runs)
                (ap (λ q. ok (q, move_read 0 (x.node ∷ s.rest) at))
                  (sym (take-append_left (suc m) (unread s.node) (content s.rest) (fits fit))
                    ∙ ap (take (suc m)) s.same));
          consumed =
              moved-Consumed (suc m) (b.read + s.passed) 0 (x.node ∷ s.rest) b v p h s.linked same (
                rw s.here (
                  Moves-first (suc m) s.node x.node s.rest x.left x.valid x.same_frame (fits fit)
                    nodes_ok.1));
        }
    | inr many ↦
        let t =
          take_bytes-Takes (suc m) (drop (b.read + s.passed) b.nodes) s.linked.valid p
            (rw same h) in
        record {
          after = move_read t.passed t.after at;
          runs =
              rw (s.runs, many, t.runs)
                (ap (λ q. ok (q, move_read t.passed t.after at)) (ap (take (suc m)) same));
          consumed =
              moved-Consumed (suc m) (b.read + s.passed) t.passed t.after b v p h s.linked same
                t.moves;
        }
  ]
    where
      s : Single (suc m) (recal_len (negsuc m) b)
      s = is_single_node_lem (suc m) (recal_len (negsuc m) b) v.linked p (omega arith)

      at : LinkBuffer
      at = record (recal_len (negsuc m) b) { read = b.read + s.passed }

      same : content (drop (b.read + s.passed) b.nodes) ≡ readable b
      same = rw s.here s.same

      nodes_ok : All IsNode (s.node ∷ s.rest)
      nodes_ok = rw s.here at s.linked.valid

      fits : suc m ≤ node_len s.node → suc m ≤ length (unread s.node)
      fits fit = omega (arith, length-unread s.node nodes_ok.0)

  -- `ReadBinary(n)` and `ReadString(n)` hand out the same bytes as `Next(n)`, for either value of
  -- the no-copy feature and any mode of the node. The buffer satisfies `IsReadable`.
  pub read_binary-Serves :
      (n : ℕ) (b : LinkBuffer)
      → IsReadable b
      → Serves n b (read_binary always_nocopy_read (pos n) b)
  unfolding read_binary
  read_binary-Serves zero b v =
      inr (omega arith, record { after = b; runs = refl; consumed = Consumed-none b v })
  read_binary-Serves (suc m) b v = elim (Bool-cases (ltb b.length (suc m))) [
    | inl short ↦ inl (ground (arith, v.counted), rw (suc-==-zero m, short))
    | inr enough ↦
        let few : suc m ≤ length (readable b) = ground (arith, v.counted) in
        inr (few, rw (suc-==-zero m, enough) (read_binary_body-Reads (suc m) b v (omega arith) few))
  ]
