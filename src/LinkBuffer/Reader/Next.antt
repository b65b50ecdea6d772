-- ===== src/LinkBuffer/Reader/Next.antt =====
-- `Next`, `ReadBinary`, `ReadByte` and `Skip` of nocopy_linkbuffer.go against the list of
-- bytes that the buffer holds.
use netpoll.Base.{
  ℕ, zero, suc, ◌+◌, ◌≤◌, ◌<◌, ◌≡◌, refl, sym, ap, ◌∙◌, ◌⊎◌, inl, inr, some, List, [], ◌∷◌, ◌++◌,
  arith, ltb, leb, suc-==-zero, Bool-cases, All, length, get_elem?, take, drop, length-zero,
  length-drop, take-append_left, map-splice, pos, negsuc,
}
use netpoll.LinkBuffer.Node.{
  Node, node_len, node_next, frame, unread, IsNode, length-unread, node_next-Nexts,
}
use netpoll.LinkBuffer.State.{
  LinkBuffer, ok, err, or_panic, not_enough, chain, content, readable, neg, recal_len,
  reset_peek-PeekedPrefix, IsChain, IsReadable, Consumed, Consumed-none, Reads, Serves,
}
use netpoll.LinkBuffer.Reader.{
  move_read, read_node, next_body, next, skip_body, skip, keep_cache, read_byte,
}
use netpoll.LinkBuffer.Reader.Chain.{
  Moves, Moves-first, take_bytes-Takes, skip_bytes-Skips, find_byte-Finds,
}
use netpoll.LinkBuffer.Reader.Position.{moved-content, moved-IsChain, Single, is_single_node_lem}

-- The buffer after `recalLen(-n)` and a move of the read pointer that reads `n` bytes, from a
-- position `r` that has the same bytes ahead.
pub moved-Consumed :
    (n r k : ℕ) (nds : List Node) (b : LinkBuffer)
    → IsReadable b
    → 0 < n
    → n ≤ length (readable b)
    → IsChain b.nodes r b.flush
    → content (drop r b.nodes) ≡ readable b
    → Moves n k (drop r b.nodes) nds
    → Consumed n b (move_read k nds (record (recal_len (neg n) b) { read = r }))
unfolding recal_len
moved-Consumed zero r k nds b v p h c same m = absurd (omega arith)
moved-Consumed (suc n) r k nds b v p h c same m = record {
  left = left;
  valid = record {
    linked = moved-IsChain c m;
    counted = omega (arith, v.counted, ap length left, length-drop (suc n) (readable b));
    peeked = reset_peek-PeekedPrefix b.cache_peek (content (drop (r + k) (take r b.nodes ++ nds)));
  };
  kept = record {
    frames = map-splice frame r b.nodes nds m.frames;
    flush = refl;
    write = refl;
    malloc_size = refl;
  };
}
  where
    left : content (drop (r + k) (take r b.nodes ++ nds)) ≡ drop (suc n) (readable b)
    left = moved-content c m ∙ ap (drop (suc n)) same

-- The same from where the read pointer is.
moved_here :
    (n k : ℕ) (nds : List Node) (b : LinkBuffer)
    → IsReadable b
    → 0 < n
    → n ≤ length (readable b)
    → Moves n k (chain b) nds
    → Consumed n b (move_read k nds (recal_len (neg n) b))
unfolding recal_len
moved_here zero k nds b v p h m = absurd (omega arith)
moved_here (suc n) k nds b v p h m = moved-Consumed (suc n) b.read k nds b v p h v.linked refl m

first_of_take :
    (xs : List ℕ)
    → 1 ≤ length xs
    → (c : ℕ) × ((get_elem? xs 0 ≡ some c) × (get_elem? (take 1 xs) 0 ≡ some c))
first_of_take [] h = absurd (omega arith)
first_of_take (x ∷ xs) h = (x, (refl, refl))

read_node_lem :
    (n : ℕ) (b : LinkBuffer) {nd nd' : Node} {nds : List Node} {p : List ℕ}
    → chain b ≡ nd ∷ nds
    → node_next n nd ≡ some (p, nd')
    → read_node n b ≡ some (p, move_read 0 (nd' ∷ nds) b)
unfolding read_node
read_node_lem n b e f = rw (e, read_node) (rw f)

keep_cache-Consumed :
    (n : ℕ) (p : List ℕ) {m : ℕ} {b : LinkBuffer} (b' : LinkBuffer)
    → Consumed m b b'
    → Consumed m b (keep_cache n p b')
unfolding keep_cache
keep_cache-Consumed n p b' c = record {
  left = c.left;
  valid = record { linked = c.valid.linked; counted = c.valid.counted; peeked = c.valid.peeked };
  kept = record {
    frames = c.kept.frames;
    flush = c.kept.flush;
    write = c.kept.write;
    malloc_size = c.kept.malloc_size;
  };
}

-- What follows `isSingleNode` in `Next`.
next_body-Reads :
    (n : ℕ) (b : LinkBuffer)
    → IsReadable b
    → 0 < n
    → n ≤ length (readable b)
    → Reads n b (or_panic (next_body n b))
unfolding next_body recal_len
next_body-Reads zero b v p h = absurd (omega arith)
next_body-Reads (suc m) b v p h = elim (Bool-cases (leb (suc m) (node_len s.node))) [
  | inl one ↦
      let fit : suc m ≤ node_len s.node = ground arith in
      let x = node_next-Nexts (suc m) s.node nodes_ok.0 fit in
      record {
        after = move_read 0 (x.node ∷ s.rest) at;
        runs =
            rw (s.runs, one, read_node_lem (suc m) at s.here x.runs)
              (ap (λ q. ok (q, move_read 0 (x.node ∷ s.rest) at))
                (sym (take-append_left (suc m) (unread s.node) (content s.rest) (fits fit))
                  ∙ ap (take (suc m)) s.same));
        consumed =
            moved-Consumed (suc m) (b.read + s.passed) 0 (x.node ∷ s.rest) b v p h s.linked same (
              rw s.here (
                Moves-first (suc m) s.node x.node s.rest x.left x.valid x.same_frame (fits fit)
                  nodes_ok.1));
      }
  | inr many ↦
      let t =
        take_bytes-Takes (suc m) (drop (b.read + s.passed) b.nodes) s.linked.valid p (rw same h) in
      record {
        after =
            keep_cache (suc m) (take (suc m) (content (drop (b.read + s.passed) b.nodes)))
              (move_read t.passed t.after at);
        runs =
            rw (s.runs, many, t.runs)
              (ap
                (λ q. ok (
                  q,
                  keep_cache (suc m) (take (suc m) (content (drop (b.read + s.passed) b.nodes)))
                      (move_read t.passed t.after at),
                ))
                (ap (take (suc m)) same));
        consumed = keep_cache-Consumed (suc m) _ _ (
            moved-Consumed (suc m) (b.read + s.passed) t.passed t.after b v p h s.linked same
              t.moves);
      }
]
  where
    s : Single (suc m) (recal_len (negsuc m) b)
    s = is_single_node_lem (suc m) (recal_len (negsuc m) b) v.linked p (omega arith)

    at : LinkBuffer
    at = record (recal_len (negsuc m) b) { read = b.read + s.passed }

    same : content (drop (b.read + s.passed) b.nodes) ≡ readable b
    same = rw s.here s.same

    nodes_ok : All IsNode (s.node ∷ s.rest)
    nodes_ok = rw s.here at s.linked.valid

    fits : suc m ≤ node_len s.node → suc m ≤ length (unread s.node)
    fits fit = omega (arith, length-unread s.node nodes_ok.0)

-- `Next(n)` of a positive or zero size hands out the next `n` bytes in order and consumes exactly
-- those, whether they lie in one node or in several; with fewer bytes in the buffer it is refused.
-- The buffer satisfies `IsReadable`.
pub next-Serves : (n : ℕ) (b : LinkBuffer) → IsReadable b → Serves n b (next (pos n) b)
unfolding next
next-Serves zero b v =
    inr (omega arith, record { after = b; runs = refl; consumed = Consumed-none b v })
next-Serves (suc m) b v = elim (Bool-cases (ltb b.length (suc m))) [
  | inl short ↦ inl (ground (arith, v.counted), rw (suc-==-zero m, short))
  | inr enough ↦
      let fits : suc m ≤ length (readable b) = ground (arith, v.counted) in
      inr (fits, rw (suc-==-zero m, enough) (next_body-Reads (suc m) b v (omega arith) fits))
]

-- `Skip(n)` consumes the same bytes as `Next(n)`, and is refused where it is. The buffer satisfies
-- `IsReadable`.
pub skip-Consumed :
    (n : ℕ) (b : LinkBuffer)
    → IsReadable b
    → ((length (readable b) < n) × (skip (pos n) b ≡ err not_enough))
      ⊎ ((b' : LinkBuffer) × (n ≤ length (readable b)) × (skip (pos n) b ≡ ok b') × Consumed n b b')
unfolding skip skip_body
skip-Consumed zero b v = inr (b, omega arith, refl, Consumed-none b v)
skip-Consumed (suc m) b v = elim (Bool-cases (ltb b.length (suc m))) [
  | inl short ↦ inl (ground (arith, v.counted), rw (suc-==-zero m, short))
  | inr enough ↦
      let fits : suc m ≤ length (readable b) = ground (arith, v.counted) in
      let x = skip_bytes-Skips (suc m) (chain b) v.linked.valid (omega arith) fits in
      inr (
        move_read x.passed x.after (recal_len (negsuc m) b),
        fits,
        rw (suc-==-zero m, enough, x.runs),
        moved_here (suc m) x.passed x.after b v (omega arith) fits x.moves,
      )
]

-- `ReadByte` hands out the first byte and consumes it. The buffer satisfies `IsReadable`.
pub read_byte_lem :
    (b : LinkBuffer)
    → IsReadable b
    → ((readable b ≡ []) × (read_byte b ≡ err not_enough))
      ⊎ ((c : ℕ) × (b' : LinkBuffer) × (get_elem? (readable b) 0 ≡ some c)
          × (read_byte b ≡ ok (c, b'))
          × Consumed 1 b b')
unfolding read_byte
read_byte_lem b v = elim (Bool-cases (ltb b.length 1)) [
  | inl short ↦ inl (length-zero (readable b) (ground (arith, v.counted)), rw short)
  | inr enough ↦
      let fits : 1 ≤ length (readable b) = ground (arith, v.counted) in
      let x = find_byte-Finds (chain b) v.linked.valid fits in
      let (c, e) = first_of_take (readable b) fits in
      inr (
        c,
        move_read x.passed x.after (recal_len (neg 1) b),
        e.0,
        rw (enough, x.runs, e.1),
        moved_here 1 x.passed x.after b v (omega arith) fits x.moves,
      )
]
