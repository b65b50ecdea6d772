-- ===== src/LinkBuffer/Reader/Peek.antt =====
-- `Peek` of nocopy_linkbuffer.go and its cache.
use netpoll.Base.{
  ℕ, zero, suc, ◌+◌, ◌-◌, ◌≤◌, ◌<◌, min, ◌≡◌, refl, sym, ap, ◌∙◌, ◌⊎◌, inl, inr, Option, none, some,
  List, [], ◌∷◌, ◌++◌, append_assoc, arith, ltb, leb, le→leb, leb→le, lt→leb_false, suc-==-zero,
  Bool-cases, All, length, take, drop, length-append, length-take, length-drop, take_all,
  take-append_left, drop-append_left, drop-append_right, take-take, take_add, get_elem?-drop, pos,
}
use netpoll.LinkBuffer.Node.{Node, node_len, unread, IsNode, length-unread, node_peek_lem}
use netpoll.LinkBuffer.State.{
  CachePeek, LinkBuffer, ok, err, or_panic, not_enough, chain, content, readable, PeekedPrefix,
  IsReadable, Consumed-none, Peeks,
}
use netpoll.LinkBuffer.Reader.{peek_node, peek_nodes, peek_cache, peek_body, peek}
use netpoll.LinkBuffer.Reader.Position.{Single, is_single_node_lem}

peek_nodes_enough :
    (n scanned : ℕ) (p : List ℕ) (nds : List Node)
    → n ≤ length p
    → peek_nodes n scanned p nds ≡ some p
unfolding peek_nodes
peek_nodes_enough n scanned p [] h = rw (le→leb n (length p) h)
peek_nodes_enough n scanned p (nd ∷ nds) h = rw (le→leb n (length p) h)

-- What one round of the loop appends is what follows in the bytes from `b.read` on.
append_part :
    (k : ℕ) (done p u rest : List ℕ)
    → p ≡ take (length p) (done ++ (u ++ rest))
    → length done ≤ length p
    → k + (length p - length done) ≤ length u
    → p ++ take k (drop (length p - length done) u) ≡ take (length p + k) (done ++ (u ++ rest))
append_part k done p u rest e le fits =
    rw
      (
        take_add (length p) k (done ++ (u ++ rest)),
        drop-append_right (length p) done (u ++ rest) le,
        drop-append_left (length p - length done) u rest (omega arith),
        take-append_left k (drop (length p - length done) u) rest
            (omega (arith, length-drop (length p - length done) u)),
      )
      (ap (λ xs. xs ++ take k (drop (length p - length done) u)) e)

-- A node whose bytes `p` has already.
peek_node_skips :
    (n scanned : ℕ) (p : List ℕ) (nd : Node)
    → scanned + node_len nd ≤ length p
    → peek_node n scanned p nd ≡ some p
unfolding peek_node
peek_node_skips n scanned p nd h = rw (le→leb (scanned + node_len nd) (length p) h)

-- How many bytes the round copies.
abbrev copied : ℕ → ℕ → List ℕ → Node → ℕ
copied n scanned p nd = min (n - length p) (node_len nd - (length p - scanned))

peek_node_copies :
    (n scanned : ℕ) (p : List ℕ) (nd : Node)
    → IsNode nd
    → length p < scanned + node_len nd
    → peek_node n scanned p nd
      ≡ some (p ++ take (copied n scanned p nd) (drop (length p - scanned) (unread nd)))
unfolding peek_node
peek_node_copies n scanned p nd v h = rw (
  lt→leb_false (scanned + node_len nd) (length p) h,
  node_peek_lem (node_len nd) nd v (omega arith),
  take_all (node_len nd) (unread nd) (omega (arith, length-unread nd v)),
)

-- The loop of `Peek`, from a `p` that holds a prefix: `done` is what the nodes before held.
pub peek_nodes_lem :
    (n : ℕ) (done p : List ℕ) (nds : List Node)
    → All IsNode nds
    → p ≡ take (length p) (done ++ content nds)
    → length done ≤ length p
    → length p < n
    → n ≤ length (done ++ content nds)
    → peek_nodes n (length done) p nds ≡ some (take n (done ++ content nds))
unfolding peek_nodes
peek_nodes_lem n done p [] v e le lt fits =
    absurd (omega (arith, ap length e, length-take (length p) (done ++ []), length-append done []))
peek_nodes_lem n done p (nd ∷ nds) v e le lt fits =
    rw (lt→leb_false n (length p) lt)
      (elim (Bool-cases (leb (length done + node_len nd) (length p))) [
        | inl old ↦
            rw (peek_node_skips n (length done) p nd (leb→le _ _ old), size, shift)
              (peek_nodes_lem n (done ++ unread nd) p nds v.1 (rw shift at e) (ground (arith, size))
                lt (rw shift at fits))
        | inr new ↦
            let p' =
              p ++ take (copied n (length done) p nd) (drop (length p - length done) (unread nd)) in
            let k = copied n (length done) p nd in
            let fit : k + (length p - length done) ≤ length (unread nd) =
              ground (arith, length-unread nd v.0) in
            let e' : p' ≡ take (length p + k) (done ++ content (nd ∷ nds)) =
              append_part k done p (unread nd) (content nds) e le fit in
            let size' : length p' ≡ length p + k = omega (
              arith,
              length-append p (take k (drop (length p - length done) (unread nd))),
              length-take k (drop (length p - length done) (unread nd)),
              length-drop (length p - length done) (unread nd),
            ) in
            rw (peek_node_copies n (length done) p nd v.0 (ground arith))
              (elim (Bool-cases (leb n (length p'))) [
                | inl full ↦
                    let all : length p + k ≡ n = ground (arith, size') in
                    peek_nodes_enough n (length done + node_len nd) p' nds (leb→le _ _ full)
                    ∙ ap (λ xs. some xs) (e' ∙ ap (λ m. take m (done ++ content (nd ∷ nds))) all)
                | inr more ↦
                    let start : length p' ≡ length (done ++ unread nd) =
                      ground (arith, size', size, length-unread nd v.0) in
                    rw (size, shift)
                      (peek_nodes_lem n (done ++ unread nd) p' nds v.1 (e' ∙ rw (shift, size') refl)
                        (omega (arith, start)) (ground arith) (rw shift at fits))
              ])
      ])
  where
    shift : done ++ (unread nd ++ content nds) ≡ (done ++ unread nd) ++ content nds
    shift = sym (append_assoc done (unread nd) (content nds))

    size : length done + node_len nd ≡ length (done ++ unread nd)
    size = omega (arith, length-append done (unread nd), length-unread nd v.0)

-- The loop of `Peek` as it is called: `p` has been kept from an earlier call, or is empty.
peek_nodes_cached :
    (n : ℕ) (p : List ℕ) (nds : List Node)
    → All IsNode nds
    → p ≡ take (length p) (content nds)
    → n ≤ length (content nds)
    → (q : List ℕ) × (peek_nodes n 0 p nds ≡ some q)
      × (take n q ≡ take n (content nds))
      × (q ≡ take (length q) (content nds))
      × ((length q ≡ length p) ⊎ (length q ≡ n))
peek_nodes_cached n p nds v e h = elim (Bool-cases (leb n (length p))) [
  | inl full ↦ (
    p,
    peek_nodes_enough n 0 p nds (leb→le _ _ full),
    ap (take n) e ∙ take-take n (length p) (content nds) (leb→le _ _ full),
    e,
    inl refl,
  )
  | inr more ↦
      let size : length (take n (content nds)) ≡ n = omega (arith, length-take n (content nds)) in
      (
        take n (content nds),
        peek_nodes_lem n [] p nds v e (omega arith) (ground arith) h,
        take-take n n (content nds) (omega arith),
        ap (λ k. take k (content nds)) (sym size),
        inr size,
      )
]

module _ (alloc : ℕ → List ℕ) (enough : (n : ℕ) → n ≤ length (alloc n)) where
  peek_cache_lem :
      (n : ℕ) (c : Option CachePeek) (bs : List ℕ)
      → PeekedPrefix c bs
      → ((peek_cache alloc n c).bytes ≡ take (length (peek_cache alloc n c).bytes) bs)
        × (length (peek_cache alloc n c).bytes ≤ (peek_cache alloc n c).room)
        × (n ≤ (peek_cache alloc n c).room)
  unfolding peek_cache
  peek_cache_lem n none bs h = (refl, omega arith, enough n)
  peek_cache_lem n (some c) bs h = elim (Bool-cases (ltb c.room n)) [
    | inl small ↦ rw small (refl, omega arith, enough n)
    | inr fits ↦ rw fits (h.0, h.1, ground arith)
  ]

  peek_body-Peeks :
      (n : ℕ) (b : LinkBuffer)
      → IsReadable b
      → 0 < n
      → n ≤ length (readable b)
      → Peeks n b (or_panic (peek_body alloc n b))
  unfolding peek_body
  peek_body-Peeks n b v p h = elim (Bool-cases (leb n (node_len s.node))) [
    | inl one ↦
        let fit : n ≤ node_len s.node = leb→le _ _ one in
        record {
          after = at;
          runs =
              rw
                (
                  s.runs,
                  one,
                  get_elem?-drop (b.read + s.passed) b.nodes s.here,
                  node_peek_lem n s.node nodes_ok.0 fit,
                )
                (ap (λ q. ok (q, at))
                  (sym (
                      take-append_left n (unread s.node) (content s.rest)
                        (omega (arith, length-unread s.node nodes_ok.0)))
                    ∙ ap (take n) s.same));
          consumed = record {
            left = same;
            valid = record {
              linked = s.linked;
              counted = rw same v.counted;
              peeked = rw same v.peeked;
            };
            kept = record { frames = refl; flush = refl; write = refl; malloc_size = refl };
          };
        }
    | inr many ↦
        let c = peek_cache alloc n b.cache_peek in
        let cached = peek_cache_lem n b.cache_peek (readable b) v.peeked in
        let x =
          peek_nodes_cached n c.bytes (chain at) s.linked.valid (rw same cached.0) (rw same h) in
        record {
          after = record at { cache_peek = some (record c { bytes = x.0 }) };
          runs =
              rw (s.runs, many, x.1)
                (ap (λ q. ok (q, record at { cache_peek = some (record c { bytes = x.0 }) }))
                  (x.2 ∙ ap (take n) same));
          consumed = record {
            left = same;
            valid = record {
              linked = s.linked;
              counted = rw same v.counted;
              peeked = (
                x.3,
                elim (x.4) [
                  | inl e ↦ omega (arith, e, cached.1)
                  | inr e ↦ omega (arith, e, cached.2)
                ],
              );
            };
            kept = record { frames = refl; flush = refl; write = refl; malloc_size = refl };
          };
        }
  ]
    where
      s : Single n b
      s = is_single_node_lem n b v.linked p (omega arith)

      at : LinkBuffer
      at = record b { read = b.read + s.passed }

      same : content (drop (b.read + s.passed) b.nodes) ≡ readable b
      same = rw s.here s.same

      nodes_ok : All IsNode (s.node ∷ s.rest)
      nodes_ok = rw s.here at s.linked.valid

  -- `Peek(n)` hands out the next `n` bytes, also where they are put together from several nodes and
  -- where part of them has been kept from an earlier `Peek`; it consumes nothing and keeps the
  -- invariant. With fewer bytes in the buffer it is refused. The buffer satisfies `IsReadable`.
  -- `alloc n` gives at least `n` bytes.
  pub peek-Peeks :
      (n : ℕ) (b : LinkBuffer)
      → IsReadable b
      → ((length (readable b) < n) × (peek alloc (pos n) b ≡ err not_enough))
        ⊎ ((n ≤ length (readable b)) × Peeks n b (peek alloc (pos n) b))
  unfolding peek
  peek-Peeks zero b v =
      inr (omega arith, record { after = b; runs = refl; consumed = Consumed-none b v })
  peek-Peeks (suc m) b v = elim (Bool-cases (ltb b.length (suc m))) [
    | inl short ↦ inl (ground (arith, v.counted), rw (suc-==-zero m, short))
    | inr fits ↦
        let few : suc m ≤ length (readable b) = ground (arith, v.counted) in
        inr (few, rw (suc-==-zero m, fits) (peek_body-Peeks (suc m) b v (omega arith) few))
  ]
