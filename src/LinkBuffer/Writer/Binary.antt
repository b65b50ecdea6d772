-- ===== src/LinkBuffer/Writer/Binary.antt =====
-- `Malloc` and `WriteBinary` of nocopy_linkbuffer.go as appends to the pending bytes.
use native.Mathlib.Numerals.{add-one}
use netpoll.Base.{
  ℕ, suc, ◌+◌, ◌-◌, ◌≤◌, ◌<◌, ◌≡◌, refl, sym, ap, ◌∙◌, inl, inr, false, some, List, [], ◌∷◌, ◌++◌,
  append-nil, append_assoc, arith, ltb, ◌==◌, lt→ltb, Bool-cases, All, length, take, drop,
  length-zero, take_all, drop-drop, take_through, drop_cons, pos,
}
use netpoll.LinkBuffer.Node.{Node, unread}
use netpoll.LinkBuffer.State.{LinkBuffer, ok}
use netpoll.LinkBuffer.Writer.{binary_inplace_threshold, wrap_node, malloc, fill, write_binary}
use netpoll.LinkBuffer.Writer.Pending.{
  pend, pending, IsWritten, IsClean, IsWritable, pending-clean, content-clean, Adds, Adds-Wrote,
  Wrote, from_write,
}
use netpoll.LinkBuffer.Writer.Malloc.{malloc_body-Filled}

-- `b.write.next` is set to a new node, which becomes the write node.
pub Adds-fresh :
    (p : List ℕ) (nd new : Node) (rest : List Node)
    → All IsWritten (nd ∷ rest)
    → All IsClean rest
    → IsWritten new
    → pend new ≡ p
    → unread new ≡ []
    → Adds p 1 (nd ∷ rest) (nd ∷ new ∷ [])
Adds-fresh p nd new rest v c w e f = record {
  pending_eq = rw (e, pending-clean rest c, append-nil p, append-nil (pend nd)) refl;
  content_eq = rw (f, content-clean rest c);
  tail_eq = rw (f, content-clean rest c);
  written = (v.0, (w, tt));
  inside = omega arith;
  clean = tt;
}

-- The same for a chain that is cut behind the write node.
pub fresh_tail :
    (b : LinkBuffer) (p : List ℕ) (new : Node)
    → IsWritable b
    → IsWritten new
    → pend new ≡ p
    → unread new ≡ []
    → (nds : List Node) × Adds p 1 (drop b.write b.nodes) nds
      × (take (b.write + 1) b.nodes ++ (new ∷ []) ≡ take b.write b.nodes ++ nds)
fresh_tail b p new v w e f =
    let (nd, rest, at) = drop_cons b.write b.nodes v.write_lt in
    (
      nd ∷ new ∷ [],
      rw at (
          Adds-fresh p nd new rest (rw at at (from_write v))
            (rw (drop_rest b.write b.nodes at) v.clean) w e f),
      rw (add-one, take_through b.write b.nodes at)
          (append_assoc (take b.write b.nodes) (nd ∷ []) (new ∷ [])),
    )
  where
    drop_rest :
        (i : ℕ) (xs : List Node) {x : Node} {ys : List Node}
        → drop i xs ≡ x ∷ ys
        → ys ≡ drop (suc i) xs
    drop_rest i xs h = ap (drop 1) (sym h) ∙ drop-drop 1 i xs ∙ rw add-one

pub wrap_node_lem :
    (p : List ℕ)
    → IsWritten (wrap_node p (length p))
      × (pend (wrap_node p (length p)) ≡ p)
      × (unread (wrap_node p (length p)) ≡ [])
unfolding pend unread
wrap_node_lem p = (
  record { off_le = omega arith; len_le = omega arith; malloc_le = omega arith },
  take_all (length p - 0) p (omega arith),
  refl,
)

module _ (alloc : ℕ → List ℕ) (link_buffer_cap : ℕ) (enough : (n : ℕ) → n ≤ length (alloc n)) where
  -- `Malloc(len(q))` and then `q` written into the slice that it returned: `q` is appended to the
  -- pending bytes, behind all that was there, in whichever node had room. `q` is not empty. The
  -- buffer satisfies `IsWritable`. `alloc n` gives at least `n` bytes.
  pub malloc-fill :
      (q : List ℕ) (b : LinkBuffer)
      → IsWritable b
      → 0 < length q
      → (at : ℕ) × (b' : LinkBuffer) × (b'' : LinkBuffer) × (malloc alloc link_buffer_cap
            (pos (length q))
            b
          ≡ ok (at, b'))
        × (fill at q b' ≡ some b'')
        × Wrote q b b''
  unfolding malloc
  malloc-fill q b v p =
      let x = malloc_body-Filled alloc link_buffer_cap enough q b v p in
      let positive : (length q == 0) ≡ false = ground arith in
      (x.at, x.between, x.after, rw (positive, x.mallocs), x.fills, x.wrote)

  -- `WriteBinary(p)` and `WriteString(p)` append `p` to the pending bytes and return its length,
  -- whether it is copied or, above 4 KB, linked in as a node of its own. The buffer satisfies
  -- `IsWritable`. `alloc n` gives at least `n` bytes.
  pub write_binary-Wrote :
      (p : List ℕ) (b : LinkBuffer)
      → IsWritable b
      → (b' : LinkBuffer) × (write_binary alloc link_buffer_cap p b ≡ ok (length p, b'))
        × Wrote p b b'
  unfolding write_binary
  write_binary-Wrote p b v = elim (Bool-cases (length p == 0)) [
    | inl empty ↦
        let none_there : p ≡ [] = length-zero p (ground arith) in
        rw none_there
          (b, refl, record { valid = v; added = sym (append-nil (pending b)); same = refl })
    | inr some_there ↦ elim (Bool-cases (ltb binary_inplace_threshold (length p))) [
      | inl large ↦
          let w = wrap_node_lem p in
          let t = fresh_tail b p (wrap_node p (length p)) v w.0 w.1 w.2 in
          (
            record b {
              nodes = take b.write b.nodes ++ t.0;
              write = b.write + 1;
              malloc_size = b.malloc_size + length p;
            },
            rw (some_there, large, lt→ltb b.write (length b.nodes) v.write_lt, t.2),
            Adds-Wrote v t.1,
          )
      | inr small ↦
          let positive : 0 < length p = ground arith in
          let x = malloc_body-Filled alloc link_buffer_cap enough p b v positive in
          (x.after, rw (some_there, small, x.mallocs, x.fills), x.wrote)
    ]
  ]
