-- ===== src/LinkBuffer/Book/Tail.antt =====
-- nocopy_linkbuffer.go: `NewLinkBuffer` and `resetTail`, which start and re-start the write node of
-- a LinkBuffer that the poller fills.
use netpoll.Base.{
  ℕ, ◌+◌, ◌≤◌, ◌<◌, ◌≡◌, refl, sym, ◌∙◌, ◌⊎◌, inl, inr, some, List, [], arith, leb, Bool-cases,
  get_elem?, get_elem?-last,
}
use netpoll.LinkBuffer.State.{LinkBuffer, readable}
use netpoll.LinkBuffer.Writer.{pagesize, wrap_node, new_node, new_link_buffer}
use netpoll.LinkBuffer.Book.{reset_tail}
use netpoll.LinkBuffer.Book.Input.{IsTailed, IsInput, grown, grown-IsTailed, new_node-empty}

IsTailed-flush : {b : LinkBuffer} (f : ℕ) → IsTailed b → IsTailed (record b { flush = f })
IsTailed-flush f t = record {
  before = t.before;
  tail = t.tail;
  nodes = t.nodes;
  write = t.write;
  read_le = t.read_le;
  valid = t.valid;
  tail_ok = t.tail_ok;
  full = t.full;
  counted = t.counted;
  peeked = t.peeked;
}

module _ (alloc : ℕ → List ℕ) (link_buffer_cap : ℕ) where
  pub new_link_buffer-IsInput :
      (size : ℕ)
      → (readable (new_link_buffer alloc link_buffer_cap size) ≡ [])
        × IsInput (new_link_buffer alloc link_buffer_cap size)
  unfolding new_link_buffer
  new_link_buffer-IsInput size =
      let e = new_node-empty alloc link_buffer_cap size in
      (
        rw e.3,
        record {
          tailed = record {
            before = [];
            tail = new_node alloc link_buffer_cap size;
            nodes = refl;
            write = refl;
            read_le = omega arith;
            valid = tt;
            tail_ok = e.0;
            full = e.1 ∙ sym e.2;
            counted = rw e.3;
            peeked = tt;
          };
          flush = refl;
        },
      )

  -- `resetTail` leaves a buffer of up to a page as it is. Behind a larger one it links an empty
  -- tail of no capacity; what can be read and the invariant are kept. The buffer satisfies
  -- `IsInput`.
  pub reset_tail-IsInput :
      (max_size : ℕ) (b : LinkBuffer)
      → IsInput b
      → ((max_size ≤ pagesize) × (reset_tail alloc link_buffer_cap max_size b ≡ b))
        ⊎ ((b' : LinkBuffer) × (pagesize < max_size)
            × (reset_tail alloc link_buffer_cap max_size b ≡ b')
            × (get_elem? b'.nodes b'.write ≡ some (wrap_node [] 0))
            × (readable b' ≡ readable b)
            × IsInput b')
  unfolding reset_tail grown new_node
  reset_tail-IsInput max_size b v = elim (Bool-cases (leb max_size pagesize)) [
    | inl small ↦ inl (ground arith, rw small)
    | inr large ↦
        let e = new_node-empty alloc link_buffer_cap 0 in
        let (same, t, tail) = grown-IsTailed b (wrap_node [] 0) v.tailed e.0 (e.1 ∙ sym e.2) e.3 in
        inr (
          record (grown (wrap_node [] 0) b) { flush = b.write + 1 },
          ground arith,
          rw large,
          rw (t.nodes, t.write, ← tail) (get_elem?-last t.before t.tail),
          same,
          record { tailed = IsTailed-flush (b.write + 1) t; flush = refl },
        )
  ]
