-- ===== src/LinkBuffer/Direct/Insert.antt =====
-- nocopy_linkbuffer.go, `WriteDirect`: where the slice stands among the bytes to be submitted.
use netpoll.Base.{
  ℕ, suc, ◌+◌, ◌-◌, ◌≤◌, ◌<◌, ◌≡◌, refl, sym, ap, ◌∙◌, inl, inr, false, List, [], ◌∷◌, ◌++◌, arith,
  ltb, ◌==◌, le→leb, Bool-cases, length, take, drop, length-append, length-take, length-drop,
  take-append-drop, drop_all, drop-drop, drop-splice, drop-splice_before, All-take, All-append, pos,
}
use netpoll.LinkBuffer.Node.{Node, IsNode}
use netpoll.LinkBuffer.State.{LinkBuffer, ok, content, content-append, readable}
use netpoll.LinkBuffer.Writer.{splice}
use netpoll.LinkBuffer.Writer.Pending.{pending, IsWritable, All-IsNode}
use netpoll.LinkBuffer.Direct.{direct_body, write_direct}
use netpoll.LinkBuffer.Direct.Nodes.{Inserted, direct_nodes-Inserted}

-- `extra` stands behind the first `k` of the bytes to be submitted.
pub record Placed (k : ℕ) (extra : List ℕ) (b b' : LinkBuffer) : Type 0 where
  pub valid : IsWritable b'
  pub placed : pending b' ≡ take k (pending b) ++ (extra ++ drop k (pending b))
  pub same : readable b' ≡ readable b

module _ {b : LinkBuffer} (v : IsWritable b) {k : ℕ} {extra : List ℕ} {new : List Node}
    (ins : Inserted k extra (drop b.flush b.nodes) new) where
  open v use {readable_ok, flush_le, write_lt}

  abbrev chain : List Node
  chain = splice b.flush b.nodes new

  abbrev pub after : LinkBuffer
  after = record b {
    nodes = chain;
    write = length chain - 1;
    malloc_size = b.malloc_size + length extra;
  }

  flush_lt : b.flush < length b.nodes
  flush_lt = omega (arith, flush_le, write_lt)

  from_flush : drop b.flush chain ≡ new
  from_flush =
      let e : b.flush - b.flush ≡ 0 = omega arith in
      drop-splice_before b.flush b.flush b.nodes new (omega arith) (omega (arith, flush_lt)) ∙ rw e

  cut : List Node
  cut = take (b.flush - b.read) (drop b.read b.nodes)

  from_read : drop b.read chain ≡ cut ++ new
  unfolding cut
  from_read =
      drop-splice_before b.read b.flush b.nodes new readable_ok.linked.read_le
        (omega (arith, flush_lt))

  split_at_flush : drop b.read b.nodes ≡ cut ++ drop b.flush b.nodes
  unfolding cut
  split_at_flush =
      let e : b.read + (b.flush - b.read) ≡ b.flush = omega (arith, readable_ok.linked.read_le) in
      sym (take-append-drop (b.flush - b.read) (drop b.read b.nodes))
      ∙ ap (λ xs. cut ++ xs) (rw (drop-drop (b.flush - b.read) b.read b.nodes, e))

  size : length chain ≡ b.flush + length new
  size =
      omega (arith, length-append (take b.flush b.nodes) new, length-take b.flush b.nodes, flush_lt)

  same : readable after ≡ readable b
  same = rw (
    from_read,
    split_at_flush,
    content-append cut new,
    content-append cut (drop b.flush b.nodes),
    ins.content_eq,
  )

  placed : pending after ≡ take k (pending b) ++ (extra ++ drop k (pending b))
  placed = rw from_flush ins.pending_eq

  submitted : content (drop (suc b.flush) chain) ≡ []
  submitted =
      let e : suc b.flush ≡ b.flush + 1 = omega arith in
      rw
        (
          e,
          drop-splice b.flush 1 b.nodes new (omega (arith, flush_lt)),
          ins.tail_eq,
          drop-drop 1 b.flush b.nodes,
          ← e,
        )
        readable_ok.linked.submitted

  pub Inserted-Placed : Placed k extra b after
  unfolding cut
  Inserted-Placed = record {
    valid = record {
      readable_ok = record {
        linked = record {
          valid = rw from_read (
              All-append IsNode cut new
                (All-take IsNode (b.flush - b.read) (drop b.read b.nodes) readable_ok.linked.valid)
                (All-IsNode new ins.written));
          read_le = readable_ok.linked.read_le;
          flush_le = omega (arith, size, ins.some_node);
          submitted = submitted;
        };
        counted = rw same readable_ok.counted;
        peeked = rw same readable_ok.peeked;
      };
      written = rw from_flush ins.written;
      flush_le = omega (arith, size, ins.some_node);
      write_lt = omega (arith, size, ins.some_node);
      clean =
          let none_left : drop (suc (length chain - 1)) chain ≡ [] =
            drop_all (suc (length chain - 1)) chain (omega arith) in
          rw none_left tt;
      sized = omega (
        arith,
        v.sized,
        ap length placed,
        length-append (take k (pending b)) (extra ++ drop k (pending b)),
        length-append extra (drop k (pending b)),
        length-append (take k (pending b)) (drop k (pending b)),
        ap length (take-append-drop k (pending b)),
      );
    };
    placed = placed;
    same = same;
  }

-- `WriteDirect` puts its slice before the last `remain` of the bytes that have been allocated and not
-- submitted, in whichever node that place is, and moves no other byte; what can be read stays, and
-- nothing panics. The buffer satisfies `IsWritable`, and at least `remain` bytes have been allocated.
pub write_direct-Placed :
    (extra : List ℕ) (remain : ℕ) (b : LinkBuffer)
    → IsWritable b
    → remain ≤ b.malloc_size
    → (b' : LinkBuffer) × (write_direct extra (pos remain) b ≡ ok b')
      × Placed (b.malloc_size - remain) extra b b'
unfolding write_direct direct_body
write_direct-Placed [] remain b v le =
    let k = b.malloc_size - remain in
    (b, refl, record { valid = v; placed = sym (take-append-drop k (pending b)); same = refl })
write_direct-Placed (x ∷ xs) remain b v le =
    let extra = x ∷ xs in
    let some_bytes : (length extra == 0) ≡ false = ground arith in
    let (new, runs, ins) =
      direct_nodes-Inserted (ltb 0 remain) (b.malloc_size - remain) extra (drop b.flush b.nodes)
        v.written (omega (arith, length-drop b.flush b.nodes, v.flush_le, v.write_lt))
        (omega (arith, v.sized))
        (elim (Bool-cases (ltb 0 remain)) [
          | inl more ↦ inl more
          | inr none_behind ↦ inr (ground (arith, v.sized))
        ]) in
    (after v ins, rw (some_bytes, le→leb remain b.malloc_size le, runs), Inserted-Placed v ins)
