-- ===== src/LinkBuffer/Writer/Pending.antt =====
-- What a LinkBuffer of nocopy_linkbuffer.go stands for as a Writer: the bytes that `Flush` will
-- submit, the invariant of the write side, and steps at the write node.
use netpoll.Base.{
  ℕ, suc, ◌+◌, ◌-◌, ◌≤◌, ◌<◌, ◌≡◌, refl, sym, ap, ◌∙◌, inl, inr, List, [], ◌∷◌, ◌++◌, append_assoc,
  arith, leb, leb→le, Bool-cases, All, length, take, drop, length-append, length-take,
  take-append-drop, drop-drop, drop-splice, drop-splice_before, All-drop, All-take, All-append,
}
use netpoll.LinkBuffer.Node.{Node, unread, IsNode}
use netpoll.LinkBuffer.State.{LinkBuffer, content, content-append, readable, IsReadable}

-- The allocated bytes of a node that have not been submitted.
unfoldable pub pend : Node → List ℕ
pend nd = take (nd.malloc - nd.len) (drop nd.len nd.mem)

abbrev pub pending_nodes : List Node → List ℕ
pending_nodes [] = []
pending_nodes (nd ∷ nds) = pend nd ++ pending_nodes nds

abbrev pub pending : LinkBuffer → List ℕ
pending b = pending_nodes (drop b.flush b.nodes)

pub record IsWritten (nd : Node) : Type 0 where
  pub off_le : nd.off ≤ nd.len
  pub len_le : nd.len ≤ nd.malloc
  pub malloc_le : nd.malloc ≤ length nd.mem

-- A node behind `b.write`, which `growth` may take up again.
pub record IsClean (nd : Node) : Type 0 where
  pub off : nd.off ≡ 0
  pub len : nd.len ≡ 0
  pub malloc : nd.malloc ≡ 0

pub record IsWritable (b : LinkBuffer) : Type 0 where
  pub readable_ok : IsReadable b
  pub written : All IsWritten (drop b.flush b.nodes)
  pub flush_le : b.flush ≤ b.write
  pub write_lt : b.write < length b.nodes
  pub clean : All IsClean (drop (suc b.write) b.nodes)
  pub sized : b.malloc_size ≡ length (pending b)

pub IsWritten-IsNode : (nd : Node) → IsWritten nd → IsNode nd
IsWritten-IsNode nd v = record { read_le = v.off_le; len_le = omega (arith, v.len_le, v.malloc_le) }

pub All-IsNode : (nds : List Node) → All IsWritten nds → All IsNode nds
All-IsNode [] v = tt
All-IsNode (nd ∷ nds) v = (IsWritten-IsNode nd v.0, All-IsNode nds v.1)

pub pending-append :
    (xs ys : List Node) → pending_nodes (xs ++ ys) ≡ pending_nodes xs ++ pending_nodes ys
pending-append [] ys = refl
pending-append (x ∷ xs) ys =
    rw (pending-append xs ys) (sym (append_assoc (pend x) (pending_nodes xs) (pending_nodes ys)))

pub pending-clean : (nds : List Node) → All IsClean nds → pending_nodes nds ≡ []
unfolding pend
pending-clean [] v = refl
pending-clean (nd ∷ nds) v = rw (v.0.malloc, v.0.len, pending-clean nds v.1)

pub content-clean : (nds : List Node) → All IsClean nds → content nds ≡ []
unfolding unread
content-clean [] v = refl
content-clean (nd ∷ nds) v = rw (v.0.off, v.0.len, content-clean nds v.1)

-- A change of the chain from the write node on that adds `p` to what is pending, and leaves
-- what can be read.
pub record Adds (p : List ℕ) (k : ℕ) (old new : List Node) : Type 0 where
  pub pending_eq : pending_nodes new ≡ pending_nodes old ++ p
  pub content_eq : content new ≡ content old
  pub tail_eq : content (drop 1 new) ≡ content (drop 1 old)
  pub written : All IsWritten new
  pub inside : k < length new
  pub clean : All IsClean (drop (suc k) new)

-- What a method of the writer that adds `p` does.
pub record Wrote (p : List ℕ) (b b' : LinkBuffer) : Type 0 where
  pub valid : IsWritable b'
  pub added : pending b' ≡ pending b ++ p
  pub same : readable b' ≡ readable b

module _ {b : LinkBuffer} (v : IsWritable b) where
  open v use {readable_ok, written, flush_le, write_lt}

  -- The chain from a position `f` up to the write node.
  cut : ℕ → List Node
  cut f = take (b.write - f) (drop f b.nodes)

  split_at_write : (f : ℕ) → f ≤ b.write → drop f b.nodes ≡ cut f ++ drop b.write b.nodes
  unfolding cut
  split_at_write f h =
      let e : f + (b.write - f) ≡ b.write = omega arith in
      sym (take-append-drop (b.write - f) (drop f b.nodes))
      ∙ ap (λ xs. cut f ++ xs) (rw (drop-drop (b.write - f) f b.nodes, e))

  pub read_le_write : b.read ≤ b.write
  read_le_write = omega (arith, readable_ok.linked.read_le, flush_le)

  -- The nodes from the write node on.
  pub from_write : All IsWritten (drop b.write b.nodes)
  from_write =
      let e : b.flush + (b.write - b.flush) ≡ b.write = omega arith in
      rw (← e, ← drop-drop (b.write - b.flush) b.flush b.nodes)
        (All-drop IsWritten (b.write - b.flush) (drop b.flush b.nodes) written)

  module _ {p : List ℕ} {k : ℕ} {new : List Node} (a : Adds p k (drop b.write b.nodes) new) where
    abbrev pub after : LinkBuffer
    after = record b {
      nodes = take b.write b.nodes ++ new;
      write = b.write + k;
      malloc_size = b.malloc_size + length p;
    }

    from : (f : ℕ) → f ≤ b.write → drop f after.nodes ≡ cut f ++ new
    unfolding cut
    from f h = drop-splice_before f b.write b.nodes new h (omega arith)

    added : pending after ≡ pending b ++ p
    added =
        rw
          (
            from b.flush flush_le,
            split_at_write b.flush flush_le,
            pending-append (cut b.flush) new,
            pending-append (cut b.flush) (drop b.write b.nodes),
            a.pending_eq,
          )
          (sym
            (append_assoc (pending_nodes (cut b.flush)) (pending_nodes (drop b.write b.nodes)) p))

    same : readable after ≡ readable b
    same = rw (
      from b.read read_le_write,
      split_at_write b.read read_le_write,
      content-append (cut b.read) new,
      content-append (cut b.read) (drop b.write b.nodes),
      a.content_eq,
    )

    submitted : content (drop (suc b.flush) after.nodes) ≡ []
    submitted = elim (Bool-cases (leb (suc b.flush) b.write)) [
      | inl more ↦
          let h = leb→le (suc b.flush) b.write more in
          rw
            (
              from (suc b.flush) h,
              content-append (cut (suc b.flush)) new,
              a.content_eq,
              ← content-append (cut (suc b.flush)) (drop b.write b.nodes),
              ← split_at_write (suc b.flush) h,
            )
            readable_ok.linked.submitted
      | inr last ↦
          let e : suc b.flush ≡ b.write + 1 = ground (arith, flush_le) in
          rw
            (
              e,
              drop-splice b.write 1 b.nodes new (omega arith),
              a.tail_eq,
              drop-drop 1 b.write b.nodes,
              ← e,
            )
            readable_ok.linked.submitted
    ]

    pub Adds-Wrote : Wrote p b after
    unfolding cut
    Adds-Wrote = record {
      valid = record {
        readable_ok = record {
          linked = record {
            valid = rw (from b.read read_le_write) (
                All-append IsNode (cut b.read) new
                  (All-take IsNode (b.write - b.read) (drop b.read b.nodes)
                    readable_ok.linked.valid)
                  (All-IsNode new a.written));
            read_le = readable_ok.linked.read_le;
            flush_le = omega (arith, size, a.inside);
            submitted = submitted;
          };
          counted = rw same readable_ok.counted;
          peeked = rw same readable_ok.peeked;
        };
        written = rw (from b.flush flush_le) (
            All-append IsWritten (cut b.flush) new
              (All-take IsWritten (b.write - b.flush) (drop b.flush b.nodes) written) a.written);
        flush_le = omega arith;
        write_lt = omega (arith, size, a.inside);
        clean =
            let e : suc (b.write + k) ≡ b.write + suc k = omega arith in
            rw (e, drop-splice b.write (suc k) b.nodes new (omega arith)) a.clean;
        sized = omega (arith, v.sized, ap length added, length-append (pending b) p);
      };
      added = added;
      same = same;
    }
      where
        size : length after.nodes ≡ b.write + length new
        size =
            omega (
              arith,
              length-append (take b.write b.nodes) new,
              length-take b.write b.nodes,
              write_lt,
            )
