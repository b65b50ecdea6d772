-- ===== src/LinkBuffer/Book/Input.antt =====
-- nocopy_linkbuffer.go: a LinkBuffer that the poller fills through `book` and `bookAck`.
use native.Mathlib.Numerals.{add-one}
use netpoll.Base.{
  ℕ, suc, ◌+◌, ◌≤◌, ◌≡◌, refl, ap, ◌∙◌, inl, inr, List, [], ◌∷◌, ◌++◌, append-nil, arith, ◌==◌,
  Bool-cases, All, length, take, drop, length-append, drop_all, drop-append_left, All-append,
  take-last,
}
use netpoll.LinkBuffer.Node.{Node, unread, IsNode}
use netpoll.LinkBuffer.State.{
  LinkBuffer, content, content-append, readable, PeekedPrefix, IsReadable,
}
use netpoll.LinkBuffer.Writer.{new_node}

-- The write node is the last of the chain, and all that it has allocated is submitted.
pub record IsTailed (b : LinkBuffer) : Type 0 where
  pub before : List Node
  pub tail : Node
  pub nodes : b.nodes ≡ before ++ (tail ∷ [])
  pub write : b.write ≡ length before
  pub read_le : b.read ≤ length before
  pub valid : All IsNode (drop b.read before)
  pub tail_ok : IsNode tail
  pub full : tail.malloc ≡ tail.len
  pub counted : b.length ≡ length (readable b)
  pub peeked : PeekedPrefix b.cache_peek (readable b)

-- The invariant between two calls of the poller.
pub record IsInput (b : LinkBuffer) : Type 0 where
  pub tailed : IsTailed b
  pub flush : b.flush ≡ b.write

-- What can be read of such a chain.
pub readable-tailed :
    (b : LinkBuffer) (t : IsTailed b) → readable b ≡ content (drop b.read t.before) ++ unread t.tail
readable-tailed b t = rw (
  t.nodes,
  drop-append_left b.read t.before (t.tail ∷ []) t.read_le,
  content-append (drop b.read t.before) (t.tail ∷ []),
  append-nil (unread t.tail),
)

-- A LinkBuffer that the poller fills can be read by all of `LinkBuffer.Reader`.
pub IsInput-IsReadable : (b : LinkBuffer) → IsInput b → IsReadable b
IsInput-IsReadable b v =
    let t = v.tailed in
    let e : b.flush ≡ length t.before = v.flush ∙ t.write in
    record {
      linked = record {
        valid =
            rw (t.nodes, drop-append_left b.read t.before (t.tail ∷ []) t.read_le)
              (All-append IsNode (drop b.read t.before) (t.tail ∷ []) t.valid (t.tail_ok, tt));
        read_le = omega (arith, t.read_le, e);
        flush_le = omega (arith, e, ap length t.nodes, length-append t.before (t.tail ∷ []));
        submitted = rw (
          t.nodes,
          drop_all (suc b.flush) (t.before ++ (t.tail ∷ []))
              (omega (arith, e, length-append t.before (t.tail ∷ []))),
        );
      };
      counted = t.counted;
      peeked = t.peeked;
    }

-- The chain gets a fresh node behind the write node.
unfoldable pub grown : Node → LinkBuffer → LinkBuffer
grown new b = record b { nodes = take (b.write + 1) b.nodes ++ (new ∷ []); write = b.write + 1 }

pub grown-IsTailed :
    (b : LinkBuffer) (new : Node) (t : IsTailed b)
    → IsNode new
    → new.malloc ≡ new.len
    → unread new ≡ []
    → (readable (grown new b) ≡ readable b) × (t' : IsTailed (grown new b)) × (t'.tail ≡ new)
unfolding grown
grown-IsTailed b new t v f e = (
  same,
  record {
    before = t.before ++ (t.tail ∷ []);
    tail = new;
    nodes = nodes;
    write = omega (arith, t.write, length-append t.before (t.tail ∷ []));
    read_le = omega (arith, t.read_le, length-append t.before (t.tail ∷ []));
    valid =
        rw (drop-append_left b.read t.before (t.tail ∷ []) t.read_le)
          (All-append IsNode (drop b.read t.before) (t.tail ∷ []) t.valid (t.tail_ok, tt));
    tail_ok = v;
    full = f;
    counted = rw same t.counted;
    peeked = rw same t.peeked;
  },
  refl,
)
  where
    nodes : take (b.write + 1) b.nodes ++ (new ∷ []) ≡ (t.before ++ (t.tail ∷ [])) ++ (new ∷ [])
    nodes = rw (t.nodes, t.write, add-one, take-last t.before t.tail)

    same : readable (grown new b) ≡ readable b
    same = rw (
      nodes,
      t.nodes,
      drop-append_left b.read (t.before ++ (t.tail ∷ [])) (new ∷ [])
          (omega (arith, t.read_le, length-append t.before (t.tail ∷ []))),
      content-append (drop b.read (t.before ++ (t.tail ∷ []))) (new ∷ []),
      e,
      append-nil (content (drop b.read (t.before ++ (t.tail ∷ [])))),
    )

-- A new node of `maxSize`, as `book` and `resetTail` link it in.
pub new_node-empty :
    (alloc : ℕ → List ℕ) (link_buffer_cap size : ℕ)
    → IsNode (new_node alloc link_buffer_cap size)
      × ((new_node alloc link_buffer_cap size).malloc ≡ 0)
      × ((new_node alloc link_buffer_cap size).len ≡ 0)
      × (unread (new_node alloc link_buffer_cap size) ≡ [])
unfolding new_node unread
new_node-empty alloc link_buffer_cap size = elim (Bool-cases (size == 0)) [
  | inl zero_size ↦
      rw zero_size (record { read_le = omega arith; len_le = omega arith }, refl, refl, refl)
  | inr some_size ↦
      rw some_size (record { read_le = omega arith; len_le = omega arith }, refl, refl, refl)
]
