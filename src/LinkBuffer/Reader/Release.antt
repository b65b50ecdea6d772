-- ===== src/LinkBuffer/Reader/Release.antt =====
-- `Release` of nocopy_linkbuffer.go.
use netpoll.Base.{
  ℕ, suc, ◌+◌, ◌-◌, ◌≤◌, ◌≡◌, refl, sym, ap, ◌∙◌, ◌≢◌, inl, inr, true, ◌&&◌, not, Option, none,
  some, List, [], ◌∷◌, ◌++◌, arith, ◌==◌, le→leb, Bool-cases, All, length, drop, length-zero,
  length-drop, drop-drop, All-drop,
}
use netpoll.LinkBuffer.Node.{Node, node_len, unread, IsNode, length-unread}
use netpoll.LinkBuffer.State.{LinkBuffer, ok, chain, content, readable, IsReadable}
use netpoll.LinkBuffer.Reader.{skip_read, release}

-- Where the first loop stops; that can be behind the last node, where `flush` is nil.
record Stops (r flush : ℕ) (nds : List Node) (out : Option ℕ) : Type 0 where
  passed : ℕ
  runs : out ≡ some (r + passed)
  same : content (drop passed nds) ≡ content nds
  within : r + passed ≤ flush

skip_read-Stops :
    (r flush : ℕ) (nds : List Node)
    → All IsNode nds
    → r ≤ flush
    → flush ≤ r + length nds
    → Stops r flush nds (skip_read r flush nds)
unfolding skip_read
skip_read-Stops r flush [] v le h =
    let at : (r == flush) ≡ true = ground arith in
    record {
      passed = 0;
      runs = rw at (ap (λ k. some k) (omega arith));
      same = refl;
      within = omega arith;
    }
skip_read-Stops r flush (nd ∷ nds) v le h =
    elim (Bool-cases (not (r == flush) && (node_len nd == 0))) [
      | inl on ↦
          let empty : node_len nd ≡ 0 = ground arith in
          let before : r ≢ flush = ground arith in
          let none_here : unread nd ≡ [] =
            length-zero (unread nd) (omega (arith, length-unread nd v.0)) in
          let x = skip_read-Stops (r + 1) flush nds v.1 (omega arith) (omega arith) in
          record {
            passed = suc x.passed;
            runs = rw (on, x.runs) (ap (λ k. some k) (omega arith));
            same = x.same ∙ sym (ap (λ bs. bs ++ content nds) none_here);
            within = omega (arith, x.within);
          }
      | inr stop ↦ record {
        passed = 0;
        runs = rw stop (ap (λ k. some k) (omega arith));
        same = refl;
        within = omega arith;
      }
    ]

-- What `Release` leaves: the same bytes, in the nodes from the new `b.read` on.
pub record Released (b b' : LinkBuffer) : Type 0 where
  pub same : readable b' ≡ readable b
  pub valid : IsReadable b'
  pub at_head : b'.read ≡ 0
  pub dropped : ℕ
  pub nodes : b'.nodes ≡ drop dropped b.nodes
  pub flush : b'.flush + dropped ≡ b.flush
  pub write : b'.write + dropped ≡ b.write
  pub malloc_size : b'.malloc_size ≡ b.malloc_size
  pub freed : (b'.caches ≡ []) × (b'.cache_peek ≡ none)

-- `Release` gives back only nodes that have been read to their end: the bytes to be read stay, the
-- pointers stay on their nodes, and the copies that `Next` and `Peek` made are freed. The buffer
-- satisfies `IsReadable`, with `b.flush` not past `b.write`.
pub release-Released :
    (b : LinkBuffer)
    → IsReadable b
    → b.flush ≤ b.write
    → (b' : LinkBuffer) × (release b ≡ ok b') × Released b b'
unfolding release
release-Released b v le = (
  record b {
    nodes = drop r b.nodes;
    read = 0;
    flush = b.flush - r;
    write = b.write - r;
    caches = [];
    cache_peek = none;
  },
  rw (x.runs, le→leb r b.flush x.within, le→leb r b.write (omega (arith, x.within))),
  record {
    same = same;
    valid = record {
      linked = record {
        valid =
            rw (← drop-drop x.passed b.read b.nodes)
              (All-drop IsNode x.passed (chain b) v.linked.valid);
        read_le = omega arith;
        flush_le = omega (arith, x.within, length-drop r b.nodes, v.linked.flush_le);
        submitted =
            let at : r + suc (b.flush - r) ≡ suc b.flush = omega (arith, x.within) in
            rw (drop-drop (suc (b.flush - r)) r b.nodes, at) v.linked.submitted;
      };
      counted = rw same v.counted;
      peeked = tt;
    };
    at_head = refl;
    dropped = r;
    nodes = refl;
    flush = omega (arith, x.within);
    write = omega (arith, x.within);
    malloc_size = refl;
    freed = (refl, refl);
  },
)
  where
    x : Stops b.read b.flush (chain b) (skip_read b.read b.flush (chain b))
    x =
        skip_read-Stops b.read b.flush (chain b) v.linked.valid v.linked.read_le
          (omega (arith, length-drop b.read b.nodes, v.linked.flush_le, v.linked.read_le))

    r : ℕ
    r = b.read + x.passed

    same : content (drop (b.read + x.passed) b.nodes) ≡ readable b
    same = rw (← drop-drop x.passed b.read b.nodes) x.same
