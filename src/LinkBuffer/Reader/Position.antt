-- ===== src/LinkBuffer/Reader/Position.antt =====
-- The read pointer of nocopy_linkbuffer.go: where `isSingleNode` leaves it, and the invariant
-- of the chain behind a move of it.
use netpoll.Base.{
  ℕ, suc, ◌+◌, ◌-◌, ◌≤◌, ◌<◌, ◌≡◌, sym, ◌∙◌, false, some, List, [], ◌∷◌, ◌++◌, arith, leb, ◌==◌,
  length, take, drop, drop-drop, drop-splice, length-splice, get_elem?-drop, All-drop,
}
use netpoll.LinkBuffer.Node.{Node, node_len, IsNode}
use netpoll.LinkBuffer.State.{LinkBuffer, chain, content, readable, IsChain}
use netpoll.LinkBuffer.Reader.{skip_empty, is_single_node}
use netpoll.LinkBuffer.Reader.Chain.{Moves, Lands, skip_empty-Lands}

module _ {nodes : List Node} {r flush : ℕ} (v : IsChain nodes r flush) where
  pub read-le-length : r ≤ length nodes
  read-le-length = omega (arith, v.read_le, v.flush_le)

  -- The submitted part, counted from the read pointer.
  pub submitted_from_read : content (drop (suc (flush - r)) (drop r nodes)) ≡ []
  submitted_from_read =
      let at : r + suc (flush - r) ≡ suc flush = omega (arith, v.read_le) in
      rw (drop-drop (suc (flush - r)) r nodes, at) v.submitted

  module _ {n k : ℕ} {nds : List Node} (m : Moves n k (drop r nodes) nds) where
    pub moved-content :
        content (drop (r + k) (take r nodes ++ nds)) ≡ drop n (content (drop r nodes))
    moved-content = rw (drop-splice r k nodes nds read-le-length) m.left

    pub moved-IsChain : IsChain (take r nodes ++ nds) (r + k) flush
    moved-IsChain = record {
      valid = rw (drop-splice r k nodes nds read-le-length) m.valid;
      read_le = within;
      flush_le = omega (arith, v.flush_le, length-splice r nodes nds read-le-length m.same_length);
      submitted =
          let at : suc flush ≡ r + suc (flush - r) = omega (arith, v.read_le) in
          rw
            (
              at,
              drop-splice r (suc (flush - r)) nodes nds read-le-length,
              m.beyond (flush - r) (omega (arith, within)),
            )
            submitted_from_read;
    }
      where
        within : r + k ≤ flush
        within = omega (arith, m.within (flush - r) submitted_from_read, v.read_le)

-- `isSingleNode` stops at a node, from which the same bytes are to be read.
pub record Single (n : ℕ) (b : LinkBuffer) : Type 0 where
  pub passed : ℕ
  pub node : Node
  pub rest : List Node
  pub runs : is_single_node n b ≡ some (leb n (node_len node), record b { read = b.read + passed })
  pub here : drop (b.read + passed) b.nodes ≡ node ∷ rest
  pub same : content (node ∷ rest) ≡ readable b
  pub linked : IsChain b.nodes (b.read + passed) b.flush

pub is_single_node_lem :
    (n : ℕ) (b : LinkBuffer)
    → IsChain b.nodes b.read b.flush
    → 0 < n
    → 0 < length (readable b)
    → Single n b
unfolding is_single_node
is_single_node_lem n b v p h = record {
  passed = x.passed;
  node = x.node;
  rest = x.rest;
  runs =
      let positive : (n == 0) ≡ false = ground arith in
      rw (positive, x.runs, get_elem?-drop (b.read + x.passed) b.nodes at);
  here = at;
  same = x.same;
  linked = record {
    valid = rw (← drop-drop x.passed b.read b.nodes) (All-drop IsNode x.passed (chain b) v.valid);
    read_le = x.within;
    flush_le = v.flush_le;
    submitted = v.submitted;
  };
}
  where
    x : Lands b.read b.flush (chain b) (skip_empty b.read b.flush (chain b))
    x = skip_empty-Lands b.read b.flush (chain b) v.valid v.read_le h (submitted_from_read v)

    at : drop (b.read + x.passed) b.nodes ≡ x.node ∷ x.rest
    at = sym (drop-drop x.passed b.read b.nodes) ∙ x.here
