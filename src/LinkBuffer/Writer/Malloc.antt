-- ===== src/LinkBuffer/Writer/Malloc.antt =====
-- `growth`, `Malloc` and `WriteBinary` of nocopy_linkbuffer.go.
use netpoll.Base.{
  ℕ, zero, suc, ◌+◌, ◌≤◌, ◌<◌, ◌≡◌, refl, sym, ap, ◌∙◌, inl, inr, false, Option, some, List, [],
  ◌∷◌, ◌++◌, append-nil, append_assoc, arith, ltb, ◌==◌, le→leb, Bool-cases, All, length, get_elem?,
  set, take, drop, length-set, get_elem?-set_self, length-drop, drop-drop, get_elem?-splice,
  set-splice, set-set, drop-set,
}
use native.Mathlib.Numerals.{add-one}
use netpoll.LinkBuffer.Node.{Node, node_malloc, unread}
use netpoll.LinkBuffer.State.{LinkBuffer, content}
use netpoll.LinkBuffer.Writer.{new_node, unfit, growth_nodes, malloc_body, fill}
use netpoll.LinkBuffer.Writer.Pending.{
  pend, pending_nodes, IsWritten, IsClean, IsWritable, pending-clean, content-clean, Adds,
  Adds-Wrote, Wrote, from_write,
}
use netpoll.LinkBuffer.Writer.Fill.{filled, filled_lem}

-- A write node gets a new value.
set-pending :
    (nds : List Node) (k : ℕ) (nd nd' : Node) (p : List ℕ)
    → get_elem? nds k ≡ some nd
    → All IsClean (drop (suc k) nds)
    → pend nd' ≡ pend nd ++ p
    → pending_nodes (set nds k nd') ≡ pending_nodes nds ++ p
set-pending [] k nd nd' p e c f = cc
set-pending (x ∷ xs) zero nd nd' p e c f =
    let same : x ≡ nd = cc in
    rw (f, pending-clean xs c, same, append-nil (pend nd), append-nil (pend nd ++ p))
set-pending (x ∷ xs) (suc k) nd nd' p e c f =
    rw (set-pending xs k nd nd' p e c f) (sym (append_assoc (pend x) (pending_nodes xs) p))

set-content :
    (nds : List Node) (k : ℕ) (nd nd' : Node)
    → get_elem? nds k ≡ some nd
    → unread nd' ≡ unread nd
    → content (set nds k nd') ≡ content nds
set-content [] k nd nd' e f = refl
set-content (x ∷ xs) zero nd nd' e f = let same : x ≡ nd = cc in rw (f, same)
set-content (x ∷ xs) (suc k) nd nd' e f = rw (set-content xs k nd nd' e f)

set-content-tail :
    (nds : List Node) (k : ℕ) (nd nd' : Node)
    → get_elem? nds k ≡ some nd
    → unread nd' ≡ unread nd
    → content (drop 1 (set nds k nd')) ≡ content (drop 1 nds)
set-content-tail [] k nd nd' e f = refl
set-content-tail (x ∷ xs) zero nd nd' e f = refl
set-content-tail (x ∷ xs) (suc k) nd nd' e f = set-content xs k nd nd' e f

All-set :
    (nds : List Node) (k : ℕ) (nd' : Node)
    → All IsWritten nds
    → IsWritten nd'
    → All IsWritten (set nds k nd')
All-set [] k nd' v w = tt
All-set (x ∷ xs) zero nd' v w = (w, v.1)
All-set (x ∷ xs) (suc k) nd' v w = (v.0, All-set xs k nd' v.1 w)

lt-of-get_elem? : (nds : List Node) (k : ℕ) {nd : Node} → get_elem? nds k ≡ some nd → k < length nds
lt-of-get_elem? [] k e = cc
lt-of-get_elem? (x ∷ xs) zero e = omega arith
lt-of-get_elem? (x ∷ xs) (suc k) e = omega (arith, lt-of-get_elem? xs k e)

-- The write node after `growth`: it has room for `n`, and nothing else has changed.
pub record Grown (n : ℕ) (old : List Node) (out : Option (ℕ × List Node)) : Type 0 where
  pub passed : ℕ
  pub after : List Node
  pub node : Node
  pub runs : out ≡ some (passed, after)
  pub at : get_elem? after passed ≡ some node
  pub room : node.malloc + n ≤ length node.mem
  pub ours : node.readonly ≡ false
  pub written_at : IsWritten node
  pub written : All IsWritten after
  pub pending_eq : pending_nodes after ≡ pending_nodes old
  pub content_eq : content after ≡ content old
  pub tail_eq : content (drop 1 after) ≡ content (drop 1 old)
  pub clean : All IsClean (drop (suc passed) after)

module _ (alloc : ℕ → List ℕ) (link_buffer_cap : ℕ) (enough : (n : ℕ) → n ≤ length (alloc n)) where
  pub new_node_lem :
      (n : ℕ)
      → 0 < n
      → IsClean (new_node alloc link_buffer_cap n)
        × IsWritten (new_node alloc link_buffer_cap n)
        × (n ≤ length (new_node alloc link_buffer_cap n).mem)
        × ((new_node alloc link_buffer_cap n).readonly ≡ false)
  unfolding new_node
  new_node_lem n p =
      let e : (n == 0) ≡ false = ground arith in
      rw e (elim (Bool-cases (ltb n link_buffer_cap)) [
        | inl small ↦ rw small (
          record { off = refl; len = refl; malloc = refl },
          record { off_le = omega arith; len_le = omega arith; malloc_le = omega arith },
          ground (arith, enough link_buffer_cap),
          refl,
        )
        | inr large ↦ rw large (
          record { off = refl; len = refl; malloc = refl },
          record { off_le = omega arith; len_le = omega arith; malloc_le = omega arith },
          enough n,
          refl,
        )
      ])

  stays :
      (n : ℕ) (nd : Node) (nds : List Node)
      → unfit n nd ≡ false
      → All IsWritten (nd ∷ nds)
      → All IsClean nds
      → Grown n (nd ∷ nds) (some (0, nd ∷ nds))
  stays n nd nds e v c = record {
    passed = 0;
    after = nd ∷ nds;
    node = nd;
    runs = refl;
    at = refl;
    room = ground (arith, v.0.malloc_le);
    ours = ground arith;
    written_at = v.0;
    written = v;
    pending_eq = refl;
    content_eq = refl;
    tail_eq = refl;
    clean = c;
  }

  pub growth_nodes-Grown :
      (n : ℕ) (nds : List Node)
      → 0 < n
      → 0 < length nds
      → All IsWritten nds
      → All IsClean (drop 1 nds)
      → Grown n nds (growth_nodes alloc link_buffer_cap n nds)
  unfolding growth_nodes
  growth_nodes-Grown n [] p h v c = absurd (omega arith)
  growth_nodes-Grown n (nd ∷ []) p h v c = elim (Bool-cases (unfit n nd)) [
    | inl full ↦
        let fresh = new_node_lem n p in
        let new = new_node alloc link_buffer_cap n in
        rw full (record {
          passed = 1;
          after = nd ∷ new ∷ [];
          node = new;
          runs = refl;
          at = refl;
          room = omega (arith, fresh.0.malloc, fresh.2);
          ours = fresh.3;
          written_at = fresh.1;
          written = (v.0, (fresh.1, tt));
          pending_eq = rw (pending-clean (new ∷ []) (fresh.0, tt));
          content_eq = rw (content-clean (new ∷ []) (fresh.0, tt));
          tail_eq = content-clean (new ∷ []) (fresh.0, tt);
          clean = tt;
        })
    | inr fits ↦ rw fits (stays n nd [] fits v c)
  ]
  growth_nodes-Grown n (nd ∷ nd2 ∷ nds) p h v c = elim (Bool-cases (unfit n nd)) [
    | inl full ↦
        let x = growth_nodes-Grown n (nd2 ∷ nds) p (omega arith) v.1 c.1 in
        rw (full, x.runs)
          (record {
            passed = suc x.passed;
            after = nd ∷ x.after;
            node = x.node;
            runs = refl;
            at = x.at;
            room = x.room;
            ours = x.ours;
            written_at = x.written_at;
            written = (v.0, x.written);
            pending_eq = ap (λ bs. pend nd ++ bs) x.pending_eq;
            content_eq = ap (λ bs. unread nd ++ bs) x.content_eq;
            tail_eq = x.content_eq;
            clean = x.clean;
          })
    | inr fits ↦ rw fits (stays n nd (nd2 ∷ nds) fits v c)
  ]

  -- The chain after `Malloc(n)` whose slice has been filled with `q`.
  fill-Adds :
      (q : List ℕ) (nds : List Node)
      → 0 < length q
      → (x : Grown (length q) nds (growth_nodes alloc link_buffer_cap (length q) nds))
      → Adds q x.passed nds (set x.after x.passed (filled q x.node))
  fill-Adds q nds p x =
      let f = filled_lem q x.node x.written_at x.room in
      record {
        pending_eq =
            set-pending x.after x.passed x.node (filled q x.node) q x.at x.clean f.1
            ∙ ap (λ bs. bs ++ q) x.pending_eq;
        content_eq = set-content x.after x.passed x.node (filled q x.node) x.at f.2 ∙ x.content_eq;
        tail_eq = set-content-tail x.after x.passed x.node (filled q x.node) x.at f.2 ∙ x.tail_eq;
        written = All-set x.after x.passed (filled q x.node) x.written f.0;
        inside = omega (
          arith,
          lt-of-get_elem? x.after x.passed x.at,
          length-set x.after x.passed (filled q x.node),
        );
        clean = rw (drop-set x.after x.passed (filled q x.node)) x.clean;
      }

  -- `growth(n)`, `Malloc(n)` and the copy into the slice, on the whole buffer.
  pub record Filled (q : List ℕ) (b : LinkBuffer) : Type 0 where
    pub at : ℕ
    pub between : LinkBuffer
    pub after : LinkBuffer
    pub mallocs : malloc_body alloc link_buffer_cap (length q) b ≡ some (at, between)
    pub fills : fill at q between ≡ some after
    pub wrote : Wrote q b after

  pub malloc_body-Filled : (q : List ℕ) (b : LinkBuffer) → IsWritable b → 0 < length q → Filled q b
  unfolding malloc_body fill node_malloc filled
  malloc_body-Filled q b v p = record {
    at = x.node.malloc;
    between = between;
    after = record between {
      nodes = take b.write b.nodes ++ set x.after x.passed (filled q x.node);
    };
    mallocs = rw (x.runs, x.at, le→leb (x.node.malloc + length q) (length x.node.mem) x.room);
    fills = rw (
      get_elem?-splice b.write x.passed b.nodes (set x.after x.passed grown) in_range,
      get_elem?-set_self x.after x.passed grown (lt-of-get_elem? x.after x.passed x.at),
      set-splice b.write x.passed b.nodes (set x.after x.passed grown) (filled q x.node) in_range,
      set-set x.after x.passed grown (filled q x.node),
    );
    wrote = Adds-Wrote v (fill-Adds q (drop b.write b.nodes) p x);
  }
    where
      in_range : b.write ≤ length b.nodes
      in_range = omega (arith, v.write_lt)

      x :
          Grown
            (length q)
            (drop b.write b.nodes)
            (growth_nodes alloc link_buffer_cap (length q) (drop b.write b.nodes))
      x =
          growth_nodes-Grown (length q) (drop b.write b.nodes) p
            (omega (arith, length-drop b.write b.nodes, v.write_lt)) (from_write v)
            (rw (drop-drop 1 b.write b.nodes, add-one) v.clean)

      grown : Node
      grown = record (x.node) { malloc = x.node.malloc + length q }

      between : LinkBuffer
      between = record b {
        nodes = take b.write b.nodes ++ set x.after x.passed grown;
        write = b.write + x.passed;
        malloc_size = b.malloc_size + length q;
      }
