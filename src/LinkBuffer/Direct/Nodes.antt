-- ===== src/LinkBuffer/Direct/Nodes.antt =====
-- nocopy_linkbuffer.go, `WriteDirect`: the chain from `b.flush` on.
use netpoll.Base.{
  ℕ, ◌+◌, ◌-◌, ◌≤◌, ◌<◌, ◌≡◌, refl, sym, ap, ◌∙◌, ◌⊎◌, inl, inr, Bool, true, false, some, List, [],
  ◌∷◌, ◌++◌, append-nil, append_assoc, arith, ltb, le→leb, Bool-cases, All, length, take, drop,
  length-append, length-zero, length-take, length-drop, take_all, drop_all, take-append_left,
  drop-append_left, take-append_right, drop-append_right, drop-drop, take-take, drop-take,
}
use netpoll.LinkBuffer.Node.{Node, unread}
use netpoll.LinkBuffer.State.{content}
use netpoll.LinkBuffer.Writer.{wrap_node}
use netpoll.LinkBuffer.Writer.Pending.{pend, pending_nodes, IsWritten}
use netpoll.LinkBuffer.Writer.Binary.{wrap_node_lem}
use netpoll.LinkBuffer.Direct.{new_half, split_node, direct_nodes}

-- A chain into which `extra` has been put behind the first `k` pending bytes.
pub record Inserted (k : ℕ) (extra : List ℕ) (old new : List Node) : Type 0 where
  pub pending_eq :
      pending_nodes new ≡ take k (pending_nodes old) ++ (extra ++ drop k (pending_nodes old))
  pub content_eq : content new ≡ content old
  pub tail_eq : content (drop 1 new) ≡ content (drop 1 old)
  pub written : All IsWritten new
  pub some_node : 0 < length new

pub length-pend : (nd : Node) → IsWritten nd → length (pend nd) ≡ nd.malloc - nd.len
unfolding pend
length-pend nd v = omega (
  arith,
  length-take (nd.malloc - nd.len) (drop nd.len nd.mem),
  length-drop nd.len nd.mem,
  v.malloc_le,
)

-- The two halves of a node.
split_lem :
    (m : ℕ) (nd : Node)
    → IsWritten nd
    → nd.len ≤ m
    → m ≤ nd.malloc
    → (pend (record nd { malloc = m; readonly = true }) ≡ take (m - nd.len) (pend nd))
      × (pend (new_half m nd) ≡ drop (m - nd.len) (pend nd))
unfolding pend
split_lem m nd v low high = (
  sym (take-take (m - nd.len) (nd.malloc - nd.len) (drop nd.len nd.mem) (omega arith)),
  sym (
      rw
        (
          drop-take (m - nd.len) (nd.malloc - nd.len) (drop nd.len nd.mem),
          drop-drop (m - nd.len) nd.len nd.mem,
        )
        (same_part nd.mem (omega arith) (omega arith))),
)
  where
    same_part :
        {a b c d : ℕ} (xs : List ℕ) → a ≡ b → c ≡ d → take a (drop c xs) ≡ take b (drop d xs)
    same_part xs e f = rw (e, f)

unread-new_half : (m : ℕ) (nd : Node) → unread (new_half m nd) ≡ []
unfolding unread
unread-new_half m nd = let e : m - m ≡ 0 = omega arith in rw e

unread_same : (m : ℕ) (nd : Node) → unread (record nd { malloc = m; readonly = true }) ≡ unread nd
unfolding unread
unread_same m nd = refl

-- The place lies in the first node, with bytes behind it.
halves-Inserted :
    (k : ℕ) (extra : List ℕ) (nd : Node) (nds : List Node)
    → All IsWritten (nd ∷ nds)
    → k ≤ nd.malloc - nd.len
    → Inserted k extra (nd ∷ nds) (
        record nd { malloc = k + nd.len; readonly = true }
        ∷ wrap_node extra (length extra)
        ∷ new_half (k + nd.len) nd
        ∷ nds)
halves-Inserted k extra nd nds v le =
    let m = k + nd.len in
    let back : m - nd.len ≡ k = omega arith in
    let (w, whole, none_read) = wrap_node_lem extra in
    let (first, second) = split_lem m nd v.0 (omega arith) (omega (arith, v.0.len_le)) in
    let size = length-pend nd v.0 in
    let old = pending_nodes nds in
    record {
      pending_eq = rw (
        first,
        whole,
        second,
        back,
        take-append_left k (pend nd) old (omega (arith, size)),
        drop-append_left k (pend nd) old (omega (arith, size)),
      );
      content_eq = rw (unread_same m nd, none_read, unread-new_half m nd);
      tail_eq = rw (none_read, unread-new_half m nd);
      written = (
        record {
          off_le = v.0.off_le;
          len_le = omega arith;
          malloc_le = omega (arith, v.0.malloc_le, v.0.len_le);
        },
        (
          w,
          (
            record {
              off_le = omega arith;
              len_le = omega (arith, v.0.len_le);
              malloc_le = v.0.malloc_le;
            },
            v.1,
          ),
        ),
      );
      some_node = omega arith;
    }

-- The place is behind all the bytes.
last-Inserted :
    (k : ℕ) (extra : List ℕ) (nd : Node) (nds : List Node)
    → All IsWritten (nd ∷ nds)
    → k ≤ nd.malloc - nd.len
    → k ≡ length (pending_nodes (nd ∷ nds))
    → Inserted k extra (nd ∷ nds) (nd ∷ wrap_node extra (length extra) ∷ nds)
last-Inserted k extra nd nds v le e =
    let (w, whole, none_read) = wrap_node_lem extra in
    let size = length-pend nd v.0 in
    let old = pending_nodes nds in
    let none_left : old ≡ [] =
      length-zero old (omega (arith, e, size, le, length-append (pend nd) old)) in
    record {
      pending_eq =
          rw
            (
              whole,
              take_all k (pend nd ++ old) (omega (arith, e)),
              drop_all k (pend nd ++ old) (omega (arith, e)),
              none_left,
            )
            (ap (λ xs. xs ++ (extra ++ [])) (sym (append-nil (pend nd))));
      content_eq = rw none_read;
      tail_eq = rw none_read;
      written = (v.0, (w, v.1));
      some_node = omega arith;
    }

split_node-Inserted :
    (splits : Bool) (k : ℕ) (extra : List ℕ) (nd : Node) (nds : List Node)
    → All IsWritten (nd ∷ nds)
    → k ≤ nd.malloc - nd.len
    → (splits ≡ true) ⊎ (k ≡ length (pending_nodes (nd ∷ nds)))
    → (half : List Node) × (split_node splits (k + nd.len) extra nd ≡ some half)
      × Inserted k extra (nd ∷ nds) (half ++ nds)
unfolding split_node
split_node-Inserted true k extra nd nds v le all_there = (
  record nd { malloc = k + nd.len; readonly = true }
      ∷ wrap_node extra (length extra)
      ∷ new_half (k + nd.len) nd
      ∷ [],
  rw (le→leb (k + nd.len) (length nd.mem) (omega (arith, le, v.0.malloc_le, v.0.len_le))),
  halves-Inserted k extra nd nds v le,
)
split_node-Inserted false k extra nd nds v le (inl e) = cc
split_node-Inserted false k extra nd nds v le (inr e) =
    (nd ∷ wrap_node extra (length extra) ∷ [], refl, last-Inserted k extra nd nds v le e)

-- The place lies behind the first node.
cons-Inserted :
    (k t : ℕ) (extra : List ℕ) (nd : Node) (nds new : List Node)
    → IsWritten nd
    → t ≡ nd.malloc - nd.len
    → t ≤ k
    → Inserted (k - t) extra nds new
    → Inserted k extra (nd ∷ nds) (nd ∷ new)
cons-Inserted k t extra nd nds new v e le ih =
    let size : length (pend nd) ≡ t = length-pend nd v ∙ sym e in
    let old = pending_nodes nds in
    record {
      pending_eq =
          rw
            (
              ih.pending_eq,
              take-append_right k (pend nd) old (omega (arith, size)),
              drop-append_right k (pend nd) old (omega (arith, size)),
              size,
            )
            (sym (append_assoc (pend nd) (take (k - t) old) (extra ++ drop (k - t) old)));
      content_eq = ap (λ bs. unread nd ++ bs) ih.content_eq;
      tail_eq = ih.content_eq;
      written = (v, ih.written);
      some_node = omega arith;
    }

has_node : (nds : List Node) → 0 < length (pending_nodes nds) → 0 < length nds
has_node [] h = absurd (omega arith)
has_node (nd ∷ nds) h = omega arith

-- The loop of `WriteDirect` and what it links in.
pub direct_nodes-Inserted :
    (splits : Bool) (k : ℕ) (extra : List ℕ) (nds : List Node)
    → All IsWritten nds
    → 0 < length nds
    → k ≤ length (pending_nodes nds)
    → (splits ≡ true) ⊎ (k ≡ length (pending_nodes nds))
    → (new : List Node) × (direct_nodes splits k extra nds ≡ some new) × Inserted k extra nds new
unfolding direct_nodes
direct_nodes-Inserted splits k extra [] v some_node le all_there = absurd (omega arith)
direct_nodes-Inserted splits k extra (nd ∷ nds) v some_node le all_there =
    let t = nd.malloc - nd.len in
    let size = length-pend nd v.0 in
    let old = pending_nodes nds in
    let whole = length-append (pend nd) old in
    elim (Bool-cases (ltb t k)) [
      | inl more ↦
          let lt : t < k = ground arith in
          let left : k - t ≤ length old = omega (arith, le, whole, size) in
          let (new, runs, ins) =
            direct_nodes-Inserted splits (k - t) extra nds v.1 (has_node nds (omega arith)) left
              (elim all_there [ inl e ↦ inl e | inr e ↦ inr (omega (arith, e, whole, size)) ]) in
          (nd ∷ new, rw (more, runs), cons-Inserted k t extra nd nds new v.0 refl (omega arith) ins)
      | inr here ↦
          let (half, runs, ins) =
            split_node-Inserted splits k extra nd nds v (ground arith) all_there in
          (half ++ nds, rw (here, runs), ins)
    ]
