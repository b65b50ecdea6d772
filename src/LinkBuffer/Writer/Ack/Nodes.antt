-- ===== src/LinkBuffer/Writer/Ack/Nodes.antt =====
-- The loop of `MallocAck` of nocopy_linkbuffer.go on the chain from the flush node on.

use netpoll.Base.{
  ℕ, zero, suc, ◌+◌, ◌-◌, ◌≤◌, ◌<◌, ◌≡◌, refl, sym, ap, ◌∙◌, inl, inr, some, List, [], ◌∷◌, ◌++◌,
  map, append-nil, arith, leb, leb→le, Bool-cases, All, length, take, drop, length-append,
  length-take, length-drop, take-append_left, take-append_right, take-take,
}
use netpoll.LinkBuffer.Node.{Node, unread}
use netpoll.LinkBuffer.State.{content}
use netpoll.LinkBuffer.Writer.{discard, ack_nodes}
use netpoll.LinkBuffer.Writer.Pending.{pend, pending_nodes, IsWritten, IsClean}
use netpoll.LinkBuffer.Writer.Flush.Commit.{empty_left, empty_right}

pub length-pend : (nd : Node) → IsWritten nd → length (pend nd) ≡ nd.malloc - nd.len
unfolding pend
length-pend nd v = omega (
  arith,
  length-take (nd.malloc - nd.len) (drop nd.len nd.mem),
  length-drop nd.len nd.mem,
  v.malloc_le,
)

pub shorter_lem :
    (n : ℕ) (nd : Node)
    → n ≤ nd.malloc - nd.len
    → pend (record nd { malloc = n + nd.len }) ≡ take n (pend nd)
unfolding pend
shorter_lem n nd fit =
    let e : n + nd.len - nd.len ≡ n = omega arith in
    rw e (sym (take-take n (nd.malloc - nd.len) (drop nd.len nd.mem) fit))

-- The chain from `b.flush` on after the loop, which leaves `b.write` at the node `k`.
pub record Acked (p : List ℕ) (k : ℕ) (old new : List Node) : Type 0 where
  pub kept : pending_nodes (take (suc k) new) ≡ p
  pub content_eq : content new ≡ content old
  pub tail_eq : content (drop 1 new) ≡ content (drop 1 old)
  pub written : All IsWritten (take (suc k) new)
  pub inside : k < length new

pub record Acks (n : ℕ) (nds : List Node) : Type 0 where
  pub passed : ℕ
  pub after : List Node
  pub runs : ack_nodes n nds ≡ some (passed, after)
  pub acked : Acked (take n (pending_nodes nds)) passed nds after

pub ack_nodes-Acks :
    (n : ℕ) (nds : List Node)
    → All IsWritten nds
    → 0 < n
    → n ≤ length (pending_nodes nds)
    → Acks n nds
unfolding ack_nodes unread
ack_nodes-Acks n [] v p h = absurd (omega arith)
ack_nodes-Acks n (nd ∷ nds) v p h = elim (Bool-cases (leb n (nd.malloc - nd.len))) [
  | inl here ↦
      let fit : n ≤ nd.malloc - nd.len = leb→le n (nd.malloc - nd.len) here in
      record {
        passed = 0;
        after = record nd { malloc = n + nd.len } ∷ nds;
        runs = rw here;
        acked = record {
          kept =
              append-nil (pend (record nd { malloc = n + nd.len }))
              ∙ shorter_lem n nd fit
              ∙ sym (
                  take-append_left n (pend nd) (pending_nodes nds)
                    (omega (arith, length-pend nd v.0)));
          content_eq = refl;
          tail_eq = refl;
          written = (
            record {
              off_le = v.0.off_le;
              len_le = omega arith;
              malloc_le = omega (arith, v.0.malloc_le, v.0.len_le);
            },
            tt,
          );
          inside = omega arith;
        };
      }
  | inr on ↦
      let past : nd.malloc - nd.len < n = ground arith in
      let size = length-pend nd v.0 in
      let x =
        ack_nodes-Acks (n - (nd.malloc - nd.len)) nds v.1 (omega arith)
          (omega (arith, size, length-append (pend nd) (pending_nodes nds))) in
      record {
        passed = suc x.passed;
        after = nd ∷ x.after;
        runs = rw (on, x.runs);
        acked = record {
          kept = rw (
            x.acked.kept,
            take-append_right n (pend nd) (pending_nodes nds) (omega (arith, size)),
            size,
          );
          content_eq = ap (λ bs. unread nd ++ bs) x.acked.content_eq;
          tail_eq = x.acked.content_eq;
          written = (v.0, x.acked.written);
          inside = omega (arith, x.acked.inside);
        };
      }
]

pub All-discard : (nds : List Node) → All IsClean (map discard nds)
All-discard [] = tt
All-discard (nd ∷ nds) = (record { off = refl; len = refl; malloc = refl }, All-discard nds)

pub All-IsWritten : (nds : List Node) → All IsWritten (map discard nds)
All-IsWritten [] = tt
All-IsWritten (nd ∷ nds) = (
  record { off_le = omega arith; len_le = omega arith; malloc_le = omega arith },
  All-IsWritten nds,
)

pub content-drop : (k : ℕ) (nds : List Node) → content nds ≡ [] → content (drop k nds) ≡ []
content-drop zero nds e = e
content-drop (suc k) [] e = e
content-drop (suc k) (nd ∷ nds) e = content-drop k nds (empty_right (unread nd) (content nds) e)

pub content-take : (k : ℕ) (nds : List Node) → content nds ≡ [] → content (take k nds) ≡ []
content-take zero nds e = refl
content-take (suc k) [] e = e
content-take (suc k) (nd ∷ nds) e =
    rw (empty_left (unread nd) (content nds) e)
      (content-take k nds (empty_right (unread nd) (content nds) e))
