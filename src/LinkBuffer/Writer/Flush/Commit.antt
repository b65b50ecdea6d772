-- ===== src/LinkBuffer/Writer/Flush/Commit.antt =====
-- The loop of `Flush` of nocopy_linkbuffer.go on the nodes from the flush node on.

use netpoll.Base.{
  ℕ, zero, suc, ◌+◌, ◌-◌, ◌≡◌, refl, sym, ap, ◌∙◌, inl, inr, Option, none, some, List, [], ◌∷◌,
  ◌++◌, map, append-nil, append_assoc, arith, ltb, Bool-cases, All, length, take, drop,
  length-append, length-take, length-drop, take-append_left, drop-drop, take_add,
}
use netpoll.LinkBuffer.Node.{Node, unread}
use netpoll.LinkBuffer.State.{CachePeek, content, content-append, PeekedPrefix}
use netpoll.LinkBuffer.Writer.{commit, deltas}
use netpoll.LinkBuffer.Writer.Pending.{
  pend, pending_nodes, IsWritten, IsClean, pending-append, pending-clean, content-clean,
}

pub pend-commit : (nd : Node) → pend (commit nd) ≡ []
unfolding pend
pend-commit nd = elim (Bool-cases (ltb nd.len nd.malloc)) [
  | inl more ↦ let z : nd.malloc - nd.malloc ≡ 0 = omega arith in rw (more, z)
  | inr same ↦ let z : nd.malloc - nd.len ≡ 0 = ground arith in rw (same, z)
]

pub unread-commit : (nd : Node) → IsWritten nd → unread (commit nd) ≡ unread nd ++ pend nd
unfolding pend unread
unread-commit nd v = elim (Bool-cases (ltb nd.len nd.malloc)) [
  | inl more ↦
      let e : nd.malloc - nd.off ≡ (nd.len - nd.off) + (nd.malloc - nd.len) =
        omega (arith, v.off_le, v.len_le) in
      let at : nd.off + (nd.len - nd.off) ≡ nd.len = omega (arith, v.off_le) in
      rw (
        more,
        e,
        take_add (nd.len - nd.off) (nd.malloc - nd.len) (drop nd.off nd.mem),
        drop-drop (nd.len - nd.off) nd.off nd.mem,
        at,
      )
  | inr same ↦
      let z : nd.malloc - nd.len ≡ 0 = ground arith in
      rw (same, z, append-nil (take (nd.len - nd.off) (drop nd.off nd.mem)))
]

pub IsWritten-commit : (nd : Node) → IsWritten nd → IsWritten (commit nd)
IsWritten-commit nd v = elim (Bool-cases (ltb nd.len nd.malloc)) [
  | inl more ↦ rw more (record {
    off_le = omega (arith, v.off_le, v.len_le);
    len_le = omega arith;
    malloc_le = v.malloc_le;
  })
  | inr same ↦ rw same v
]

pub All-commit : (nds : List Node) → All IsWritten nds → All IsWritten (map commit nds)
All-commit [] v = tt
All-commit (nd ∷ nds) v = (IsWritten-commit nd v.0, All-commit nds v.1)

pub pending-commit : (nds : List Node) → pending_nodes (map commit nds) ≡ []
pending-commit [] = refl
pending-commit (nd ∷ nds) = rw (pend-commit nd, pending-commit nds)

pub empty_left : (xs ys : List ℕ) → xs ++ ys ≡ [] → xs ≡ []
empty_left [] ys e = refl
empty_left (x ∷ xs) ys e = cc

pub empty_right : (xs ys : List ℕ) → xs ++ ys ≡ [] → ys ≡ []
empty_right [] ys e = e
empty_right (x ∷ xs) ys e = cc

-- Behind the first node nothing can be read yet.
pub content-commit_tail :
    (nds : List Node)
    → All IsWritten nds
    → content nds ≡ []
    → content (map commit nds) ≡ pending_nodes nds
content-commit_tail [] v e = refl
content-commit_tail (nd ∷ nds) v e =
    let here : unread nd ≡ [] = empty_left (unread nd) (content nds) e in
    let rest : content nds ≡ [] = rw here at e in
    rw (unread-commit nd v.0, here, content-commit_tail nds v.1 rest)

pub content-commit :
    (nds : List Node)
    → All IsWritten nds
    → content (drop 1 nds) ≡ []
    → content (map commit nds) ≡ content nds ++ pending_nodes nds
content-commit [] v e = refl
content-commit (nd ∷ nds) v e =
    rw (unread-commit nd v.0, content-commit_tail nds v.1 e, e, append-nil (unread nd))
      (append_assoc (unread nd) (pend nd) (pending_nodes nds))

pub deltas-length : (nds : List Node) → All IsWritten nds → deltas nds ≡ length (pending_nodes nds)
unfolding deltas pend
deltas-length [] v = refl
deltas-length (nd ∷ nds) v = omega (
  arith,
  deltas-length nds v.1,
  v.0.malloc_le,
  length-append (take (nd.malloc - nd.len) (drop nd.len nd.mem)) (pending_nodes nds),
  length-take (nd.malloc - nd.len) (drop nd.len nd.mem),
  length-drop nd.len nd.mem,
)

pub PeekedPrefix-append :
    (c : Option CachePeek) (xs ys : List ℕ) → PeekedPrefix c xs → PeekedPrefix c (xs ++ ys)
PeekedPrefix-append none xs ys h = tt
PeekedPrefix-append (some c) xs ys h = (
  h.0
      ∙ sym (
          take-append_left (length c.bytes) xs ys
            (omega (arith, ap length (h.0), length-take (length c.bytes) xs))),
  h.1,
)

pub pending-drop :
    (k : ℕ) (nds : List Node) → pending_nodes nds ≡ [] → pending_nodes (drop k nds) ≡ []
pending-drop zero nds e = e
pending-drop (suc k) [] e = e
pending-drop (suc k) (nd ∷ nds) e = pending-drop k nds (empty_right (pend nd) (pending_nodes nds) e)

pub content-commit_chain :
    (front todo rest : List Node)
    → All IsWritten todo
    → All IsClean rest
    → content (drop 1 (todo ++ rest)) ≡ []
    → content (front ++ (map commit todo ++ rest))
      ≡ content (front ++ (todo ++ rest)) ++ pending_nodes (todo ++ rest)
content-commit_chain front todo rest v c e =
    rw
      (
        content-append front (map commit todo ++ rest),
        content-append front (todo ++ rest),
        content-append (map commit todo) rest,
        content-append todo rest,
        content-clean rest c,
        pending-append todo rest,
        pending-clean rest c,
        content-commit todo v (tail todo e),
        append-nil (content todo ++ pending_nodes todo),
        append-nil (content todo),
        append-nil (pending_nodes todo),
      )
      (sym (append_assoc (content front) (content todo) (pending_nodes todo)))
  where
    tail : (xs : List Node) → content (drop 1 (xs ++ rest)) ≡ [] → content (drop 1 xs) ≡ []
    tail [] h = refl
    tail (x ∷ xs) h = empty_left (content xs) (content rest) (rw (content-append xs rest) at h)
