-- ===== src/LinkBuffer/Search/Laws.antt =====
-- `indexByte` and `Until` of nocopy_linkbuffer.go against a search in the list of bytes.
use mathlib.Core.Option
use mathlib.Core.Path.{fun_ext}
use netpoll.Base.{
  ℕ, ◌+◌, ◌-◌, ◌≤◌, ◌<◌, ◌≡◌, ap, inl, inr, true, false, none, some, List, [], ◌∷◌, ◌++◌, arith,
  leb, ◌==◌, if◌then◌else◌, leb→le, Bool-cases, Option-cases, All, length, drop, length-append,
  length-drop, take_all, drop_all, drop-append_left, drop-append_right,
}
use netpoll.LinkBuffer.Node.{Node, node_len, unread, IsNode, length-unread, node_peek_lem}
use netpoll.LinkBuffer.State.{LinkBuffer, chain, content, readable, IsReadable}
use netpoll.LinkBuffer.Search.{index_of, index_nodes, index_byte}

pub index_of-append :
    (c : ℕ) (xs ys : List ℕ)
    → index_of c (xs ++ ys) ≡ elim (index_of c xs) [
      | some i ↦ some i
      | none ↦ Option.map (λ i. length xs + i) (index_of c ys)
    ]
index_of-append c [] ys = elim (Option-cases (index_of c ys)) [
  | inl e ↦ rw e
  | inr (i, e) ↦ rw e (ap (λ k. some k) (omega arith))
]
index_of-append c (x ∷ xs) ys = elim (Bool-cases (c == x)) [
  | inl e ↦ rw e
  | inr e ↦
      rw (e, index_of-append c xs ys)
        (elim (Option-cases (index_of c xs)) [
          | inl e' ↦ rw e' (elim (Option-cases (index_of c ys)) [
            | inl f ↦ rw f
            | inr (i, f) ↦ rw f (ap (λ k. some k) (omega arith))
          ])
          | inr (i, e') ↦ rw e'
        ])
]

pub index_of-lt : (c : ℕ) (xs : List ℕ) (i : ℕ) → index_of c xs ≡ some i → i < length xs
index_of-lt c [] i e = cc
index_of-lt c (x ∷ xs) i e = elim (Bool-cases (c == x)) [
  | inl f ↦ ground arith
  | inr f ↦ elim (Option-cases (index_of c xs)) [
    | inl g ↦ ground arith
    | inr (j, g) ↦ ground (arith, index_of-lt c xs j g)
  ]
]

-- The loop, where `size - unread_n` bytes lie before the node.
index_nodes_lem :
    (c size unread_n skip_n : ℕ) (nds : List Node)
    → All IsNode nds
    → unread_n ≡ length (content nds)
    → unread_n ≤ size
    → index_nodes c size unread_n skip_n nds
      ≡ some (
          Option.map (λ i. (size - unread_n) + skip_n + i) (index_of c (drop skip_n (content nds))))
unfolding index_nodes
index_nodes_lem c size unread_n skip_n [] v e le =
    let z : (unread_n == 0) ≡ true = ground arith in
    rw (z, drop_all {A = ℕ} skip_n [] (omega arith))
index_nodes_lem c size unread_n skip_n (nd ∷ nds) v e le = elim (Bool-cases (unread_n == 0)) [
  | inl none_left ↦
      let empty : length (unread nd ++ content nds) ≤ skip_n = ground (arith, e) in
      rw (none_left, drop_all skip_n (unread nd ++ content nds) empty)
  | inr some_left ↦
      rw (some_left, part)
        (elim (Bool-cases (leb (node_len nd) skip_n)) [
          | inl past ↦
              let le' : node_len nd ≤ skip_n = leb→le _ _ past in
              rw
                (
                  past,
                  index_nodes_lem c size (unread_n - node_len nd) (skip_n - node_len nd) nds v.1
                      (omega (arith, e, sizes)) (omega arith),
                  drop-append_right skip_n (unread nd) (content nds) (omega (arith, size_nd)),
                  size_nd,
                )
                (ap
                  (λ (f : ℕ → ℕ).
                    some (Option.map f (index_of c (drop (skip_n - node_len nd) (content nds)))))
                  (fun_ext λ i. omega (arith, e, sizes)))
          | inr inside ↦
              rw
                (
                  inside,
                  node_peek_lem (node_len nd) nd v.0 (omega arith),
                  take_all (node_len nd) (unread nd) (omega (arith, size_nd)),
                  drop-append_left skip_n (unread nd) (content nds) (ground (arith, size_nd)),
                  index_of-append c (drop skip_n (unread nd)) (content nds),
                )
                (elim (Option-cases (index_of c (drop skip_n (unread nd)))) [
                  | inl f ↦ rw f (
                      rw
                        (index_nodes_lem c size (unread_n - node_len nd) 0 nds v.1
                          (omega (arith, e, sizes)) (omega arith))
                        (shifted inside))
                  | inr (i, f) ↦ rw f
                ])
        ])
]
  where
    shifted :
        leb (node_len nd) skip_n ≡ false
        → some
            (Option.map (λ i. (size - (unread_n - node_len nd)) + 0 + i) (index_of c (content nds)))
          ≡ some (
              Option.map
                (λ i. (size - unread_n) + skip_n + i)
                (Option.map (λ i. length (drop skip_n (unread nd)) + i) (index_of c (content nds))))
    shifted inside = elim (Option-cases (index_of c (content nds))) [
      | inl g ↦ rw g
      | inr (i, g) ↦
          let lt : skip_n < node_len nd = ground arith in
          rw g (
            ap (λ k. some (some k))
              (omega (
                arith,
                length-drop skip_n (unread nd),
                length-unread nd v.0,
                e,
                length-append (unread nd) (content nds),
              )))
    ]

    size_nd : length (unread nd) ≡ node_len nd
    size_nd = length-unread nd v.0

    sizes : length (unread nd ++ content nds) ≡ node_len nd + length (content nds)
    sizes = omega (arith, length-append (unread nd) (content nds), size_nd)

    part : (if leb unread_n (node_len nd) then unread_n else node_len nd) ≡ node_len nd
    part = ground (arith, e, sizes)

-- `indexByte(c, skip)` is the position of the first `c` at or behind `skip` among the bytes to be
-- read, and -1 if there is none. It does not panic. The buffer satisfies `IsReadable`.
pub index_byte_lem :
    (c skip_n : ℕ) (b : LinkBuffer)
    → IsReadable b
    → index_byte c skip_n b
      ≡ some (Option.map (λ i. skip_n + i) (index_of c (drop skip_n (readable b))))
unfolding index_byte
index_byte_lem c skip_n b v = elim (Bool-cases (leb b.length skip_n)) [
  | inl past ↦ rw (past, drop_all skip_n (readable b) (ground (arith, v.counted)))
  | inr inside ↦
      rw
        (
          inside,
          index_nodes_lem c b.length b.length skip_n (chain b) v.linked.valid v.counted
              (omega arith),
        )
        (ap (λ (f : ℕ → ℕ). some (Option.map f (index_of c (drop skip_n (readable b)))))
          (fun_ext λ i. omega arith))
]
