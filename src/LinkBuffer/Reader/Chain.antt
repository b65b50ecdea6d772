-- ===== src/LinkBuffer/Reader/Chain.antt =====
-- The loops of the reader in nocopy_linkbuffer.go, as steps on the chain of nodes.
use netpoll.Base.{
  ℕ, zero, suc, ◌+◌, ◌-◌, ◌≤◌, ◌<◌, ◌≡◌, refl, sym, ap, ◌∙◌, ◌≢◌, inl, inr, ◌&&◌, not, Option, some,
  List, [], ◌∷◌, ◌++◌, map, arith, ltb, leb, ◌==◌, if◌then◌else◌, Bool-cases, All, length, take,
  drop, length-append, length-zero, take_all, take-append_left, drop-append_left, take-append_right,
  drop-append_right,
}
use netpoll.LinkBuffer.Node.{
  Node, node_len, frame, node_next, unread, IsNode, length-unread, node_next-Nexts, skipped-Nexts,
}
use netpoll.LinkBuffer.State.{content}
use netpoll.LinkBuffer.Reader.{skip_empty, take_bytes, skip_bytes, find_byte}

-- `nds'` is `nds` after `n` bytes have been read and `b.read` has passed `k` nodes.
pub record Moves (n k : ℕ) (nds nds' : List Node) : Type 0 where
  pub left : content (drop k nds') ≡ drop n (content nds)
  pub valid : All IsNode (drop k nds')
  pub same_length : length nds' ≡ length nds
  pub within : (d : ℕ) → content (drop (suc d) nds) ≡ [] → k ≤ d
  pub beyond : (d : ℕ) → k ≤ d → drop (suc d) nds' ≡ drop (suc d) nds
  pub frames : map frame nds' ≡ map frame nds

-- The read stops in the first node.
pub Moves-first :
    (n : ℕ) (nd nd' : Node) (nds : List Node)
    → unread nd' ≡ drop n (unread nd)
    → IsNode nd'
    → frame nd' ≡ frame nd
    → n ≤ length (unread nd)
    → All IsNode nds
    → Moves n 0 (nd ∷ nds) (nd' ∷ nds)
Moves-first n nd nd' nds e v f h vs = record {
  left = rw (e, drop-append_left n (unread nd) (content nds) h);
  valid = (v, vs);
  same_length = refl;
  within = λ d _. omega arith;
  beyond = λ d _. refl;
  frames = rw f;
}

-- The read goes on behind the first node.
pub Moves-next :
    (n m k : ℕ) (nd nd' : Node) (nds nds' : List Node)
    → frame nd' ≡ frame nd
    → length (unread nd) < n
    → m ≡ n - length (unread nd)
    → m ≤ length (content nds)
    → Moves m k nds nds'
    → Moves n (suc k) (nd ∷ nds) (nd' ∷ nds')
Moves-next n m k nd nd' nds nds' f h e few v = record {
  left = rw (v.left, e) (sym (drop-append_right n (unread nd) (content nds) (omega arith)));
  valid = v.valid;
  same_length = ap suc v.same_length;
  within = go;
  beyond = go';
  frames = rw (f, v.frames);
}
  where
    go : (d : ℕ) → content (drop (suc d) (nd ∷ nds)) ≡ [] → suc k ≤ d
    go zero empty = absurd (omega (arith, ap length empty))
    go (suc d) empty = omega (arith, v.within d empty)

    go' : (d : ℕ) → suc k ≤ d → drop (suc d) (nd' ∷ nds') ≡ drop (suc d) (nd ∷ nds)
    go' zero lt = absurd (omega arith)
    go' (suc d) lt = v.beyond d (omega arith)

-- What the copy loop does with a chain that holds enough.
pub record Takes (n : ℕ) (nds : List Node) : Type 0 where
  pub passed : ℕ
  pub after : List Node
  pub runs : take_bytes n nds ≡ some (take n (content nds), passed, after)
  pub moves : Moves n passed nds after

length-content-cons :
    (nd : Node) (nds : List Node)
    → IsNode nd
    → length (content (nd ∷ nds)) ≡ node_len nd + length (content nds)
length-content-cons nd nds v =
    omega (arith, length-append (unread nd) (content nds), length-unread nd v)

-- The part of a node that is copied whole.
record Whole (nd : Node) : Type 0 where
  node : Node
  runs :
      (if ltb 0 (node_len nd) then node_next (node_len nd) nd else some ([], nd))
      ≡ some (unread nd, node)
  same_frame : frame node ≡ frame nd

node_part : (nd : Node) → IsNode nd → Whole nd
node_part nd v = elim (Bool-cases (ltb 0 (node_len nd))) [
  | inl some_left ↦
      let x = node_next-Nexts (node_len nd) nd v (omega arith) in
      record {
        node = x.node;
        runs = rw some_left (
            x.runs
            ∙ ap (λ p. some (p, x.node))
                (take_all (node_len nd) (unread nd) (omega (arith, length-unread nd v))));
        same_frame = x.same_frame;
      }
  | inr none_left ↦ record {
    node = nd;
    runs = rw none_left (
        ap (λ p. some (p, nd))
          (sym (length-zero (unread nd) (ground (arith, length-unread nd v)))));
    same_frame = refl;
  }
]

pub take_bytes-Takes :
    (n : ℕ) (nds : List Node) → All IsNode nds → 0 < n → n ≤ length (content nds) → Takes n nds
unfolding take_bytes
take_bytes-Takes n [] v p h = absurd (omega arith)
take_bytes-Takes n (nd ∷ nds) v p h = elim (Bool-cases (leb n (node_len nd))) [
  | inl here ↦
      let fit : n ≤ node_len nd = ground arith in
      let fit' : n ≤ length (unread nd) = omega (arith, length-unread nd v.0) in
      let x = node_next-Nexts n nd v.0 fit in
      record {
        passed = 0;
        after = x.node ∷ nds;
        runs = rw (here, x.runs, take-append_left n (unread nd) (content nds) fit');
        moves = Moves-first n nd x.node nds x.left x.valid x.same_frame fit' v.1;
      }
  | inr on ↦
      let past : node_len nd < n = ground arith in
      let size = length-unread nd v.0 in
      let few : n - node_len nd ≤ length (content nds) =
        omega (arith, length-content-cons nd nds v.0) in
      let rest = take_bytes-Takes (n - node_len nd) nds v.1 (omega arith) few in
      let x = node_part nd v.0 in
      record {
        passed = suc rest.passed;
        after = x.node ∷ rest.after;
        runs = rw (
          on,
          x.runs,
          rest.runs,
          take-append_right n (unread nd) (content nds) (omega arith),
          size,
        );
        moves =
            Moves-next n (n - node_len nd) rest.passed nd x.node nds rest.after x.same_frame
              (omega arith) (omega arith) few rest.moves;
      }
]

-- What the loop of `Skip` does with a chain that holds enough.
pub record Skips (n : ℕ) (nds : List Node) : Type 0 where
  pub passed : ℕ
  pub after : List Node
  pub runs : skip_bytes n nds ≡ some (passed, after)
  pub moves : Moves n passed nds after

pub skip_bytes-Skips :
    (n : ℕ) (nds : List Node) → All IsNode nds → 0 < n → n ≤ length (content nds) → Skips n nds
unfolding skip_bytes
skip_bytes-Skips n [] v p h = absurd (omega arith)
skip_bytes-Skips n (nd ∷ nds) v p h = elim (Bool-cases (leb n (node_len nd))) [
  | inl here ↦
      let fit : n ≤ node_len nd = ground arith in
      let x = skipped-Nexts n nd v.0 fit in
      record {
        passed = 0;
        after = record nd { off = nd.off + n } ∷ nds;
        runs = rw here;
        moves =
            Moves-first n nd (record nd { off = nd.off + n }) nds x.0 x.1 refl
              (omega (arith, length-unread nd v.0)) v.1;
      }
  | inr on ↦
      let past : node_len nd < n = ground arith in
      let size = length-unread nd v.0 in
      let few : n - node_len nd ≤ length (content nds) =
        omega (arith, length-content-cons nd nds v.0) in
      let rest = skip_bytes-Skips (n - node_len nd) nds v.1 (omega arith) few in
      record {
        passed = suc rest.passed;
        after = nd ∷ rest.after;
        runs = rw (on, rest.runs);
        moves =
            Moves-next n (n - node_len nd) rest.passed nd nd nds rest.after refl (omega arith)
              (omega arith) few rest.moves;
      }
]

-- What the loop of `ReadByte` does with a chain that is not empty.
pub record Finds (nds : List Node) : Type 0 where
  pub passed : ℕ
  pub after : List Node
  pub runs : find_byte nds ≡ some (take 1 (content nds), passed, after)
  pub moves : Moves 1 passed nds after

pub find_byte-Finds : (nds : List Node) → All IsNode nds → 1 ≤ length (content nds) → Finds nds
unfolding find_byte
find_byte-Finds [] v h = absurd (omega arith)
find_byte-Finds (nd ∷ nds) v h = elim (Bool-cases (leb 1 (node_len nd))) [
  | inl here ↦
      let fit : 1 ≤ node_len nd = ground arith in
      let fit' : 1 ≤ length (unread nd) = omega (arith, length-unread nd v.0) in
      let x = node_next-Nexts 1 nd v.0 fit in
      record {
        passed = 0;
        after = x.node ∷ nds;
        runs = rw (here, x.runs, take-append_left 1 (unread nd) (content nds) fit');
        moves = Moves-first 1 nd x.node nds x.left x.valid x.same_frame fit' v.1;
      }
  | inr on ↦
      let empty : node_len nd ≡ 0 = ground arith in
      let size = length-unread nd v.0 in
      let few : 1 ≤ length (content nds) = omega (arith, length-content-cons nd nds v.0) in
      let rest = find_byte-Finds nds v.1 few in
      record {
        passed = suc rest.passed;
        after = nd ∷ rest.after;
        runs = rw (on, rest.runs, length-zero (unread nd) (omega arith));
        moves =
            Moves-next 1 1 rest.passed nd nd nds rest.after refl (omega arith) (omega arith) few
              rest.moves;
      }
]

-- Where the loop of `isSingleNode` stops: at a node, with the same bytes to read.
pub record Lands (r flush : ℕ) (nds : List Node) (out : Option ℕ) : Type 0 where
  pub passed : ℕ
  pub node : Node
  pub rest : List Node
  pub runs : out ≡ some (r + passed)
  pub here : drop passed nds ≡ node ∷ rest
  pub same : content (node ∷ rest) ≡ content nds
  pub within : r + passed ≤ flush

pub skip_empty-Lands :
    (r flush : ℕ) (nds : List Node)
    → All IsNode nds
    → r ≤ flush
    → 0 < length (content nds)
    → (content (drop (suc (flush - r)) nds) ≡ [])
    → Lands r flush nds (skip_empty r flush nds)
unfolding skip_empty
skip_empty-Lands r flush [] v le h s = absurd (omega arith)
skip_empty-Lands r flush (nd ∷ nds) v le h s =
    elim (Bool-cases ((node_len nd == 0) && not (r == flush))) [
      | inl on ↦
          let empty : node_len nd ≡ 0 = ground arith in
          let before : r ≢ flush = ground arith in
          let size = length-unread nd v.0 in
          let none_here : unread nd ≡ [] = length-zero (unread nd) (omega arith) in
          let shift : suc (flush - r) ≡ suc (suc (flush - (r + 1))) = omega arith in
          let x =
            skip_empty-Lands (r + 1) flush nds v.1 (omega arith)
              (omega (arith, length-content-cons nd nds v.0)) (rw shift at s) in
          record {
            passed = suc x.passed;
            node = x.node;
            rest = x.rest;
            runs = rw (on, x.runs) (ap (λ k. some k) (omega arith));
            here = x.here;
            same = x.same ∙ sym (ap (λ bs. bs ++ content nds) none_here);
            within = omega (arith, x.within);
          }
      | inr stop ↦ record {
        passed = 0;
        node = nd;
        rest = nds;
        runs = rw stop (ap (λ k. some k) (omega arith));
        here = refl;
        same = refl;
        within = omega arith;
      }
    ]
