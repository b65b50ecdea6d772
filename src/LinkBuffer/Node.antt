-- ===== src/LinkBuffer/Node.antt =====
-- nocopy_linkbuffer.go: `linkBufferNode`, and its methods that touch the bytes.
-- `none` is a slice expression out of range, which panics.
use netpoll.Base.{
  ℕ, ◌+◌, ◌-◌, ◌≤◌, ◌≡◌, refl, ap, Bool, Option, none, some, List, arith, leb, if◌then◌else◌,
  le→leb, length, take, drop, length-take, length-drop, drop-drop, take-take, drop-take,
}

-- `mem` is the whole backing array of `buf`, so `cap(buf)` is its length and `len` is `len(buf)`.
-- The mode byte is kept as its two bits. Reference counts are left out.
pub record Node : Type 0 where
  pub mem : List ℕ
  pub len : ℕ
  pub off : ℕ
  pub malloc : ℕ
  pub readonly : Bool
  pub nocopy_read : Bool

abbrev pub cap : Node → ℕ
cap nd = length nd.mem

-- `Len`. Valid nodes have `off ≤ len`, so the difference is never negative.
unfoldable pub node_len : Node → ℕ
node_len nd = nd.len - nd.off

-- `Next`
unfoldable pub node_next : ℕ → Node → Option (List ℕ × Node)
node_next n nd =
    if leb (nd.off + n) (cap nd)
    then some (take n (drop nd.off nd.mem), record nd { off = nd.off + n })
    else none

-- `Peek`
unfoldable pub node_peek : ℕ → Node → Option (List ℕ)
node_peek n nd = if leb (nd.off + n) (cap nd) then some (take n (drop nd.off nd.mem)) else none

-- `Malloc`: the offset of the slice that the caller gets, and the node.
unfoldable pub node_malloc : ℕ → Node → Option (ℕ × Node)
node_malloc n nd =
    if leb (nd.malloc + n) (cap nd)
    then some (nd.malloc, record nd { malloc = nd.malloc + n })
    else none

-- The bytes that a reader has yet to read.
unfoldable pub unread : Node → List ℕ
unread nd = take (nd.len - nd.off) (drop nd.off nd.mem)

-- What reading leaves alone in a node: all that the write side goes by.
abbrev pub frame : Node → List ℕ × ℕ × ℕ × Bool
frame nd = (nd.mem, nd.len, nd.malloc, nd.readonly)

-- The read side of a valid node.
pub record IsNode (nd : Node) : Type 0 where
  pub read_le : nd.off ≤ nd.len
  pub len_le : nd.len ≤ length nd.mem

pub length-unread : (nd : Node) → IsNode nd → length (unread nd) ≡ node_len nd
unfolding unread node_len
length-unread nd v =
    omega (arith, length-take (nd.len - nd.off) (drop nd.off nd.mem), length-drop nd.off nd.mem)

-- What `Next` hands out, and what it leaves.
pub record Nexts (n : ℕ) (nd : Node) : Type 0 where
  pub node : Node
  pub runs : node_next n nd ≡ some (take n (unread nd), node)
  pub left : unread node ≡ drop n (unread nd)
  pub valid : IsNode node
  pub same_frame : frame node ≡ frame nd

-- What `node.off += n` leaves.
pub skipped-Nexts :
    (n : ℕ) (nd : Node)
    → IsNode nd
    → n ≤ node_len nd
    → (unread (record nd { off = nd.off + n }) ≡ drop n (unread nd))
      × IsNode (record nd { off = nd.off + n })
unfolding node_len unread
skipped-Nexts n nd v h = (
  rw (drop-take n (nd.len - nd.off) (drop nd.off nd.mem), drop-drop n nd.off nd.mem)
      (ap (λ k. take k (drop (nd.off + n) nd.mem)) (omega arith)),
  record { read_le = omega arith; len_le = v.len_le },
)

pub node_next-Nexts : (n : ℕ) (nd : Node) → IsNode nd → n ≤ node_len nd → Nexts n nd
unfolding node_next node_len unread
node_next-Nexts n nd v h = record {
  node = record nd { off = nd.off + n };
  runs = rw (
    le→leb (nd.off + n) (length nd.mem) (omega arith),
    take-take n (nd.len - nd.off) (drop nd.off nd.mem) h,
  );
  left = (skipped-Nexts n nd v h).0;
  valid = (skipped-Nexts n nd v h).1;
  same_frame = refl;
}

pub node_peek_lem :
    (n : ℕ) (nd : Node) → IsNode nd → n ≤ node_len nd → node_peek n nd ≡ some (take n (unread nd))
unfolding node_peek node_len unread
node_peek_lem n nd v h = rw (
  le→leb (nd.off + n) (length nd.mem) (omega arith),
  take-take n (nd.len - nd.off) (drop nd.off nd.mem) h,
)
