-- ===== src/LinkBuffer/Writer/Fill.antt =====
-- The bytes that a caller writes into the slice that `linkBufferNode.Malloc` of
-- nocopy_linkbuffer.go returns.
use netpoll.Base.{
  ℕ, ◌+◌, ◌-◌, ◌≤◌, ◌≡◌, refl, ap, List, ◌++◌, arith, length, take, drop, length-append,
  length-take, length-drop, take_all, take-append_left, take-append_right, take-take,
  drop-splice_before,
}
use netpoll.LinkBuffer.Node.{Node, unread}
use netpoll.LinkBuffer.Writer.{copy_at}
use netpoll.LinkBuffer.Writer.Pending.{pend, IsWritten}

-- `Malloc(len(q))` of the node, filled with `q`.
unfoldable pub filled : List ℕ → Node → Node
filled q nd = record nd { malloc = nd.malloc + length q; mem = copy_at nd.malloc q nd.mem }

-- The array from `lo` on, where `q` has been written at `at`.
drop-copy_at :
    (lo at : ℕ) (q mem : List ℕ)
    → lo ≤ at
    → at ≤ length mem
    → drop lo (copy_at at q mem) ≡ take (at - lo) (drop lo mem) ++ (q ++ drop (at + length q) mem)
unfolding copy_at
drop-copy_at lo at q mem h l = drop-splice_before lo at mem (q ++ drop (at + length q) mem) h l

length-part :
    (lo at : ℕ) (mem : List ℕ)
    → lo ≤ at
    → at ≤ length mem
    → length (take (at - lo) (drop lo mem)) ≡ at - lo
length-part lo at mem h l = omega (arith, length-take (at - lo) (drop lo mem), length-drop lo mem)

pub length-copy_at :
    (at : ℕ) (q mem : List ℕ) → at + length q ≤ length mem → length (copy_at at q mem) ≡ length mem
unfolding copy_at
length-copy_at at q mem h = omega (
  arith,
  length-append (take at mem) (q ++ drop (at + length q) mem),
  length-append q (drop (at + length q) mem),
  length-take at mem,
  length-drop (at + length q) mem,
)

-- The bytes before the place are as they were.
pub before-copy_at :
    (lo n at : ℕ) (q mem : List ℕ)
    → lo + n ≤ at
    → at ≤ length mem
    → take n (drop lo (copy_at at q mem)) ≡ take n (drop lo mem)
before-copy_at lo n at q mem h l =
    rw
      (
        drop-copy_at lo at q mem (omega arith) l,
        take-append_left n (take (at - lo) (drop lo mem)) (q ++ drop (at + length q) mem)
            (omega (arith, length-part lo at mem (omega arith) l)),
      )
      (take-take n (at - lo) (drop lo mem) (omega arith))

-- And those up to its end are the old ones and then `q`.
pub through-copy_at :
    (lo n at : ℕ) (q mem : List ℕ)
    → lo ≤ at
    → at ≤ length mem
    → n ≡ at + length q - lo
    → take n (drop lo (copy_at at q mem)) ≡ take (at - lo) (drop lo mem) ++ q
through-copy_at lo n at q mem h l e =
    let size = length-part lo at mem h l in
    let left : n - length (take (at - lo) (drop lo mem)) ≡ length q = omega (arith, size, e) in
    rw
      (
        drop-copy_at lo at q mem h l,
        take-append_right n (take (at - lo) (drop lo mem)) (q ++ drop (at + length q) mem)
            (omega (arith, size, e)),
        left,
        take-append_left (length q) q (drop (at + length q) mem) (omega arith),
      )
      (ap (λ xs. take (at - lo) (drop lo mem) ++ xs) (take_all (length q) q (omega arith)))

pub filled_lem :
    (q : List ℕ) (nd : Node)
    → IsWritten nd
    → nd.malloc + length q ≤ length nd.mem
    → IsWritten (filled q nd)
      × (pend (filled q nd) ≡ pend nd ++ q)
      × (unread (filled q nd) ≡ unread nd)
unfolding filled pend unread
filled_lem q nd v room = (
  record {
    off_le = v.off_le;
    len_le = omega (arith, v.len_le);
    malloc_le = omega (arith, length-copy_at nd.malloc q nd.mem room);
  },
  through-copy_at nd.len (nd.malloc + length q - nd.len) nd.malloc q nd.mem v.len_le v.malloc_le
      refl,
  before-copy_at nd.off (nd.len - nd.off) nd.malloc q nd.mem (omega (arith, v.len_le, v.off_le))
      v.malloc_le,
)
