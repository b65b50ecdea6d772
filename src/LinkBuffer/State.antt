-- ===== src/LinkBuffer/State.antt =====
-- nocopy_linkbuffer.go: the state `UnsafeLinkBuffer` and the outcomes of its methods.
-- A pointer to a node is its position in the chain that starts at `head`; nil is the position
-- just past the last node. A dereference of nil, a slice expression out of range and a use of a
-- node that has been given back are `panic`.
use netpoll.Base.{
  ℕ, zero, suc, ◌+◌, ◌-◌, ◌≤◌, ◌<◌, ◌≡◌, refl, sym, ◌⊎◌, Bool, Option, none, some, List, [], ◌∷◌,
  ◌++◌, map, append_assoc, arith, ◌==◌, All, length, take, drop, ℤ, pos, negsuc,
}
use netpoll.LinkBuffer.Node.{Node, frame, unread, IsNode}

pub record CachePeek : Type 0 where
  pub bytes : List ℕ
  pub room : ℕ

pub record LinkBuffer : Type 0 where
  pub length : ℕ
  pub malloc_size : ℕ
  pub nodes : List Node
  pub read : ℕ
  pub flush : ℕ
  pub write : ℕ
  pub caches : List (List ℕ)
  pub cache_peek : Option CachePeek

pub data Error : Type 0 where
  not_enough no_delim malloc_ack_invalid unsupported_writer : Error

pub data Outcome {ℓ} (A : Type ℓ) : Type ℓ where
  ok : A → Outcome A
  err : Error → Outcome A
  panic : Outcome A

abbrev pub or_panic {ℓ} : {A : Type ℓ} → Option A → Outcome A
or_panic none = panic
or_panic (some a) = ok a

-- The chain from `b.read` on.
abbrev pub chain : LinkBuffer → List Node
chain b = drop b.read b.nodes

abbrev pub content : List Node → List ℕ
content [] = []
content (nd ∷ nds) = unread nd ++ content nds

-- The bytes that are yet to be read, in order: what a LinkBuffer stands for as a Reader.
abbrev pub readable : LinkBuffer → List ℕ
readable b = content (chain b)

-- `-n` of a size.
abbrev pub neg : ℕ → ℤ
neg zero = pos 0
neg (suc k) = negsuc k

unfoldable pub reset_peek : Option CachePeek → Option CachePeek
reset_peek none = none
reset_peek (some c) = some (record c { bytes = [] })

-- `recalLen`. Any read makes the bytes that `Peek` has kept stale. Callers have checked that
-- the length does not fall below 0.
unfoldable pub recal_len : ℤ → LinkBuffer → LinkBuffer
unfolding reset_peek
recal_len (pos n) b = record b { length = b.length + n }
recal_len (negsuc k) b = record b {
  length = b.length - suc k;
  cache_peek = reset_peek b.cache_peek;
}

-- `Len` and `IsEmpty`
abbrev pub len : LinkBuffer → ℕ
len b = b.length

abbrev pub is_empty : LinkBuffer → Bool
is_empty b = b.length == 0

abbrev pub PeekedPrefix : Option CachePeek → List ℕ → Type 0
PeekedPrefix none bs = Unit {0}
PeekedPrefix (some c) bs = (c.bytes ≡ take (length c.bytes) bs) × (length c.bytes ≤ c.room)

-- After a read nothing of what `Peek` has kept is left to be stale.
pub reset_peek-PeekedPrefix : (c : Option CachePeek) (bs : List ℕ) → PeekedPrefix (reset_peek c) bs
unfolding reset_peek
reset_peek-PeekedPrefix none bs = tt
reset_peek-PeekedPrefix (some c) bs = (refl, omega arith)

-- The chain as the read side needs it. All that can be read lies up to the `flush` node. In a
-- LinkBuffer that `Slice` made, `flush` and `write` are nil.
pub record IsChain (nodes : List Node) (read flush : ℕ) : Type 0 where
  pub valid : All IsNode (drop read nodes)
  pub read_le : read ≤ flush
  pub flush_le : flush ≤ length nodes
  pub submitted : content (drop (suc flush) nodes) ≡ []

-- The invariant of the read side.
pub record IsReadable (b : LinkBuffer) : Type 0 where
  pub linked : IsChain b.nodes b.read b.flush
  pub counted : b.length ≡ length (readable b)
  pub peeked : PeekedPrefix b.cache_peek (readable b)

pub content-append : (xs ys : List Node) → content (xs ++ ys) ≡ content xs ++ content ys
content-append [] ys = refl
content-append (x ∷ xs) ys =
    rw (content-append xs ys) (sym (append_assoc (unread x) (content xs) (content ys)))

-- A read leaves the write side alone.
pub record KeepsWriter (b b' : LinkBuffer) : Type 0 where
  pub frames : map frame b'.nodes ≡ map frame b.nodes
  pub flush : b'.flush ≡ b.flush
  pub write : b'.write ≡ b.write
  pub malloc_size : b'.malloc_size ≡ b.malloc_size

-- `n` bytes have been read: what is left, and what holds after.
pub record Consumed (n : ℕ) (b b' : LinkBuffer) : Type 0 where
  pub left : readable b' ≡ drop n (readable b)
  pub valid : IsReadable b'
  pub kept : KeepsWriter b b'

-- A reader's method that returns bytes: it hands out the next `n`, and consumes them.
pub record Reads (n : ℕ) (b : LinkBuffer) (out : Outcome (List ℕ × LinkBuffer)) : Type 0 where
  pub after : LinkBuffer
  pub runs : out ≡ ok (take n (readable b), after)
  pub consumed : Consumed n b after

-- All branches of such a method: refused with nothing changed, exactly when the buffer holds
-- fewer bytes, or served in full.
abbrev pub Serves : ℕ → LinkBuffer → Outcome (List ℕ × LinkBuffer) → Type 0
Serves n b out =
    ((length (readable b) < n) × (out ≡ err not_enough))
    ⊎ ((n ≤ length (readable b)) × Reads n b out)

pub Consumed-none : (b : LinkBuffer) → IsReadable b → Consumed 0 b b
Consumed-none b v = record {
  left = refl;
  valid = v;
  kept = record { frames = refl; flush = refl; write = refl; malloc_size = refl };
}

-- `Peek`: the next `n` bytes, and nothing is consumed.
pub record Peeks (n : ℕ) (b : LinkBuffer) (out : Outcome (List ℕ × LinkBuffer)) : Type 0 where
  pub after : LinkBuffer
  pub runs : out ≡ ok (take n (readable b), after)
  pub consumed : Consumed 0 b after
