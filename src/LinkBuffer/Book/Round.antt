-- ===== src/LinkBuffer/Book/Round.antt =====
-- nocopy_linkbuffer.go: a round of the poller: `book`, the read into the slice, `bookAck`.
use netpoll.Base.{
  ℕ, ◌+◌, ◌-◌, ◌≤◌, ◌<◌, ◌≡◌, refl, sym, ap, ◌∙◌, inl, inr, false, some, List, [], ◌∷◌, ◌++◌,
  append-nil, append_assoc, arith, ltb, ◌==◌, if◌then◌else◌, le→leb, Bool-cases, length, get_elem?,
  take, drop, length-append, length-take, drop-append_left, get_elem?-last, set-last,
}
use netpoll.LinkBuffer.Node.{Node, cap, node_malloc, unread, IsNode}
use netpoll.LinkBuffer.State.{LinkBuffer, ok, content, content-append, readable, recal_len}
use netpoll.LinkBuffer.Writer.{new_node, copy_at, fill}
use netpoll.LinkBuffer.Writer.Flush.Commit.{PeekedPrefix-append}
use netpoll.LinkBuffer.Writer.Fill.{through-copy_at, length-copy_at}
use netpoll.LinkBuffer.Book.{book_tail, book, book_ack}
use netpoll.LinkBuffer.Book.Input.{
  IsTailed, IsInput, grown, grown-IsTailed, new_node-empty, readable-tailed,
}

-- What `book` finds before it allocates: a tail node with room.
record Roomy (b b' : LinkBuffer) (room : ℕ) : Type 0 where
  tailed : IsTailed b'
  same : readable b' ≡ readable b
  positive : 0 < room
  fits : tailed.tail.malloc + room ≤ length tailed.tail.mem

module _ (alloc : ℕ → List ℕ) (link_buffer_cap : ℕ) (enough : (n : ℕ) → n ≤ length (alloc n)) where
  new_node-room : (size : ℕ) → 0 < size → size ≤ length (new_node alloc link_buffer_cap size).mem
  unfolding new_node
  new_node-room size p = elim (Bool-cases (ltb size link_buffer_cap)) [
    | inl small ↦
        let some_size : (size == 0) ≡ false = ground arith in
        rw (some_size, small) (ground (arith, enough link_buffer_cap))
    | inr large ↦
        let some_size : (size == 0) ≡ false = ground arith in rw (some_size, large) (enough size)
  ]

  book_tail-Roomy :
      (max_size : ℕ) (b : LinkBuffer)
      → IsInput b
      → 0 < max_size
      → (room : ℕ) × (b' : LinkBuffer) × (book_tail alloc link_buffer_cap max_size b
          ≡ some (room, b'))
        × Roomy b b' room
  unfolding book_tail grown
  book_tail-Roomy max_size b v p = elim (Bool-cases (cap tail - tail.malloc == 0)) [
    | inl full ↦
        let new = new_node alloc link_buffer_cap max_size in
        let e = new_node-empty alloc link_buffer_cap max_size in
        let g = grown-IsTailed b new t e.0 (e.1 ∙ sym e.2) e.3 in
        (
          max_size,
          grown new b,
          rw (here, full),
          record {
            tailed = g.1;
            same = g.0;
            positive = p;
            fits = rw g.2 (omega (arith, e.1, new_node-room max_size p));
          },
        )
    | inr room ↦ (
      cap tail - tail.malloc,
      b,
      rw (here, room),
      record {
        tailed = t;
        same = refl;
        positive = ground arith;
        fits = omega (arith, t.full, t.tail_ok.len_le);
      },
    )
  ]
    where
      t : IsTailed b
      t = v.tailed

      tail : Node
      tail = t.tail

      here : get_elem? b.nodes b.write ≡ some tail
      here = rw (t.nodes, t.write) (get_elem?-last t.before t.tail)

-- The tail node with `q` read into what `book` has allocated, and acknowledged.
acked_node : List ℕ → Node → Node
acked_node q nd = record nd {
  mem = copy_at nd.malloc q nd.mem;
  malloc = length q + nd.len;
  len = length q + nd.len;
}

acked_node-unread :
    (q : List ℕ) (nd : Node)
    → IsNode nd
    → nd.malloc ≡ nd.len
    → nd.malloc + length q ≤ length nd.mem
    → (unread (acked_node q nd) ≡ unread nd ++ q)
      × IsNode (acked_node q nd)
      × ((acked_node q nd).malloc ≡ (acked_node q nd).len)
unfolding unread acked_node
acked_node-unread q nd v f h = (
  rw
      (
        through-copy_at nd.off (length q + nd.len - nd.off) nd.malloc q nd.mem
            (omega (arith, v.read_le, f)) (omega (arith, v.len_le, f)) (omega (arith, f)),
        f,
      )
      refl,
  record {
    read_le = omega (arith, v.read_le);
    len_le = omega (arith, length-copy_at nd.malloc q nd.mem h, f);
  },
  refl,
)

-- The chain with a new value for its tail node.
with_tail : List Node → Node → LinkBuffer → LinkBuffer
with_tail before nd b = record b { nodes = before ++ (nd ∷ []) }

-- The kernel has read `q`, and `bookAck` makes it readable.
acked : List ℕ → List Node → Node → LinkBuffer → LinkBuffer
unfolding with_tail
acked q before tail b = record (with_tail before (acked_node q tail) b) {
  flush = b.write;
  length = b.length + length q;
}

acked-IsInput :
    (q : List ℕ) (b : LinkBuffer) (t : IsTailed b)
    → t.tail.malloc + length q ≤ length t.tail.mem
    → (readable (acked q t.before t.tail b) ≡ readable b ++ q) × IsInput (acked q t.before t.tail b)
unfolding acked with_tail
acked-IsInput q b t h = (
  more,
  record {
    tailed = record {
      before = t.before;
      tail = acked_node q t.tail;
      nodes = refl;
      write = t.write;
      read_le = t.read_le;
      valid = t.valid;
      tail_ok = node.1;
      full = node.2;
      counted = omega (arith, t.counted, ap length more, length-append (readable b) q);
      peeked = rw more (PeekedPrefix-append b.cache_peek (readable b) q t.peeked);
    };
    flush = refl;
  },
)
  where
    node :
        (unread (acked_node q t.tail) ≡ unread t.tail ++ q)
        × IsNode (acked_node q t.tail)
        × ((acked_node q t.tail).malloc ≡ (acked_node q t.tail).len)
    node = acked_node-unread q t.tail t.tail_ok t.full h

    more : readable (acked q t.before t.tail b) ≡ readable b ++ q
    more =
        rw
          (
            readable-tailed b t,
            drop-append_left b.read t.before (acked_node q t.tail ∷ []) t.read_le,
            content-append (drop b.read t.before) (acked_node q t.tail ∷ []),
            node.0,
            append-nil (unread t.tail ++ q),
          )
          (sym (append_assoc (content (drop b.read t.before)) (unread t.tail) q))

module _ (q : List ℕ) (l : ℕ) (b : LinkBuffer) (before : List Node) (tail : Node)
    (at : b.write ≡ length before) where
  -- The tail node when `book` has allocated `l`, and when the kernel has written `q` there.
  booked_tail : Node
  booked_tail = record tail { malloc = tail.malloc + l }

  filled_tail : Node
  filled_tail = record tail { malloc = tail.malloc + l; mem = copy_at tail.malloc q tail.mem }

  fills :
      fill tail.malloc q (with_tail before booked_tail b) ≡ some (with_tail before filled_tail b)
  unfolding fill with_tail filled_tail booked_tail
  fills = rw (at, get_elem?-last before booked_tail, set-last before booked_tail filled_tail)

  acks :
      tail.malloc ≡ tail.len
      → tail.malloc + length q ≤ length tail.mem
      → book_ack (length q) (with_tail before filled_tail b)
        ≡ ok (b.length + length q, acked q before tail b)
  unfolding book_ack with_tail filled_tail acked acked_node recal_len
  acks full room =
      let fits : length q + tail.len ≤ length (copy_at tail.malloc q tail.mem) =
        omega (arith, room, length-copy_at tail.malloc q tail.mem room, full) in
      rw (
        at,
        get_elem?-last before filled_tail,
        le→leb (length q + tail.len) (length (copy_at tail.malloc q tail.mem)) fits,
        set-last before filled_tail (acked_node q tail),
      )

  books :
      (alloc : ℕ → List ℕ) (link_buffer_cap book_size max_size room : ℕ) (start : LinkBuffer)
      → book_tail alloc link_buffer_cap max_size start ≡ some (room, b)
      → b.nodes ≡ before ++ (tail ∷ [])
      → (if ltb book_size room then book_size else room) ≡ l
      → tail.malloc + l ≤ length tail.mem
      → book alloc link_buffer_cap book_size max_size start
        ≡ ok ((tail.malloc, l), with_tail before booked_tail b)
  unfolding book node_malloc with_tail booked_tail
  books alloc link_buffer_cap book_size max_size room start grows nodes size fits = rw (
    grows,
    nodes,
    at,
    get_elem?-last before tail,
    size,
    le→leb (tail.malloc + l) (length tail.mem) fits,
    set-last before tail booked_tail,
  )

-- What a round of the poller does with the bytes `q`.
pub record Received (q : List ℕ) (b b' : LinkBuffer) : Type 0 where
  pub more : readable b' ≡ readable b ++ q
  pub valid : IsInput b'

module _ (alloc : ℕ → List ℕ) (link_buffer_cap : ℕ) (enough : (n : ℕ) → n ≤ length (alloc n)) where
  -- `book` hands out a slice of at least one byte and at most `bookSize`. When the kernel has read
  -- into it as much of its `stream` as fits, `bookAck` makes exactly that readable, behind all that
  -- was there, and returns the new length. The buffer satisfies `IsInput`, both sizes are positive,
  -- and `alloc n` gives at least `n` bytes.
  pub book-Received :
      (book_size max_size : ℕ) (stream : List ℕ) (b : LinkBuffer)
      → IsInput b
      → 0 < book_size
      → 0 < max_size
      → (at : ℕ) × (l : ℕ) × (b1 : LinkBuffer) × (b2 : LinkBuffer) × (b3 : LinkBuffer) × (book alloc
            link_buffer_cap book_size max_size b
          ≡ ok ((at, l), b1))
        × (0 < l)
        × (l ≤ book_size)
        × (fill at (take l stream) b1 ≡ some b2)
        × (book_ack (length (take l stream)) b2 ≡ ok (length (readable b3), b3))
        × Received (take l stream) b b3
  book-Received book_size max_size stream b v p m =
      let (room, b', grows, x) = book_tail-Roomy alloc link_buffer_cap enough max_size b v m in
      let t = x.tailed in
      let l = if ltb book_size room then book_size else room in
      let l_le : l ≤ room = ground arith in
      let few : length (take l stream) ≤ l = omega (arith, length-take l stream) in
      let fits : t.tail.malloc + length (take l stream) ≤ length t.tail.mem =
        omega (arith, x.fits, l_le, few) in
      let a = acked-IsInput (take l stream) b' t fits in
      let counted : b'.length + length (take l stream)
          ≡ length (readable (acked (take l stream) t.before t.tail b')) =
        omega (arith, t.counted, ap length a.0, length-append (readable b') (take l stream)) in
      (
        t.tail.malloc,
        l,
        with_tail t.before (booked_tail (take l stream) l b' t.before t.tail t.write) b',
        with_tail t.before (filled_tail (take l stream) l b' t.before t.tail t.write) b',
        acked (take l stream) t.before t.tail b',
        books (take l stream) l b' t.before t.tail t.write alloc link_buffer_cap book_size max_size
            room b grows t.nodes refl (omega (arith, x.fits, l_le)),
        ground (arith, x.positive),
        ground arith,
        fills (take l stream) l b' t.before t.tail t.write,
        rw (← counted) (acks (take l stream) l b' t.before t.tail t.write t.full fits),
        record { more = a.0 ∙ ap (λ bs. bs ++ take l stream) x.same; valid = a.1 },
      )
