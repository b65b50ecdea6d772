-- ===== src/LinkBuffer/Tests.antt =====
-- A LinkBuffer of nocopy_linkbuffer.go with two nodes, the methods run on it, and the theorems
-- applied to it.
use netpoll.Base.{
  ℕ, zero, suc, ◌+◌, ◌-◌, ◌≤◌, ◌<◌, ◌≡◌, refl, ◌⊎◌, false, some, List, [], ◌∷◌, ◌++◌, map, arith,
  ◌>>=◌, length, take, drop, pos,
}
use netpoll.LinkBuffer.Node.{Node, node_len, node_next, unread}
use netpoll.LinkBuffer.State.{
  LinkBuffer, not_enough, ok, err, readable, recal_len, IsReadable, Serves, Peeks,
}
use netpoll.LinkBuffer.Reader.{skip_empty, is_single_node, take_bytes, next, peek, release}
use netpoll.LinkBuffer.Reader.Next.{next-Serves}
use netpoll.LinkBuffer.Reader.Peek.{peek-Peeks}
use netpoll.LinkBuffer.Reader.Release.{Released, release-Released}
use netpoll.LinkBuffer.Search.{index_of, index_byte}
use netpoll.LinkBuffer.Search.Laws.{index_byte_lem}
use mathlib.Core.Option
use netpoll.LinkBuffer.Book.{book, book_ack}
use netpoll.LinkBuffer.Book.Round.{Received, book-Received}
use netpoll.LinkBuffer.Book.Tail.{new_link_buffer-IsInput}
use netpoll.LinkBuffer.Roundtrip.{next_each, write_each, write_each-next_each}
use netpoll.LinkBuffer.Output.Laws.{concat}
use netpoll.LinkBuffer.Writer.{fill, new_link_buffer, malloc, write_binary, flush, malloc_ack}
use netpoll.LinkBuffer.Direct.{write_direct}
use netpoll.LinkBuffer.Direct.Insert.{Placed, write_direct-Placed}
use netpoll.LinkBuffer.Writer.Pending.{pend, pending, IsWritable, Wrote}
use netpoll.LinkBuffer.Writer.Binary.{malloc-fill, write_binary-Wrote}
use netpoll.LinkBuffer.Writer.Flush.{Flushed, flush-Flushed}
use netpoll.LinkBuffer.Writer.Ack.{Kept, malloc_ack-Kept, malloc_ack_zero}

-- An allocator that gives `n` bytes.
abbrev zeros : ℕ → List ℕ
zeros zero = []
zeros (suc n) = 0 ∷ zeros n

zeros_enough : (n : ℕ) → n ≤ length (zeros n)
zeros_enough zero = omega arith
zeros_enough (suc n) = omega (arith, zeros_enough n)

abbrev first : Node
first = record {
  mem = 1 ∷ 2 ∷ 3 ∷ 0 ∷ [];
  len = 3;
  off = 1;
  malloc = 3;
  readonly = false;
  nocopy_read = false;
}

abbrev second : Node
second = record {
  mem = 4 ∷ 5 ∷ 6 ∷ 7 ∷ 0 ∷ 0 ∷ [];
  len = 2;
  off = 0;
  malloc = 4;
  readonly = false;
  nocopy_read = false;
}

-- 2, 3, 4, 5 can be read, and 6, 7 have been written and not flushed; `Peek` has kept 2 and 3.
abbrev two : LinkBuffer
two = record {
  length = 4;
  malloc_size = 2;
  nodes = first ∷ second ∷ [];
  read = 0;
  flush = 1;
  write = 1;
  caches = [];
  cache_peek = some (record { bytes = 2 ∷ 3 ∷ []; room = 4 });
}

two-readable : readable two ≡ 2 ∷ 3 ∷ 4 ∷ 5 ∷ []
unfolding unread
two-readable = refl

two-pending : pending two ≡ 6 ∷ 7 ∷ []
unfolding pend
two-pending = refl

two-IsReadable : IsReadable two
unfolding unread
two-IsReadable = record {
  linked = record {
    valid = omega arith;
    read_le = omega arith;
    flush_le = omega arith;
    submitted = refl;
  };
  counted = refl;
  peeked = (refl, omega arith);
}

two-IsWritable : IsWritable two
unfolding pend
two-IsWritable = record {
  readable_ok = two-IsReadable;
  written = omega arith;
  flush_le = omega arith;
  write_lt = omega arith;
  clean = tt;
  sized = refl;
}

next_across :
    next (pos 3) two
    ≡ ok (
      2 ∷ 3 ∷ 4 ∷ [],
      record two {
        length = 1;
        nodes = record first { off = 3 } ∷ record second { off = 1 } ∷ [];
        read = 1;
        cache_peek = some (record { bytes = []; room = 4 });
      },
    )
unfolding next is_single_node skip_empty take_bytes node_next node_len recal_len
next_across = refl

next-Serves_example : Serves 3 two (next (pos 3) two)
next-Serves_example = next-Serves 3 two two-IsReadable

peek-Peeks_example :
    ((length (readable two) < 3) × (peek zeros (pos 3) two ≡ err not_enough))
    ⊎ ((3 ≤ length (readable two)) × Peeks 3 two (peek zeros (pos 3) two))
peek-Peeks_example = peek-Peeks zeros zeros_enough 3 two two-IsReadable

release-Released_example : (b' : LinkBuffer) × (release two ≡ ok b') × Released two b'
release-Released_example = release-Released two two-IsReadable (omega arith)

index_byte_lem_example :
    index_byte 5 1 two ≡ some (Option.map (λ i. 1 + i) (index_of 5 (drop 1 (readable two))))
index_byte_lem_example = index_byte_lem 5 1 two two-IsReadable

malloc-fill_example :
    (at : ℕ) × (b' : LinkBuffer) × (b'' : LinkBuffer) × (malloc zeros 8 (pos 3) two ≡ ok (at, b'))
    × (fill at (8 ∷ 9 ∷ 10 ∷ []) b' ≡ some b'')
    × Wrote (8 ∷ 9 ∷ 10 ∷ []) two b''
malloc-fill_example =
    malloc-fill zeros 8 zeros_enough (8 ∷ 9 ∷ 10 ∷ []) two two-IsWritable (omega arith)

write_binary-Wrote_example :
    (b' : LinkBuffer) × (write_binary zeros 8 (8 ∷ 9 ∷ []) two ≡ ok (2, b'))
    × Wrote (8 ∷ 9 ∷ []) two b'
write_binary-Wrote_example = write_binary-Wrote zeros 8 zeros_enough (8 ∷ 9 ∷ []) two two-IsWritable

flush-Flushed_example : (b' : LinkBuffer) × (flush zeros 8 two ≡ ok b') × Flushed two b'
flush-Flushed_example = flush-Flushed zeros 8 two two-IsWritable

malloc_ack-Kept_example : (b' : LinkBuffer) × (malloc_ack (pos 1) two ≡ ok b') × Kept 1 two b'
unfolding pend
malloc_ack-Kept_example = malloc_ack-Kept 1 two two-IsWritable (omega arith) (omega arith)

malloc_ack_zero_example :
    (b' : LinkBuffer) × (b'' : LinkBuffer) × (malloc_ack (pos 0) two ≡ ok b')
    × (b'.malloc_size ≡ 0)
    × (flush zeros 8 b' ≡ ok b'')
    × (readable b'' ≡ readable two ++ pend second)
malloc_ack_zero_example = malloc_ack_zero zeros 8 two second [] two-IsWritable refl

-- A buffer of the poller: the connection's input.
abbrev input : LinkBuffer
input = new_link_buffer zeros 8 4

abbrev stream : List ℕ
stream = 1 ∷ 2 ∷ 3 ∷ 4 ∷ 5 ∷ []

book-Received_example :
    (at : ℕ) × (l : ℕ) × (b1 : LinkBuffer) × (b2 : LinkBuffer) × (b3 : LinkBuffer) × (book zeros 8 4
        8 input
      ≡ ok ((at, l), b1))
    × (0 < l)
    × (l ≤ 4)
    × (fill at (take l stream) b1 ≡ some b2)
    × (book_ack (length (take l stream)) b2 ≡ ok (length (readable b3), b3))
    × Received (take l stream) input b3
book-Received_example =
    book-Received zeros 8 zeros_enough 4 8 stream input (new_link_buffer-IsInput zeros 8 4).1
      (omega arith) (omega arith)

write_each-next_each_example :
    (slices : List (List ℕ)) × ((write_each zeros 8 ((6 ∷ 7 ∷ []) ∷ (8 ∷ []) ∷ []) two
        >>= next_each (1 ∷ 2 ∷ []))
      ≡ some slices)
    × (concat slices ≡ take 3 (readable two ++ (pending two ++ (6 ∷ 7 ∷ 8 ∷ []))))
    × (map length slices ≡ 1 ∷ 2 ∷ [])
unfolding unread
write_each-next_each_example =
    write_each-next_each zeros 8 zeros_enough ((6 ∷ 7 ∷ []) ∷ (8 ∷ []) ∷ []) (1 ∷ 2 ∷ []) two
      two-IsWritable (omega arith)

write_direct-Placed_example :
    (b' : LinkBuffer) × (write_direct (6 ∷ 7 ∷ []) (pos 1) two ≡ ok b')
    × Placed (two.malloc_size - 1) (6 ∷ 7 ∷ []) two b'
write_direct-Placed_example = write_direct-Placed (6 ∷ 7 ∷ []) 1 two two-IsWritable (omega arith)
