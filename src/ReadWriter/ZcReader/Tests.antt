-- ===== src/ReadWriter/ZcReader/Tests.antt =====
-- A `zcReader` whose io.Reader gives three bytes and then four.
use netpoll.Base.{
  ℕ, ◌≤◌, ◌<◌, ◌≡◌, refl, ap, true, false, none, some, List, [], ◌∷◌, arith, length, take, drop,
  replicate, length-replicate, pos,
}
use netpoll.LinkBuffer.Node.{Node, unread}
use netpoll.LinkBuffer.State.{LinkBuffer}
use netpoll.LinkBuffer.Writer.Pending.{pend, IsWritable}
use netpoll.ReadWriter.ZcReader.{block4k, Given, ZcReader, served, zc_next}
use netpoll.ReadWriter.ZcReader.Stream.{IsGiven, stream, IsZcReader, zc_next_lem}

abbrev array : ℕ → List ℕ
array n = replicate n 0

array_enough : (n : ℕ) → n ≤ length (array n)
array_enough n = omega (arith, length-replicate {A = ℕ} n 0)

-- The node of `NewLinkBuffer()`
abbrev empty_node : Node
empty_node = record { mem = []; len = 0; off = 0; malloc = 0; readonly = true; nocopy_read = false }

abbrev empty_buffer : LinkBuffer
empty_buffer = record {
  length = 0;
  malloc_size = 0;
  nodes = empty_node ∷ [];
  read = 0;
  flush = 0;
  write = 0;
  caches = [];
  cache_peek = none;
}

empty_buffer-IsWritable : IsWritable empty_buffer
unfolding unread pend
empty_buffer-IsWritable = record {
  readable_ok = record {
    linked = record {
      valid = omega arith;
      read_le = omega arith;
      flush_le = omega arith;
      submitted = refl;
    };
    counted = refl;
    peeked = tt;
  };
  written = omega arith;
  flush_le = omega arith;
  write_lt = omega arith;
  clean = tt;
  sized = refl;
}

abbrev one_read : ℕ → ℕ → Given
one_read byte num = record { slice = replicate block4k byte; num = pos num; fails = none }

one_read-IsGiven : (byte num : ℕ) → 0 < num → num ≤ block4k → IsGiven (one_read byte num)
one_read-IsGiven byte num p le = record {
  whole = length-replicate block4k byte;
  some_bytes = p;
  fits = le;
  succeeds = refl;
}

abbrev reader : ZcReader
reader = record { buf = empty_buffer; reads = one_read 7 3 ∷ one_read 8 4 ∷ [] }

reader-stream : stream reader ≡ 7 ∷ 7 ∷ 7 ∷ 8 ∷ 8 ∷ 8 ∷ 8 ∷ []
unfolding unread
reader-stream = refl

reader-IsZcReader : IsZcReader reader
unfolding pend
reader-IsZcReader = record {
  valid = empty_buffer-IsWritable;
  submitted = refl;
  reads_ok = (
    one_read-IsGiven 7 3 (omega arith) (omega arith),
    (one_read-IsGiven 8 4 (omega arith) (omega arith), tt),
  );
}

zc_next_lem_example :
    (r' : ZcReader) × (zc_next array 4 5 reader ≡ some (served (take 5 (stream reader)) r'))
    × (stream r' ≡ drop 5 (stream reader))
    × IsZcReader r'
zc_next_lem_example =
    zc_next_lem array 4 array_enough 5 reader reader-IsZcReader
      (omega (arith, ap length reader-stream))
