-- ===== src/ReadWriter/Tests.antt =====
-- A LinkBuffer between an io.Writer and an io.Reader, as nocopy_readwriter.go joins them.
use netpoll.Base.{
  ℕ, zero, suc, ◌≤◌, ◌<◌, ◌≡◌, refl, ◌⊎◌, false, none, some, List, [], ◌∷◌, ◌++◌, arith, length,
  take, drop,
}
use netpoll.LinkBuffer.Node.{Node, unread}
use netpoll.LinkBuffer.State.{LinkBuffer, readable}
use netpoll.LinkBuffer.Writer.Pending.{pend, pending, IsWritable}
use netpoll.Connection.Output.Conserve.{IsOutput}
use netpoll.ReadWriter.{got, eof, io_read, ZcWriter, zc_flush}
use netpoll.ReadWriter.Laws.{IsWritable-IsOutput, io_read_lem, zc_flush_lem}

-- An allocator that gives `n` bytes.
abbrev nines : ℕ → List ℕ
nines zero = []
nines (suc n) = 9 ∷ nines n

nines_enough : (n : ℕ) → n ≤ length (nines n)
nines_enough zero = omega arith
nines_enough (suc n) = omega (arith, nines_enough n)

abbrev half : Node
half = record {
  mem = 1 ∷ 2 ∷ 3 ∷ 0 ∷ [];
  len = 2;
  off = 0;
  malloc = 3;
  readonly = false;
  nocopy_read = false;
}

-- 1 and 2 can be read, and 3 is pending.
abbrev buffer : LinkBuffer
buffer = record {
  length = 2;
  malloc_size = 1;
  nodes = half ∷ [];
  read = 0;
  flush = 0;
  write = 0;
  caches = [];
  cache_peek = none;
}

buffer-IsWritable : IsWritable buffer
unfolding unread pend
buffer-IsWritable = record {
  readable_ok = record {
    linked = record {
      valid = omega arith;
      read_le = omega arith;
      flush_le = omega arith;
      submitted = refl;
    };
    counted = refl;
    peeked = tt;
  };
  written = omega arith;
  flush_le = omega arith;
  write_lt = omega arith;
  clean = tt;
  sized = refl;
}

abbrev writer : ZcWriter
writer = record { buf = buffer; sink = 0 ∷ [] }

io_read_lem_example :
    ((readable buffer ≡ []) × (io_read 5 buffer ≡ some eof))
    ⊎ ((b' : LinkBuffer) × (io_read 5 buffer ≡ some (got (take 5 (readable buffer)) b'))
        × (readable b' ≡ drop 5 (readable buffer))
        × (0 < length (readable buffer))
        × IsOutput b')
io_read_lem_example = io_read_lem 5 buffer (IsWritable-IsOutput buffer-IsWritable) (omega arith)

zc_flush_lem_example :
    (w' : ZcWriter) × (zc_flush nines 4 2 writer ≡ some w')
    × (w'.sink ++ readable w'.buf ≡ writer.sink ++ (readable buffer ++ pending buffer))
    × IsOutput w'.buf
zc_flush_lem_example = zc_flush_lem nines 4 2 writer buffer-IsWritable
