-- ===== src/Connection/Until/Tests.antt =====
-- `Until` of a connection whose delimiter comes with the second `waitRead`.
use netpoll.Base.{ℕ, false, none, List, [], ◌∷◌}
use netpoll.LinkBuffer.State.{LinkBuffer}
use netpoll.Connection.Until.{Waited, filled, not_filled}
use netpoll.Connection.Until.Found.{Until}

-- 2 and 3 have come, or 4 and 5 too.
abbrev came : ℕ → LinkBuffer
came n = record {
  length = n;
  malloc_size = 0;
  nodes =
      record {
        mem = 2 ∷ 3 ∷ 4 ∷ 5 ∷ [];
        len = n;
        off = 0;
        malloc = n;
        readonly = false;
        nocopy_read = false;
      }
      ∷ [];
  read = 0;
  flush = 0;
  write = 0;
  caches = [];
  cache_peek = none;
}

abbrev calls : List Waited
calls = filled (came 2) ∷ filled (came 4) ∷ not_filled (came 4) ∷ []
