-- ===== src/Fifo/Output/Tests.antt =====
-- A `writeFifo` that has sent 1 and 2, with 3 to 5 in its output buffer, and that has been detached
-- once.
use netpoll.Base.{◌≡◌, refl, Bool, true, false, not, none, some, [], ◌∷◌, arith}
use netpoll.LinkBuffer.Node.{Node, unread}
use netpoll.Poller.Control.{Epoll, IsEpoll}
use netpoll.Connection.Output.{wrote, Flushing}
use netpoll.Connection.Output.Conserve.{IsOutput}
use netpoll.Fifo.Output.{FifoSender, fifo_flush}
use netpoll.Fifo.Output.Conserve.{fifo_stream, FifoEnds, fifo_flush-FifoEnds}

-- Epoll for one descriptor, as whether it is registered.
abbrev one_fd : Epoll Bool
one_fd = record {
  add = λ event e. (not e, true);
  modify = λ event e. (e, e);
  delete = λ e. (e, false);
}

abbrev itself : Bool → Bool
itself e = e

one_fd-IsEpoll : IsEpoll one_fd itself
one_fd-IsEpoll = record {
  adds = λ event e. refl;
  added = λ event e. refl;
  modifies = λ event e. refl;
  modified = λ event e. refl;
  deletes = λ e. refl;
  deleted = λ e. refl;
}

abbrev node : Node
node = record {
  mem = 3 ∷ 4 ∷ 5 ∷ 0 ∷ [];
  len = 3;
  off = 0;
  malloc = 3;
  readonly = false;
  nocopy_read = false;
}

abbrev sender : FifoSender Bool
sender = record {
  out = record {
    length = 3;
    malloc_size = 0;
    nodes = node ∷ [];
    read = 0;
    flush = 0;
    write = 0;
    caches = [];
    cache_peek = none;
  };
  op = record { fd = 5; detached = 1; next = none; state = 1 };
  epoll = false;
  triggered = false;
  wire = 1 ∷ 2 ∷ [];
}

sender-IsOutput : IsOutput sender.out
unfolding unread
sender-IsOutput = record {
  valid = record {
    linked = record {
      valid = omega arith;
      read_le = omega arith;
      flush_le = omega arith;
      submitted = refl;
    };
    counted = refl;
    peeked = tt;
  };
  flush_le = omega arith;
  write_lt = omega arith;
}

fifo_flush-FifoEnds_example :
    (r : Flushing) × (s' : FifoSender Bool) × (fifo_flush one_fd (wrote 2) sender ≡ some (r, s'))
    × (fifo_stream s' ≡ fifo_stream sender)
    × IsOutput s'.out
    × FifoEnds itself (wrote 2) false r s'
fifo_flush-FifoEnds_example =
    fifo_flush-FifoEnds one_fd itself one_fd-IsEpoll (wrote 2) sender sender-IsOutput (omega arith)

abbrev registered : FifoSender Bool
registered = record sender { epoll = true }
