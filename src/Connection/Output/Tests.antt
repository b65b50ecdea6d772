-- ===== src/Connection/Output/Tests.antt =====
-- A connection of connection_impl.go that has sent 1 and 2, with 3 to 5 in its output buffer.
use netpoll.Base.{◌≡◌, refl, ◌⊎◌, Bool, false, none, some, [], ◌∷◌, arith}
use netpoll.LinkBuffer.Node.{Node, unread}
use netpoll.Connection.Output.{wrote, failed, Sender, Flushing, flush, write_event}
use netpoll.Connection.Output.Conserve.{
  IsOutput, stream, Ends, flush-Ends, Settles, write_event-Settles,
}

abbrev node : Node
node = record {
  mem = 3 ∷ 4 ∷ 5 ∷ 0 ∷ [];
  len = 3;
  off = 0;
  malloc = 3;
  readonly = false;
  nocopy_read = false;
}

abbrev sender : Sender
sender = record {
  out = record {
    length = 3;
    malloc_size = 0;
    nodes = node ∷ [];
    read = 0;
    flush = 0;
    write = 0;
    caches = [];
    cache_peek = none;
  };
  monitored = false;
  triggered = false;
  wire = 1 ∷ 2 ∷ [];
}

sender-IsOutput : IsOutput sender.out
unfolding unread
sender-IsOutput = record {
  valid = record {
    linked = record {
      valid = omega arith;
      read_le = omega arith;
      flush_le = omega arith;
      submitted = refl;
    };
    counted = refl;
    peeked = tt;
  };
  flush_le = omega arith;
  write_lt = omega arith;
}

flush-Ends_example :
    (r : Flushing) × (s' : Sender) × (flush (wrote 2) sender ≡ some (r, s'))
    × (stream s' ≡ stream sender)
    × IsOutput s'.out
    × Ends (wrote 2) r s'
flush-Ends_example = flush-Ends (wrote 2) sender sender-IsOutput

write_event-Settles_example :
    (hup : Bool) × (s' : Sender) × (write_event (wrote 3) sender ≡ some (hup, s'))
    × ((hup ≡ false) ⊎ (wrote 3 ≡ failed))
    × (stream s' ≡ stream sender)
    × IsOutput s'.out
    × Settles sender s'
write_event-Settles_example = write_event-Settles (wrote 3) sender sender-IsOutput
