-- ===== src/Connection/Flushing/Sent.antt =====
-- connection_impl.go, `Flush`: without a timeout it returns nil only where all is sent, and no wake-up
-- is lost.
use netpoll.Base.{◌<◌, ◌≡◌, refl, Bool, true, false, none, arith}
use netpoll.Connection.Protocol.{Who, nobody, user, poller}
use netpoll.Connection.Count.{num}
use netpoll.Connection.Flushing.{
  sent, receiving, returned, idle, Flushing, by_flusher, by_poller, by_closer, Reach, start, later,
}
use netpoll.Connection.Flushing.Invariant.{
  closed, IsFlushing, Flush-IsFlushing, WriteEvent-IsFlushing, OnClosing-IsFlushing,
}

Reach-IsFlushing : {s : Flushing} → Reach false s → IsFlushing s
Reach-IsFlushing start = ground arith
Reach-IsFlushing (later r (by_flusher m)) = Flush-IsFlushing (Reach-IsFlushing r) m
Reach-IsFlushing (later r (by_poller m)) = WriteEvent-IsFlushing (Reach-IsFlushing r) m
Reach-IsFlushing (later r (by_closer m)) = OnClosing-IsFlushing (Reach-IsFlushing r) m

num_one : (b : Bool) → 0 < num b → b ≡ true
num_one true h = refl
num_one false h = absurd (omega arith)

not_closed : (w : Who) → closed w ≡ 0 → w ≡ nobody
not_closed nobody h = refl
not_closed user h = absurd (omega arith)
not_closed poller h = absurd (omega arith)

-- With no write timeout, `Flush` and `Write` return nil only where the output buffer is empty,
-- whatever the poller and those who close do.
pub flush_sent_all : {s : Flushing} → Reach false s → s.flusher ≡ returned sent → s.left ≡ 0
flush_sent_all r e = let v = rw e at (Reach-IsFlushing r) in v.flusher

-- With no write timeout, no wake-up of `waitFlush` is lost: where it is blocked on an empty
-- `writeTrigger`, and the poller and those who close have done their part, the connection is open,
-- bytes are left, and write events are monitored.
pub no_lost_flush :
    {s : Flushing}
    → Reach false s
    → s.flusher ≡ receiving
    → s.write_trigger ≡ none
    → s.acker ≡ idle
    → s.hups ≡ 0
    → s.closers ≡ 0
    → (0 < s.left) × (s.monitored ≡ true) × (s.closing ≡ nobody)
no_lost_flush {s} r waiting empty at_rest no_hup no_closer =
    let v = rw (waiting, empty, at_rest, no_hup, no_closer) at (Reach-IsFlushing r) in
    let on = num_one s.monitored (ground arith) in
    let open_ = not_closed s.closing (ground arith) in (ground arith, on, open_)
