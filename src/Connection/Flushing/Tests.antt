-- ===== src/Connection/Flushing/Tests.antt =====
-- Calls of `Flush` on a connection of connection_impl.go.
use netpoll.Base.{◌<◌, ◌≡◌, refl, Bool, true, false, none}
use netpoll.Connection.Protocol.{nobody}
use netpoll.Connection.Flushing.{
  nil, sent, write_timeout, receiving, returned, idle, Flushing, begins, sends, registers, receives,
  timer_fires, gives_up, returns, fires, acks, ends, detaches, triggers, Step, by_flusher,
  by_poller, Reach, start, later,
}
use netpoll.Connection.Flushing.Sent.{flush_sent_all, no_lost_flush}

infixl 5 ◌then◌
abbrev ◌then◌ : {b : Bool} {s t : Flushing} → Reach b s → Step b s t → Reach b t
r then m = later r m

-- Five bytes are flushed; the first `sendmsg` takes two.
abbrev blocked : Flushing
blocked = record {
  left = 3;
  monitored = true;
  closing = nobody;
  write_trigger = none;
  flusher = receiving;
  acker = idle;
  hups = 0;
  closers = 0;
}

blocked-Reach : {b : Bool} → Reach b blocked
blocked-Reach =
    start
    then by_flusher (begins 5 refl refl)
    then by_flusher (sends 2 refl)
    then by_flusher (registers refl)

no_lost_flush_example : (0 < blocked.left) × (blocked.monitored ≡ true) × (blocked.closing ≡ nobody)
no_lost_flush_example = no_lost_flush blocked-Reach refl refl refl refl refl

abbrev done : Flushing
done = record blocked { left = 0; monitored = false; flusher = returned sent }

-- The poller sends the rest.
done-Reach : Reach false done
done-Reach =
    blocked-Reach
    then by_poller (fires refl refl)
    then by_poller (acks 3 refl)
    then by_poller (ends refl)
    then by_poller (detaches refl)
    then by_poller (triggers refl)
    then by_flusher (receives nil refl refl)

flush_sent_all_example : done.left ≡ 0
flush_sent_all_example = flush_sent_all done-Reach refl

-- With a timeout, the message of a `Flush` that has given up is taken by the next one, which returns
-- nil with bytes left.
abbrev sent_too_early : Flushing
sent_too_early = record blocked { left = 4; flusher = returned sent }

sent_too_early-Reach : Reach true sent_too_early
sent_too_early-Reach =
    blocked-Reach
    then by_poller (fires refl refl)
    then by_flusher (timer_fires refl refl)
    then by_flusher (gives_up refl refl)
    then by_flusher (returns write_timeout refl)
    then by_poller (acks 3 refl)
    then by_poller (ends refl)
    then by_poller (detaches refl)
    then by_poller (triggers refl)
    then by_flusher (begins 4 refl refl)
    then by_flusher (sends 0 refl)
    then by_flusher (registers refl)
    then by_flusher (receives nil refl refl)
