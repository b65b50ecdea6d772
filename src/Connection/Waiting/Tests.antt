-- ===== src/Connection/Waiting/Tests.antt =====
-- A goroutine that waits for two bytes on a connection of connection_impl.go, and one that is closed
-- while it waits.
use netpoll.Base.{refl, inl, Bool, false, none, [], arith}
use netpoll.Connection.Protocol.{nobody, user}
use netpoll.Connection.Waiting.{
  self_close, conn_closed, receiving, returned, idle, Waiting, calls, stores, tests_short,
  checks_status, receives, acks, goes_on, leaves, closes, wakes, Step, by_reader, by_poller,
  by_closer, Reach, start, later,
}
use netpoll.Connection.Waiting.Known.{Outcome}
use netpoll.Connection.Waiting.Wakeup.{wait_read-Outcome}

infixl 5 ◌then◌
abbrev ◌then◌ : {q : Bool} {s t : Waiting} → Reach q s → Step q s t → Reach q t
r then m = later r m

-- One byte has come, which is not enough.
abbrev blocked : Waiting
blocked = record {
  len = 1;
  wait_read_size = 2;
  closing = nobody;
  processing = false;
  read_trigger = none;
  reader = receiving 2;
  acker = idle;
  closers = [];
}

blocked-Reach : Reach false blocked
blocked-Reach =
    start
    then by_reader (calls 2 refl (inl refl))
    then by_reader (stores 2 refl)
    then by_reader (tests_short 2 refl (omega arith))
    then by_poller (acks 1 refl (omega arith))
    then by_reader (checks_status 2 refl)
    then by_poller (goes_on 1 1 refl)
    then by_poller (leaves 1 refl (omega arith))

abbrev closed_since : Waiting
closed_since = record blocked { closing = user; reader = returned 2 conn_closed }

closed_since-Reach : Reach false closed_since
closed_since-Reach =
    blocked-Reach
    then by_closer (closes refl)
    then by_closer (wakes self_close [] refl)
    then by_reader (receives 2 self_close refl refl)

wait_read-Outcome_example : Outcome 2 conn_closed closed_since.len closed_since.closing
wait_read-Outcome_example = wait_read-Outcome 2 conn_closed closed_since-Reach refl
