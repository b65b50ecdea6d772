-- ===== src/Connection/Tests.antt =====
-- A connection of connection_onevent.go that is opened, and hung up by its peer.
use netpoll.Base.{ℕ, ◌≤◌, ◌≡◌, refl, true, false, [], ◌∷◌}
use netpoll.Connection.Protocol.{
  poller, disconnected, Handlers, idle, by_hup, by_disconnect, by_callback, by_connect, by_process,
  hup_first, hup_closes, disconnect_late, disconnect_locks, disconnect_changes, disconnect_runs,
  disconnect_unlocks, closer_locks, run_callbacks, connect_locks, process_locks, connect_runs,
  active, connecting_unlocks, begins, breaks, unlocks, open_still, exits, System, Step, step, Reach,
  start, later,
}
use netpoll.Connection.Closing.{closes_once, closes_done}
use netpoll.Connection.Disconnect.{disconnects_once, connects_first}

abbrev every : Handlers
every = record { on_connect = true; on_disconnect = true; on_request = true }

-- One goroutine is the task, and the other the poller.
abbrev ended : System
ended = record {
  conn = record {
    closing = poller;
    connecting = false;
    processing = true;
    state = disconnected;
    connects = 1;
    disconnects = 1;
    detaches = 0;
    closes = 1;
  };
  pcs = idle ∷ idle ∷ [];
}

infixl 5 ◌then◌
abbrev ◌then◌ : {h : Handlers} {n : ℕ} {s t : System} → Reach h n s → Step h s t → Reach h n t
r then m = later r m

ended-Reach : Reach every 2 ended
ended-Reach =
    start
    then step 0 refl (by_connect (connect_locks refl refl))
    then step 0 refl (by_process (process_locks true refl))
    then step 0 refl (by_process (connect_runs refl))
    then step 0 refl (by_process (active refl))
    then step 0 refl (by_process connecting_unlocks)
    then step 0 refl (by_process begins)
    then step 0 refl (by_process breaks)
    then step 0 refl (by_process unlocks)
    then step 0 refl (by_process (open_still refl))
    then step 0 refl (by_process exits)
    then step 1 refl (by_hup (hup_first refl))
    then step 1 refl (by_disconnect (disconnect_late refl refl (λ e. cc)))
    then step 1 refl (by_disconnect (disconnect_locks refl))
    then step 1 refl (by_disconnect (disconnect_changes refl))
    then step 1 refl (by_disconnect disconnect_runs)
    then step 1 refl (by_disconnect disconnect_unlocks)
    then step 1 refl (by_hup (hup_closes refl))
    then step 1 refl (by_callback (closer_locks false refl))
    then step 1 refl (by_callback run_callbacks)

closes_once_example : ended.conn.closes ≤ 1
closes_once_example = closes_once ended-Reach

closes_done_example : ended.conn.closes ≡ 1
closes_done_example = closes_done 2 ended-Reach refl refl

disconnects_once_example : ended.conn.disconnects ≤ 1
disconnects_once_example = disconnects_once ended-Reach

connects_first_example : (ended.conn.connects ≤ 1) × (ended.conn.disconnects ≤ ended.conn.connects)
connects_first_example = connects_first refl ended-Reach
