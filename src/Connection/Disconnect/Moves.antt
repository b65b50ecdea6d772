-- ===== src/Connection/Disconnect/Moves.antt =====
-- connection_onevent.go: what each move does to the counts of `onConnect` and `onDisconnect`.
use netpoll.Base.{ℕ, ◌+◌, ◌≤◌, ◌≡◌, true, false, arith, set}
use netpoll.Connection.Protocol.{
  Who, nobody, user, poller, ConnState, fresh, connected, disconnected, Handlers, Conn, Pc,
  hup_disconnect, hup_forced, hup_lock, hup_change, hup_run, starting, task, opened, gone, helps,
  Move, by_hup, by_disconnect, by_close, by_callback, by_connect, by_request, by_process, hup_first,
  hup_late, hup_leaves, hup_closes, disconnect_unset, disconnect_forces, disconnect_forced,
  disconnect_early, disconnect_late, disconnect_busy, disconnect_locks, disconnect_changes,
  disconnect_keeps, disconnect_runs, disconnect_unlocks, close_first, close_late, close_forces,
  closer_busy, closer_locks, detach, unregistered, run_callbacks, connect_unset, connect_unset_late,
  connect_locks, connect_busy, request_unset, request_early, request_starts, process_busy,
  process_locks, connect_runs, connect_passed, connect_none, active, inactive, gone_changes,
  gone_keeps, helps_runs, helps_unset, connecting_unlocks, begins, requests, breaks, by_user,
  by_poller, unlocks, closed_since, open_still, relocks, relock_busy, again, exits,
}

-- The goroutines that are about to call `onDisconnect`.
abbrev pub calls : Pc → ℕ
calls hup_forced = 1
calls hup_run = 1
calls helps = 1
calls _ = 0

abbrev pub is_disconnected : ConnState → ℕ
is_disconnected fresh = 0
is_disconnected connected = 0
is_disconnected disconnected = 1

abbrev pub is_opened : ConnState → ℕ
is_opened fresh = 0
is_opened connected = 1
is_opened disconnected = 1

pub is_disconnected-le : (x : ConnState) → is_disconnected x ≤ 1
is_disconnected-le fresh = omega arith
is_disconnected-le connected = omega arith
is_disconnected-le disconnected = omega arith

pub state_bounds : (x : ConnState) → (is_disconnected x ≤ is_opened x) × (is_opened x ≤ 1)
state_bounds fresh = omega arith
state_bounds connected = omega arith
state_bounds disconnected = omega arith

-- With `onConnect` set, `onDisconnect` is called by the one that changes the state.
pub Move-calls :
    {h : Handlers} {c c' : Conn} {p p' : Pc}
    → h.on_connect ≡ true
    → Move h c p c' p'
    → (calls p' + c'.disconnects) + is_disconnected c.state
      ≤ (calls p + c.disconnects) + is_disconnected c'.state
Move-calls set (by_hup (hup_first e)) = omega arith
Move-calls set (by_hup (hup_late e)) = omega arith
Move-calls set (by_hup (hup_leaves e)) = omega arith
Move-calls set (by_hup (hup_closes e)) = omega arith
Move-calls set (by_disconnect (disconnect_unset e)) = omega arith
Move-calls set (by_disconnect (disconnect_forces e e2)) = cc
Move-calls set (by_disconnect disconnect_forced) = omega arith
Move-calls set (by_disconnect (disconnect_early e e2 e3)) = omega arith
Move-calls set (by_disconnect (disconnect_late e e2 e3)) = omega arith
Move-calls set (by_disconnect (disconnect_busy e)) = omega arith
Move-calls set (by_disconnect (disconnect_locks e)) = omega arith
Move-calls set (by_disconnect (disconnect_changes e)) = rw e (omega arith)
Move-calls set (by_disconnect (disconnect_keeps e)) = omega arith
Move-calls set (by_disconnect disconnect_runs) = omega arith
Move-calls set (by_disconnect disconnect_unlocks) = omega arith
Move-calls set (by_close (close_first e)) = omega arith
Move-calls set (by_close (close_late e)) = omega arith
Move-calls set (by_close close_forces) = omega arith
Move-calls set (by_callback (closer_busy d e)) = omega arith
Move-calls set (by_callback (closer_locks d e)) = omega arith
Move-calls set (by_callback detach) = omega arith
Move-calls set (by_callback unregistered) = omega arith
Move-calls set (by_callback run_callbacks) = omega arith
Move-calls set (by_connect (connect_unset e e2)) = cc
Move-calls set (by_connect (connect_unset_late e e2)) = cc
Move-calls set (by_connect (connect_locks e e2)) = omega arith
Move-calls set (by_connect (connect_busy e e2)) = omega arith
Move-calls set (by_request (request_unset e)) = omega arith
Move-calls set (by_request (request_early e e2 e3)) = omega arith
Move-calls set (by_request (request_starts e e2)) = omega arith
Move-calls set (by_process (process_busy k e)) = omega arith
Move-calls set (by_process (process_locks k e)) = omega arith
Move-calls set (by_process (connect_runs e)) = rw e (omega arith)
Move-calls set (by_process (connect_passed e)) = omega arith
Move-calls set (by_process connect_none) = omega arith
Move-calls set (by_process (active e)) = omega arith
Move-calls set (by_process (inactive e)) = omega arith
Move-calls set (by_process (gone_changes e)) = rw e (omega arith)
Move-calls set (by_process (gone_keeps e)) = omega arith
Move-calls set (by_process (helps_runs e)) = omega arith
Move-calls set (by_process (helps_unset e)) = omega arith
Move-calls set (by_process connecting_unlocks) = omega arith
Move-calls set (by_process begins) = omega arith
Move-calls set (by_process (requests e e2)) = omega arith
Move-calls set (by_process breaks) = omega arith
Move-calls set (by_process by_user) = omega arith
Move-calls set (by_process by_poller) = omega arith
Move-calls set (by_process unlocks) = omega arith
Move-calls set (by_process (closed_since e)) = omega arith
Move-calls set (by_process (open_still e)) = omega arith
Move-calls set (by_process (relocks e)) = omega arith
Move-calls set (by_process (relock_busy e)) = omega arith
Move-calls set (by_process (again e e2)) = omega arith
Move-calls set (by_process exits) = omega arith

-- With `onConnect` set, the state leaves its first value when `onConnect` runs.
pub Move-opens :
    {h : Handlers} {c c' : Conn} {p p' : Pc}
    → h.on_connect ≡ true
    → Move h c p c' p'
    → c'.connects + is_opened c.state ≡ c.connects + is_opened c'.state
Move-opens set (by_hup (hup_first e)) = omega arith
Move-opens set (by_hup (hup_late e)) = omega arith
Move-opens set (by_hup (hup_leaves e)) = omega arith
Move-opens set (by_hup (hup_closes e)) = omega arith
Move-opens set (by_disconnect (disconnect_unset e)) = omega arith
Move-opens set (by_disconnect (disconnect_forces e e2)) = cc
Move-opens set (by_disconnect disconnect_forced) = omega arith
Move-opens set (by_disconnect (disconnect_early e e2 e3)) = omega arith
Move-opens set (by_disconnect (disconnect_late e e2 e3)) = omega arith
Move-opens set (by_disconnect (disconnect_busy e)) = omega arith
Move-opens set (by_disconnect (disconnect_locks e)) = omega arith
Move-opens set (by_disconnect (disconnect_changes e)) = rw e (omega arith)
Move-opens set (by_disconnect (disconnect_keeps e)) = omega arith
Move-opens set (by_disconnect disconnect_runs) = omega arith
Move-opens set (by_disconnect disconnect_unlocks) = omega arith
Move-opens set (by_close (close_first e)) = omega arith
Move-opens set (by_close (close_late e)) = omega arith
Move-opens set (by_close close_forces) = omega arith
Move-opens set (by_callback (closer_busy d e)) = omega arith
Move-opens set (by_callback (closer_locks d e)) = omega arith
Move-opens set (by_callback detach) = omega arith
Move-opens set (by_callback unregistered) = omega arith
Move-opens set (by_callback run_callbacks) = omega arith
Move-opens set (by_connect (connect_unset e e2)) = cc
Move-opens set (by_connect (connect_unset_late e e2)) = cc
Move-opens set (by_connect (connect_locks e e2)) = omega arith
Move-opens set (by_connect (connect_busy e e2)) = omega arith
Move-opens set (by_request (request_unset e)) = omega arith
Move-opens set (by_request (request_early e e2 e3)) = omega arith
Move-opens set (by_request (request_starts e e2)) = omega arith
Move-opens set (by_process (process_busy k e)) = omega arith
Move-opens set (by_process (process_locks k e)) = omega arith
Move-opens set (by_process (connect_runs e)) = rw e (omega arith)
Move-opens set (by_process (connect_passed e)) = omega arith
Move-opens set (by_process connect_none) = omega arith
Move-opens set (by_process (active e)) = omega arith
Move-opens set (by_process (inactive e)) = omega arith
Move-opens set (by_process (gone_changes e)) = rw e (omega arith)
Move-opens set (by_process (gone_keeps e)) = omega arith
Move-opens set (by_process (helps_runs e)) = omega arith
Move-opens set (by_process (helps_unset e)) = omega arith
Move-opens set (by_process connecting_unlocks) = omega arith
Move-opens set (by_process begins) = omega arith
Move-opens set (by_process (requests e e2)) = omega arith
Move-opens set (by_process breaks) = omega arith
Move-opens set (by_process by_user) = omega arith
Move-opens set (by_process by_poller) = omega arith
Move-opens set (by_process unlocks) = omega arith
Move-opens set (by_process (closed_since e)) = omega arith
Move-opens set (by_process (open_still e)) = omega arith
Move-opens set (by_process (relocks e)) = omega arith
Move-opens set (by_process (relock_busy e)) = omega arith
Move-opens set (by_process (again e e2)) = omega arith
Move-opens set (by_process exits) = omega arith

-- Without `onConnect` the one goroutine that `closeBy(poller)` lets through calls `onDisconnect`.
abbrev pub through : Pc → ℕ
through hup_disconnect = 1
through hup_forced = 1
through hup_lock = 1
through hup_change = 1
through hup_run = 1
through (starting true) = 1
through (task true) = 1
through opened = 1
through gone = 1
through helps = 1
through _ = 0

abbrev pub is_closed : Who → ℕ
is_closed nobody = 0
is_closed user = 1
is_closed poller = 1

pub is_closed-le : (w : Who) → is_closed w ≤ 1
is_closed-le nobody = omega arith
is_closed-le user = omega arith
is_closed-le poller = omega arith

pub Move-through :
    {h : Handlers} {c c' : Conn} {p p' : Pc}
    → h.on_connect ≡ false
    → Move h c p c' p'
    → (through p' + c'.disconnects) + is_closed c.closing
      ≤ (through p + c.disconnects) + is_closed c'.closing
Move-through {c = c} unset (by_hup (hup_first e)) = rw e (omega arith)
Move-through {c = c} unset (by_hup (hup_late e)) = omega arith
Move-through {c = c} unset (by_hup (hup_leaves e)) = omega arith
Move-through {c = c} unset (by_hup (hup_closes e)) = omega arith
Move-through {c = c} unset (by_disconnect (disconnect_unset e)) = omega arith
Move-through {c = c} unset (by_disconnect (disconnect_forces e e2)) = omega arith
Move-through {c = c} unset (by_disconnect disconnect_forced) = omega arith
Move-through {c = c} unset (by_disconnect (disconnect_early e e2 e3)) = absurd (cc)
Move-through {c = c} unset (by_disconnect (disconnect_late e e2 e3)) = absurd (cc)
Move-through {c = c} unset (by_disconnect (disconnect_busy e)) = omega arith
Move-through {c = c} unset (by_disconnect (disconnect_locks e)) = omega arith
Move-through {c = c} unset (by_disconnect (disconnect_changes e)) = omega arith
Move-through {c = c} unset (by_disconnect (disconnect_keeps e)) = omega arith
Move-through {c = c} unset (by_disconnect disconnect_runs) = omega arith
Move-through {c = c} unset (by_disconnect disconnect_unlocks) = omega arith
Move-through {c = c} unset (by_close (close_first e)) = rw e (omega arith)
Move-through {c = c} unset (by_close (close_late e)) = omega arith
Move-through {c = c} unset (by_close close_forces) = omega (arith, is_closed-le c.closing)
Move-through {c = c} unset (by_callback (closer_busy d e)) = omega arith
Move-through {c = c} unset (by_callback (closer_locks d e)) = omega arith
Move-through {c = c} unset (by_callback detach) = omega arith
Move-through {c = c} unset (by_callback unregistered) = omega arith
Move-through {c = c} unset (by_callback run_callbacks) = omega arith
Move-through {c = c} unset (by_connect (connect_unset e e2)) = omega arith
Move-through {c = c} unset (by_connect (connect_unset_late e e2)) = omega arith
Move-through {c = c} unset (by_connect (connect_locks e e2)) = absurd (cc)
Move-through {c = c} unset (by_connect (connect_busy e e2)) = absurd (cc)
Move-through {c = c} unset (by_request (request_unset e)) = omega arith
Move-through {c = c} unset (by_request (request_early e e2 e3)) = absurd (cc)
Move-through {c = c} unset (by_request (request_starts e e2)) = omega arith
Move-through {c = c} unset (by_process (process_busy k e)) = omega arith
Move-through {c = c} unset (by_process (process_locks k e)) = omega arith
Move-through {c = c} unset (by_process (connect_runs e)) = omega arith
Move-through {c = c} unset (by_process (connect_passed e)) = omega arith
Move-through {c = c} unset (by_process connect_none) = omega arith
Move-through {c = c} unset (by_process (active e)) = omega arith
Move-through {c = c} unset (by_process (inactive e)) = omega arith
Move-through {c = c} unset (by_process (gone_changes e)) = omega arith
Move-through {c = c} unset (by_process (gone_keeps e)) = omega arith
Move-through {c = c} unset (by_process (helps_runs e)) = omega arith
Move-through {c = c} unset (by_process (helps_unset e)) = omega arith
Move-through {c = c} unset (by_process connecting_unlocks) = omega arith
Move-through {c = c} unset (by_process begins) = omega arith
Move-through {c = c} unset (by_process (requests e e2)) = omega arith
Move-through {c = c} unset (by_process breaks) = omega arith
Move-through {c = c} unset (by_process by_user) = omega arith
Move-through {c = c} unset (by_process by_poller) = omega arith
Move-through {c = c} unset (by_process unlocks) = omega arith
Move-through {c = c} unset (by_process (closed_since e)) = omega arith
Move-through {c = c} unset (by_process (open_still e)) = omega arith
Move-through {c = c} unset (by_process (relocks e)) = omega arith
Move-through {c = c} unset (by_process (relock_busy e)) = omega arith
Move-through {c = c} unset (by_process (again e e2)) = omega arith
Move-through {c = c} unset (by_process exits) = omega arith
