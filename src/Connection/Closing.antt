-- ===== src/Connection/Closing.antt =====
-- connection_onevent.go: who holds `processing`, and how often the close callbacks run.
use netpoll.Base.{ℕ, ◌+◌, ◌≤◌, ◌<◌, ◌≡◌, refl, ◌⊎◌, inl, inr, true, arith}
use netpoll.Connection.Protocol.{
  Who, nobody, user, poller, Handlers, Conn, Pc, hup_disconnect, hup_forced, hup_lock, hup_change,
  hup_run, hup_unlock, hup_close, closer, callbacks, task, opened, gone, helps, unlock_connecting,
  begin, loop, decided, recheck, relock, has_handler, hup_first, hup_late, hup_leaves, hup_closes,
  disconnect_unset, disconnect_forces, disconnect_forced, disconnect_early, disconnect_late,
  disconnect_busy, disconnect_locks, disconnect_changes, disconnect_keeps, disconnect_runs,
  disconnect_unlocks, close_first, close_late, close_forces, closer_busy, closer_locks, detach,
  unregistered, run_callbacks, connect_unset, connect_unset_late, connect_locks, connect_busy,
  request_unset, request_early, request_starts, process_busy, process_locks, connect_runs,
  connect_passed, connect_none, active, inactive, gone_changes, gone_keeps, helps_runs, helps_unset,
  connecting_unlocks, begins, requests, breaks, by_user, by_poller, unlocks, closed_since,
  open_still, relocks, relock_busy, again, exits, Move, by_hup, by_disconnect, by_close,
  by_callback, by_connect, by_request, by_process, System, step, idles, Reach, start, later,
}
use netpoll.Connection.Count.{num, total, total-set, total-idles, num-le, total-at}

-- The goroutines that hold `processing`.
abbrev holds : Pc → ℕ
holds (callbacks _) = 1
holds (task _) = 1
holds opened = 1
holds gone = 1
holds helps = 1
holds unlock_connecting = 1
holds begin = 1
holds loop = 1
holds (decided _) = 1
holds _ = 0

Move-holds :
    {h : Handlers} {c c' : Conn} {p p' : Pc}
    → holds p ≤ num c.processing
    → Move h c p c' p'
    → (holds p' + c'.closes) + num c.processing ≡ (holds p + c.closes) + num c'.processing
Move-holds {c = c} le (by_hup (hup_first e)) = omega arith
Move-holds {c = c} le (by_hup (hup_late e)) = omega arith
Move-holds {c = c} le (by_hup (hup_leaves e)) = omega arith
Move-holds {c = c} le (by_hup (hup_closes e)) = omega arith
Move-holds {c = c} le (by_disconnect (disconnect_unset e)) = omega arith
Move-holds {c = c} le (by_disconnect (disconnect_forces e e2)) = omega arith
Move-holds {c = c} le (by_disconnect disconnect_forced) = omega arith
Move-holds {c = c} le (by_disconnect (disconnect_early e e2 e3)) = omega arith
Move-holds {c = c} le (by_disconnect (disconnect_late e e2 e3)) = omega arith
Move-holds {c = c} le (by_disconnect (disconnect_busy e)) = omega arith
Move-holds {c = c} le (by_disconnect (disconnect_locks e)) = omega arith
Move-holds {c = c} le (by_disconnect (disconnect_changes e)) = omega arith
Move-holds {c = c} le (by_disconnect (disconnect_keeps e)) = omega arith
Move-holds {c = c} le (by_disconnect disconnect_runs) = omega arith
Move-holds {c = c} le (by_disconnect disconnect_unlocks) = omega arith
Move-holds {c = c} le (by_close (close_first e)) = omega arith
Move-holds {c = c} le (by_close (close_late e)) = omega arith
Move-holds {c = c} le (by_close close_forces) = omega arith
Move-holds {c = c} le (by_callback (closer_busy d e)) = omega arith
Move-holds {c = c} le (by_callback (closer_locks d e)) = rw e (omega arith)
Move-holds {c = c} le (by_callback detach) = omega arith
Move-holds {c = c} le (by_callback unregistered) = omega arith
Move-holds {c = c} le (by_callback run_callbacks) = omega arith
Move-holds {c = c} le (by_connect (connect_unset e e2)) = omega arith
Move-holds {c = c} le (by_connect (connect_unset_late e e2)) = omega arith
Move-holds {c = c} le (by_connect (connect_locks e e2)) = omega arith
Move-holds {c = c} le (by_connect (connect_busy e e2)) = omega arith
Move-holds {c = c} le (by_request (request_unset e)) = omega arith
Move-holds {c = c} le (by_request (request_early e e2 e3)) = omega arith
Move-holds {c = c} le (by_request (request_starts e e2)) = omega arith
Move-holds {c = c} le (by_process (process_busy k e)) = omega arith
Move-holds {c = c} le (by_process (process_locks k e)) = rw e (omega arith)
Move-holds {c = c} le (by_process (connect_runs e)) = omega arith
Move-holds {c = c} le (by_process (connect_passed e)) = omega arith
Move-holds {c = c} le (by_process connect_none) = omega arith
Move-holds {c = c} le (by_process (active e)) = omega arith
Move-holds {c = c} le (by_process (inactive e)) = omega arith
Move-holds {c = c} le (by_process (gone_changes e)) = omega arith
Move-holds {c = c} le (by_process (gone_keeps e)) = omega arith
Move-holds {c = c} le (by_process (helps_runs e)) = omega arith
Move-holds {c = c} le (by_process (helps_unset e)) = omega arith
Move-holds {c = c} le (by_process connecting_unlocks) = omega arith
Move-holds {c = c} le (by_process begins) = omega arith
Move-holds {c = c} le (by_process (requests e e2)) = omega arith
Move-holds {c = c} le (by_process breaks) = omega arith
Move-holds {c = c} le (by_process by_user) = omega arith
Move-holds {c = c} le (by_process by_poller) = omega arith
Move-holds {c = c} le (by_process unlocks) = omega (arith, le, num-le c.processing)
Move-holds {c = c} le (by_process (closed_since e)) = omega arith
Move-holds {c = c} le (by_process (open_still e)) = omega arith
Move-holds {c = c} le (by_process (relocks e)) = rw e (omega arith)
Move-holds {c = c} le (by_process (relock_busy e)) = omega arith
Move-holds {c = c} le (by_process (again e e2)) = rw e2 (omega arith)
Move-holds {c = c} le (by_process exits) = omega arith

-- `processing` is held by one goroutine, or for ever once the close callbacks have run.
pub Reach-holds :
    {h : Handlers} {n : ℕ} {s : System}
    → Reach h n s
    → total holds s.pcs + s.conn.closes ≡ num s.conn.processing
Reach-holds {n = n} start = omega (arith, total-idles holds n refl)
Reach-holds (later {s} r (step i {c} {p} {q} at m)) =
    let before = Reach-holds r in
    let here = total-at holds s.pcs i at in
    omega (arith, before, total-set holds s.pcs i q at, Move-holds (omega (arith, before, here)) m)

-- The close callbacks run at most once, however `onHup`, `Close` and tasks interleave.
pub closes_once : {h : Handlers} {n : ℕ} {s : System} → Reach h n s → s.conn.closes ≤ 1
closes_once {s = s} r = omega (arith, Reach-holds r, num-le s.conn.processing)

-- A connection that has to call them: it was closed by the user, or by the poller with a callback
-- set that leaves the closing to the poller.
abbrev pub NeedsClose : Handlers → Who → Type 0
NeedsClose h nobody = ⊥
NeedsClose h user = Unit {0}
NeedsClose h poller = has_handler h ≡ true

-- The goroutines that have yet to try the lock for the close callbacks.
abbrev will : Handlers → Pc → ℕ
will h hup_disconnect = num (has_handler h)
will h hup_forced = num (has_handler h)
will h hup_lock = num (has_handler h)
will h hup_change = num (has_handler h)
will h hup_run = num (has_handler h)
will h hup_unlock = num (has_handler h)
will h hup_close = num (has_handler h)
will h (closer _) = 1
will h recheck = 1
will h relock = 1
will h _ = 0

-- A move leaves a goroutine that will try it, or the lock taken, or takes nothing from those
-- that were there.
abbrev Covers : Handlers → Conn → Pc → Conn → Pc → Type 0
Covers h c p c' p' =
    (0 < will h p' + num c'.processing)
    ⊎ (NeedsClose h c.closing × (will h p + num c.processing ≤ will h p' + num c'.processing))

Move-Covers :
    {h : Handlers} {c c' : Conn} {p p' : Pc}
    → Move h c p c' p'
    → NeedsClose h c'.closing
    → Covers h c p c' p'
Move-Covers (by_hup (hup_first e)) need = inl (rw need (omega arith))
Move-Covers (by_hup (hup_late e)) need = inr (need, omega arith)
Move-Covers (by_hup (hup_leaves e)) need = inr (need, rw e (omega arith))
Move-Covers (by_hup (hup_closes e)) need = inl (omega arith)
Move-Covers (by_disconnect (disconnect_unset e)) need = inr (need, omega arith)
Move-Covers (by_disconnect (disconnect_forces e e2)) need = inr (need, omega arith)
Move-Covers (by_disconnect disconnect_forced) need = inr (need, omega arith)
Move-Covers (by_disconnect (disconnect_early e e2 e3)) need = inr (need, omega arith)
Move-Covers (by_disconnect (disconnect_late e e2 e3)) need = inr (need, omega arith)
Move-Covers (by_disconnect (disconnect_busy e)) need = inr (need, omega arith)
Move-Covers (by_disconnect (disconnect_locks e)) need = inr (need, omega arith)
Move-Covers (by_disconnect (disconnect_changes e)) need = inr (need, omega arith)
Move-Covers (by_disconnect (disconnect_keeps e)) need = inr (need, omega arith)
Move-Covers (by_disconnect disconnect_runs) need = inr (need, omega arith)
Move-Covers (by_disconnect disconnect_unlocks) need = inr (need, omega arith)
Move-Covers (by_close (close_first e)) need = inl (omega arith)
Move-Covers (by_close (close_late e)) need = inr (need, omega arith)
Move-Covers (by_close close_forces) need = inl (omega arith)
Move-Covers (by_callback (closer_busy d e)) need = inl (rw e (omega arith))
Move-Covers (by_callback (closer_locks d e)) need = inl (omega arith)
Move-Covers (by_callback detach) need = inr (need, omega arith)
Move-Covers (by_callback unregistered) need = inr (need, omega arith)
Move-Covers (by_callback run_callbacks) need = inr (need, omega arith)
Move-Covers (by_connect (connect_unset e e2)) need = inr (need, omega arith)
Move-Covers (by_connect (connect_unset_late e e2)) need = inr (need, omega arith)
Move-Covers (by_connect (connect_locks e e2)) need = inr (need, omega arith)
Move-Covers (by_connect (connect_busy e e2)) need = inr (need, omega arith)
Move-Covers (by_request (request_unset e)) need = inr (need, omega arith)
Move-Covers (by_request (request_early e e2 e3)) need = inr (need, omega arith)
Move-Covers (by_request (request_starts e e2)) need = inr (need, omega arith)
Move-Covers (by_process (process_busy k e)) need = inl (rw e (omega arith))
Move-Covers (by_process (process_locks k e)) need = inl (omega arith)
Move-Covers (by_process (connect_runs e)) need = inr (need, omega arith)
Move-Covers (by_process (connect_passed e)) need = inr (need, omega arith)
Move-Covers (by_process connect_none) need = inr (need, omega arith)
Move-Covers (by_process (active e)) need = inr (need, omega arith)
Move-Covers (by_process (inactive e)) need = inr (need, omega arith)
Move-Covers (by_process (gone_changes e)) need = inr (need, omega arith)
Move-Covers (by_process (gone_keeps e)) need = inr (need, omega arith)
Move-Covers (by_process (helps_runs e)) need = inr (need, omega arith)
Move-Covers (by_process (helps_unset e)) need = inr (need, omega arith)
Move-Covers (by_process connecting_unlocks) need = inr (need, omega arith)
Move-Covers (by_process begins) need = inr (need, omega arith)
Move-Covers (by_process (requests e e2)) need = inr (need, omega arith)
Move-Covers (by_process breaks) need = inr (need, omega arith)
Move-Covers (by_process by_user) need = inr (need, omega arith)
Move-Covers (by_process by_poller) need = inr (need, omega arith)
Move-Covers (by_process unlocks) need = inl (omega arith)
Move-Covers (by_process (closed_since e)) need = inl (omega arith)
Move-Covers (by_process (open_still e)) need = absurd (rw e at need)
Move-Covers (by_process (relocks e)) need = inl (omega arith)
Move-Covers (by_process (relock_busy e)) need = inl (rw e (omega arith))
Move-Covers (by_process (again e e2)) need = inl (omega arith)
Move-Covers (by_process exits) need = inr (need, omega arith)

Reach-Covers :
    {h : Handlers} {n : ℕ} {s : System}
    → Reach h n s
    → NeedsClose h s.conn.closing
    → 0 < total (will h) s.pcs + num s.conn.processing
Reach-Covers start need = absurd need
Reach-Covers {h} (later {s} r (step i {c} {p} {q} at m)) need =
    let moved = total-set (will h) s.pcs i q at in
    let here = total-at (will h) s.pcs i at in
    elim (Move-Covers m need) [
      | inl now ↦ omega (arith, moved, here, now)
      | inr (need0, le) ↦ omega (arith, moved, here, le, Reach-Covers r need0)
    ]

-- No connection leaks: when every goroutine is done with a connection that was closed by the user,
-- or by the poller with `onConnect` or `onRequest` set, the close callbacks have run, and once.
pub closes_done :
    {h : Handlers} {n : ℕ} (m : ℕ) {s : System}
    → Reach h n s
    → NeedsClose h s.conn.closing
    → s.pcs ≡ idles m
    → s.conn.closes ≡ 1
closes_done {h} m {s = s} r need done =
    let none_holds : total holds s.pcs ≡ 0 = rw done (total-idles holds m refl) in
    let none_will : total (will h) s.pcs ≡ 0 = rw done (total-idles (will h) m refl) in
    omega (arith, Reach-holds r, Reach-Covers r need, num-le s.conn.processing)
