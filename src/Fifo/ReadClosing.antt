-- ===== src/Fifo/ReadClosing.antt =====
-- fifo_reactor.go, fifo_read_impl.go: who holds `fifoProcessing` of a `readFifo`, and how often its
-- close callbacks run.
use netpoll.Base.{ℕ, ◌+◌, ◌≤◌, ◌<◌, ◌≡◌, refl, ap, ◌∙◌, ◌⊎◌, inl, inr, Bool, arith, replicate}
use netpoll.Connection.Protocol.{user}
use netpoll.Connection.Count.{num, total, total-set, total-replicate, num-le, total-at}
use netpoll.Fifo.Reading.{
  ReadFifo, ReadPc, idle, calling, force, begin, panicked, closer, callbacks, first, reading, loop,
  recheck, relock, decided, sets_handler, hup_first, hup_late, hup_leaves, hup_closes, calls_close,
  close_first, close_late, close_forces, closer_busy, closer_locks, detach, unregistered,
  run_callbacks, processes, process_busy, process_locks, loads, reads_first, has_none, returns,
  panics, reads, breaks, by_user, by_poller, unlocks, closed_since, open_still, relocks,
  relock_busy, again, exits, recovers, ReadMove, by_close, by_callback, by_task, Reading, step,
  Reach, start, later,
}

-- The goroutines that hold `fifoProcessing`.
abbrev holds : ReadPc → ℕ
holds (callbacks _) = 1
holds begin = 1
holds (first _) = 1
holds (reading _) = 1
holds (loop _) = 1
holds (decided _ _) = 1
holds panicked = 1
holds _ = 0

ReadMove-holds :
    {f f' : ReadFifo} {p p' : ReadPc}
    → holds p ≤ num f.processing
    → ReadMove f p f' p'
    → (holds p' + f'.closes) + num f.processing ≡ (holds p + f.closes) + num f'.processing
ReadMove-holds {f = f} le (by_close sets_handler) = omega arith
ReadMove-holds {f = f} le (by_close (hup_first e)) = omega arith
ReadMove-holds {f = f} le (by_close (hup_late e)) = omega arith
ReadMove-holds {f = f} le (by_close (hup_leaves e)) = omega arith
ReadMove-holds {f = f} le (by_close (hup_closes e)) = omega arith
ReadMove-holds {f = f} le (by_close calls_close) = omega arith
ReadMove-holds {f = f} le (by_close (close_first e)) = omega arith
ReadMove-holds {f = f} le (by_close (close_late e)) = omega arith
ReadMove-holds {f = f} le (by_close close_forces) = omega arith
ReadMove-holds {f = f} le (by_callback (closer_busy d e)) = omega arith
ReadMove-holds {f = f} le (by_callback (closer_locks d e)) = rw e (omega arith)
ReadMove-holds {f = f} le (by_callback detach) = omega arith
ReadMove-holds {f = f} le (by_callback unregistered) = omega arith
ReadMove-holds {f = f} le (by_callback run_callbacks) = omega arith
ReadMove-holds {f = f} le (by_task processes) = omega arith
ReadMove-holds {f = f} le (by_task (process_busy e)) = omega arith
ReadMove-holds {f = f} le (by_task (process_locks e)) = rw e (omega arith)
ReadMove-holds {f = f} le (by_task loads) = omega arith
ReadMove-holds {f = f} le (by_task reads_first) = omega arith
ReadMove-holds {f = f} le (by_task (has_none h)) = omega arith
ReadMove-holds {f = f} le (by_task (returns h)) = omega arith
ReadMove-holds {f = f} le (by_task (panics h)) = omega arith
ReadMove-holds {f = f} le (by_task (reads e)) = omega arith
ReadMove-holds {f = f} le (by_task (breaks h)) = omega arith
ReadMove-holds {f = f} le (by_task (by_user h)) = omega arith
ReadMove-holds {f = f} le (by_task (by_poller h)) = omega arith
ReadMove-holds {f = f} le (by_task (unlocks h)) = omega (arith, le, num-le f.processing)
ReadMove-holds {f = f} le (by_task (closed_since h e)) = omega arith
ReadMove-holds {f = f} le (by_task (open_still h e)) = omega arith
ReadMove-holds {f = f} le (by_task (relocks h e)) = rw e (omega arith)
ReadMove-holds {f = f} le (by_task (relock_busy h e)) = omega arith
ReadMove-holds {f = f} le (by_task (again e)) = rw e (omega arith)
ReadMove-holds {f = f} le (by_task (exits h)) = omega arith
ReadMove-holds {f = f} le (by_task recovers) = omega (arith, le, num-le f.processing)

Reach-holds :
    {h : Bool} {n : ℕ} {s : Reading}
    → Reach h n s
    → total holds s.pcs + s.fifo.closes ≡ num s.fifo.processing
Reach-holds {n = n} start = omega (arith, total-replicate holds n idle refl)
Reach-holds (later {s} r (step i {f} {p} {q} at m)) =
    let before = Reach-holds r in
    let here = total-at holds s.pcs i at in
    omega
      (arith, before, total-set holds s.pcs i q at, ReadMove-holds (omega (arith, before, here)) m)

-- The goroutines that have yet to try the lock for the close callbacks.
abbrev will : ReadPc → ℕ
will calling = 1
will force = 1
will (closer _) = 1
will (recheck _) = 1
will (relock _) = 1
will _ = 0

-- A move leaves a goroutine that will try it, or the lock taken, or takes nothing from those that
-- were there.
abbrev Covers : ReadFifo → ReadPc → ReadFifo → ReadPc → Type 0
Covers f p f' p' =
    (0 < will p' + num f'.processing)
    ⊎ ((f.closing ≡ user) × (will p + num f.processing ≤ will p' + num f'.processing))

ReadMove-Covers :
    {f f' : ReadFifo} {p p' : ReadPc} → ReadMove f p f' p' → f'.closing ≡ user → Covers f p f' p'
ReadMove-Covers {f = f} (by_close sets_handler) need = inr (need, omega arith)
ReadMove-Covers {f = f} (by_close (hup_first e)) need = cc
ReadMove-Covers {f = f} (by_close (hup_late e)) need = inr (need, omega arith)
ReadMove-Covers {f = f} (by_close (hup_leaves e)) need = inr (need, omega arith)
ReadMove-Covers {f = f} (by_close (hup_closes e)) need = inl (omega arith)
ReadMove-Covers {f = f} (by_close calls_close) need = inl (omega arith)
ReadMove-Covers {f = f} (by_close (close_first e)) need = inl (omega arith)
ReadMove-Covers {f = f} (by_close (close_late e)) need = inl (omega arith)
ReadMove-Covers {f = f} (by_close close_forces) need = inl (omega arith)
ReadMove-Covers {f = f} (by_callback (closer_busy d e)) need = inl (rw e (omega arith))
ReadMove-Covers {f = f} (by_callback (closer_locks d e)) need = inl (omega arith)
ReadMove-Covers {f = f} (by_callback detach) need = inr (need, omega arith)
ReadMove-Covers {f = f} (by_callback unregistered) need = inr (need, omega arith)
ReadMove-Covers {f = f} (by_callback run_callbacks) need = inr (need, omega arith)
ReadMove-Covers {f = f} (by_task processes) need = inr (need, omega arith)
ReadMove-Covers {f = f} (by_task (process_busy e)) need = inr (need, omega arith)
ReadMove-Covers {f = f} (by_task (process_locks e)) need = inl (omega arith)
ReadMove-Covers {f = f} (by_task loads) need = inr (need, omega arith)
ReadMove-Covers {f = f} (by_task reads_first) need = inr (need, omega arith)
ReadMove-Covers {f = f} (by_task (has_none h)) need = inr (need, omega arith)
ReadMove-Covers {f = f} (by_task (returns h)) need = inr (need, omega arith)
ReadMove-Covers {f = f} (by_task (panics h)) need = inr (need, omega arith)
ReadMove-Covers {f = f} (by_task (reads e)) need = inr (need, omega arith)
ReadMove-Covers {f = f} (by_task (breaks h)) need = inr (need, omega arith)
ReadMove-Covers {f = f} (by_task (by_user h)) need = inr (need, omega arith)
ReadMove-Covers {f = f} (by_task (by_poller h)) need = inr (need, omega arith)
ReadMove-Covers {f = f} (by_task (unlocks h)) need = inl (omega arith)
ReadMove-Covers {f = f} (by_task (closed_since h e)) need = inl (omega arith)
ReadMove-Covers {f = f} (by_task (open_still h e)) need = cc
ReadMove-Covers {f = f} (by_task (relocks h e)) need = inl (omega arith)
ReadMove-Covers {f = f} (by_task (relock_busy h e)) need = inl (rw e (omega arith))
ReadMove-Covers {f = f} (by_task (again e)) need = inl (omega arith)
ReadMove-Covers {f = f} (by_task (exits h)) need = inr (need, omega arith)
ReadMove-Covers {f = f} (by_task recovers) need = inl (omega arith)

Reach-will :
    {h : Bool} {n : ℕ} {s : Reading}
    → Reach h n s
    → s.fifo.closing ≡ user
    → 0 < total will s.pcs + num s.fifo.processing
Reach-will start need = cc
Reach-will (later {s} r (step i {f} {p} {q} at m)) need = elim (ReadMove-Covers m need) [
  | inl covered ↦ omega (arith, covered, total-set will s.pcs i q at, total-at will s.pcs i at)
  | inr (before, le) ↦
      omega (arith, Reach-will r before, le, total-set will s.pcs i q at, total-at will s.pcs i at)
]

-- The close callbacks of a `readFifo` run at most once, however `onHup`, `Close` and tasks
-- interleave, and where `onFifoRead` panics.
pub read_closes_once : {h : Bool} {n : ℕ} {s : Reading} → Reach h n s → s.fifo.closes ≤ 1
read_closes_once {s = s} r = omega (arith, Reach-holds r, num-le s.fifo.processing)

-- Once the user has closed a `readFifo` and every goroutine has ended, the close callbacks have run,
-- and once.
pub read_closes_done :
    {h : Bool} {s : Reading} (n : ℕ)
    → Reach h n s
    → s.fifo.closing ≡ user
    → s.pcs ≡ replicate n idle
    → s.fifo.closes ≡ 1
read_closes_done {s = s} n r need rest =
    let none_holds = ap (total holds) rest ∙ total-replicate holds n idle refl in
    let none_will = ap (total will) rest ∙ total-replicate will n idle refl in
    omega (arith, Reach-holds r, Reach-will r need, none_holds, none_will, num-le s.fifo.processing)
