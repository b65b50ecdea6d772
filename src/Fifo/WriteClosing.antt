-- ===== src/Fifo/WriteClosing.antt =====
-- fifo_reactor.go, fifo_write_impl.go: a `writeFifo` is closed once, and not while it is written to.
use netpoll.Base.{ℕ, ◌+◌, ◌≤◌, ◌≡◌, refl, ap, ◌∙◌, ◌⊎◌, inl, inr, arith}
use netpoll.Connection.Count.{num, total, total-set, total-replicate, num-le, total-at}
use netpoll.Fifo.Writing.{
  Flushing, free, locked, stopped, WriteFifo, WritePc, idle, stopping, stopped_it, writing,
  callbacks, flush_locks, flush_refused, writes_some, flush_unlocks, hup_first, hup_late,
  hup_closes, calls_close, close_first, close_late, close_forces, closer_busy, closer_locks, detach,
  unregistered, runs_callback, stop_waits, stops, stopped_before, closes_it, WriteMove, by_flush,
  by_close, by_callback, Writing, step, Reach, start, later,
}

-- The goroutines that hold `fifoProcessing`.
abbrev holds : WritePc → ℕ
holds (callbacks _) = 1
holds stopping = 1
holds stopped_it = 1
holds _ = 0

-- Those that are past the lock of `Flush` and `Write`.
abbrev pub writers : WritePc → ℕ
writers writing = 1
writers _ = 0

-- Those that close the descriptor and the buffer.
abbrev closers : WritePc → ℕ
closers stopped_it = 1
closers _ = 0

abbrev is_locked : Flushing → ℕ
is_locked locked = 1
is_locked _ = 0

WriteMove-holds :
    {f f' : WriteFifo} {p p' : WritePc}
    → WriteMove f p f' p'
    → (holds p' + f'.closes) + num f.processing ≡ (holds p + f.closes) + num f'.processing
WriteMove-holds {f = f} (by_flush (flush_locks e)) = omega arith
WriteMove-holds {f = f} (by_flush (flush_refused e)) = omega arith
WriteMove-holds {f = f} (by_flush writes_some) = omega arith
WriteMove-holds {f = f} (by_flush flush_unlocks) = omega arith
WriteMove-holds {f = f} (by_close (hup_first e)) = omega arith
WriteMove-holds {f = f} (by_close (hup_late e)) = omega arith
WriteMove-holds {f = f} (by_close hup_closes) = omega arith
WriteMove-holds {f = f} (by_close calls_close) = omega arith
WriteMove-holds {f = f} (by_close (close_first e)) = omega arith
WriteMove-holds {f = f} (by_close (close_late e)) = omega arith
WriteMove-holds {f = f} (by_close close_forces) = omega arith
WriteMove-holds {f = f} (by_callback (closer_busy d e)) = omega arith
WriteMove-holds {f = f} (by_callback (closer_locks d e)) = rw e (omega arith)
WriteMove-holds {f = f} (by_callback detach) = omega arith
WriteMove-holds {f = f} (by_callback unregistered) = omega arith
WriteMove-holds {f = f} (by_callback runs_callback) = omega arith
WriteMove-holds {f = f} (by_callback (stop_waits e)) = omega arith
WriteMove-holds {f = f} (by_callback (stops e)) = omega arith
WriteMove-holds {f = f} (by_callback (stopped_before e)) = omega arith
WriteMove-holds {f = f} (by_callback closes_it) = omega arith

is_locked-le : (f : Flushing) → is_locked f ≤ 1
is_locked-le free = omega arith
is_locked-le locked = omega arith
is_locked-le stopped = omega arith

WriteMove-writers :
    {f f' : WriteFifo} {p p' : WritePc}
    → writers p ≤ is_locked f.flushing
    → WriteMove f p f' p'
    → writers p' + is_locked f.flushing ≡ writers p + is_locked f'.flushing
WriteMove-writers {f = f} le (by_flush (flush_locks e)) = rw e (omega arith)
WriteMove-writers {f = f} le (by_flush (flush_refused e)) = omega arith
WriteMove-writers {f = f} le (by_flush writes_some) = omega arith
WriteMove-writers {f = f} le (by_flush flush_unlocks) = omega (arith, le, is_locked-le f.flushing)
WriteMove-writers {f = f} le (by_close (hup_first e)) = omega arith
WriteMove-writers {f = f} le (by_close (hup_late e)) = omega arith
WriteMove-writers {f = f} le (by_close hup_closes) = omega arith
WriteMove-writers {f = f} le (by_close calls_close) = omega arith
WriteMove-writers {f = f} le (by_close (close_first e)) = omega arith
WriteMove-writers {f = f} le (by_close (close_late e)) = omega arith
WriteMove-writers {f = f} le (by_close close_forces) = omega arith
WriteMove-writers {f = f} le (by_callback (closer_busy d e)) = omega arith
WriteMove-writers {f = f} le (by_callback (closer_locks d e)) = omega arith
WriteMove-writers {f = f} le (by_callback detach) = omega arith
WriteMove-writers {f = f} le (by_callback unregistered) = omega arith
WriteMove-writers {f = f} le (by_callback runs_callback) = omega arith
WriteMove-writers {f = f} le (by_callback (stop_waits e)) = omega arith
WriteMove-writers {f = f} le (by_callback (stops e)) = rw e (omega arith)
WriteMove-writers {f = f} le (by_callback (stopped_before e)) = omega arith
WriteMove-writers {f = f} le (by_callback closes_it) = omega arith

-- What is closed, or about to be, is so only while `fifoFlushing` is stopped.
WriteMove-closers :
    {f f' : WriteFifo} {p p' : WritePc}
    → WriteMove f p f' p'
    → (closers p' + f'.closes ≤ closers p + f.closes) ⊎ (f'.flushing ≡ stopped)
WriteMove-closers {f = f} (by_flush (flush_locks e)) = inl (omega arith)
WriteMove-closers {f = f} (by_flush (flush_refused e)) = inl (omega arith)
WriteMove-closers {f = f} (by_flush writes_some) = inl (omega arith)
WriteMove-closers {f = f} (by_flush flush_unlocks) = inl (omega arith)
WriteMove-closers {f = f} (by_close (hup_first e)) = inl (omega arith)
WriteMove-closers {f = f} (by_close (hup_late e)) = inl (omega arith)
WriteMove-closers {f = f} (by_close hup_closes) = inl (omega arith)
WriteMove-closers {f = f} (by_close calls_close) = inl (omega arith)
WriteMove-closers {f = f} (by_close (close_first e)) = inl (omega arith)
WriteMove-closers {f = f} (by_close (close_late e)) = inl (omega arith)
WriteMove-closers {f = f} (by_close close_forces) = inl (omega arith)
WriteMove-closers {f = f} (by_callback (closer_busy d e)) = inl (omega arith)
WriteMove-closers {f = f} (by_callback (closer_locks d e)) = inl (omega arith)
WriteMove-closers {f = f} (by_callback detach) = inl (omega arith)
WriteMove-closers {f = f} (by_callback unregistered) = inl (omega arith)
WriteMove-closers {f = f} (by_callback runs_callback) = inl (omega arith)
WriteMove-closers {f = f} (by_callback (stop_waits e)) = inl (omega arith)
WriteMove-closers {f = f} (by_callback (stops e)) = inr refl
WriteMove-closers {f = f} (by_callback (stopped_before e)) = inr e
WriteMove-closers {f = f} (by_callback closes_it) = inl (omega arith)

WriteMove-stopped :
    {f f' : WriteFifo} {p p' : WritePc}
    → writers p ≤ is_locked f.flushing
    → WriteMove f p f' p'
    → f.flushing ≡ stopped
    → f'.flushing ≡ stopped
WriteMove-stopped {f = f} le (by_flush (flush_locks e)) stop = cc
WriteMove-stopped {f = f} le (by_flush (flush_refused e)) stop = stop
WriteMove-stopped {f = f} le (by_flush writes_some) stop = stop
WriteMove-stopped {f = f} le (by_flush flush_unlocks) stop =
    let no_one = rw stop at le in absurd (omega arith)
WriteMove-stopped {f = f} le (by_close (hup_first e)) stop = stop
WriteMove-stopped {f = f} le (by_close (hup_late e)) stop = stop
WriteMove-stopped {f = f} le (by_close hup_closes) stop = stop
WriteMove-stopped {f = f} le (by_close calls_close) stop = stop
WriteMove-stopped {f = f} le (by_close (close_first e)) stop = stop
WriteMove-stopped {f = f} le (by_close (close_late e)) stop = stop
WriteMove-stopped {f = f} le (by_close close_forces) stop = stop
WriteMove-stopped {f = f} le (by_callback (closer_busy d e)) stop = stop
WriteMove-stopped {f = f} le (by_callback (closer_locks d e)) stop = stop
WriteMove-stopped {f = f} le (by_callback detach) stop = stop
WriteMove-stopped {f = f} le (by_callback unregistered) stop = stop
WriteMove-stopped {f = f} le (by_callback runs_callback) stop = stop
WriteMove-stopped {f = f} le (by_callback (stop_waits e)) stop = stop
WriteMove-stopped {f = f} le (by_callback (stops e)) stop = refl
WriteMove-stopped {f = f} le (by_callback (stopped_before e)) stop = stop
WriteMove-stopped {f = f} le (by_callback closes_it) stop = stop

Reach-holds :
    {n : ℕ} {s : Writing} → Reach n s → total holds s.pcs + s.fifo.closes ≡ num s.fifo.processing
Reach-holds {n} start = omega (arith, total-replicate holds n idle refl)
Reach-holds (later {s} r (step i {f} {p} {q} at m)) =
    omega (arith, Reach-holds r, total-set holds s.pcs i q at, WriteMove-holds m)

Reach-writers : {n : ℕ} {s : Writing} → Reach n s → total writers s.pcs ≡ is_locked s.fifo.flushing
Reach-writers {n} start = total-replicate writers n idle refl
Reach-writers (later {s} r (step i {f} {p} {q} at m)) =
    let before = Reach-writers r in
    let here = total-at writers s.pcs i at in
    omega (
      arith,
      before,
      total-set writers s.pcs i q at,
      WriteMove-writers (omega (arith, before, here)) m,
    )

Reach-stopped :
    {n : ℕ} {s : Writing}
    → Reach n s
    → (total closers s.pcs + s.fifo.closes ≡ 0) ⊎ (s.fifo.flushing ≡ stopped)
Reach-stopped {n} start = inl (omega (arith, total-replicate closers n idle refl))
Reach-stopped (later {s} r (step i {f} {p} {q} at m)) =
    let le : writers p ≤ is_locked s.fifo.flushing =
      omega (arith, Reach-writers r, total-at writers s.pcs i at) in
    elim (Reach-stopped r) [
      | inr stop ↦ inr (WriteMove-stopped le m stop)
      | inl none_closed ↦ elim (WriteMove-closers m) [
        | inr stop ↦ inr stop
        | inl fewer ↦ inl (
            omega (
              arith,
              none_closed,
              fewer,
              total-set closers s.pcs i q at,
              total-at closers s.pcs i at,
            ))
      ]
    ]

-- The descriptor and the buffer of a `writeFifo` are closed at most once, and once they are, no
-- goroutine is between the lock and the unlock of `Flush` or `Write`, however `onHup`, `Close`,
-- `Flush` and `Write` interleave.
pub write_closes_once :
    {n : ℕ} {s : Writing}
    → Reach n s
    → (s.fifo.closes ≤ 1) × ((s.fifo.closes ≡ 0) ⊎ (total writers s.pcs ≡ 0))
write_closes_once {s = s} r = (
  omega (arith, Reach-holds r, num-le s.fifo.processing),
  elim (Reach-stopped r) [
    | inl none_closed ↦ inl (omega (arith, none_closed))
    | inr stop ↦ inr (Reach-writers r ∙ ap is_locked stop)
  ],
)
