-- ===== src/Fifo/Tests.antt =====
-- A `readFifo` whose `onFifoRead` panics while a user closes it, and a `writeFifo` that is written
-- to and closed.
use netpoll.Base.{ℕ, ◌≤◌, ◌≡◌, refl, ◌⊎◌, Bool, true, false, [], ◌∷◌}
use netpoll.Connection.Protocol.{user}
use netpoll.Connection.Count.{total}
use netpoll.Fifo.Reading
use netpoll.Fifo.Writing
use netpoll.Fifo.ReadClosing.{read_closes_done}
use netpoll.Fifo.WriteClosing.{writers, write_closes_once}

abbrev panicked_closed : Reading.Reading
panicked_closed = record {
  fifo = record { closing = user; processing = true; handler = true; detaches = 0; closes = 1 };
  pcs = Reading.idle ∷ Reading.idle ∷ [];
}

infixl 5 ◌then◌
abbrev ◌then◌ :
    {h : Bool} {n : ℕ} {s t : Reading.Reading}
    → Reading.Reach h n s
    → Reading.Step s t
    → Reading.Reach h n t
r then m = Reading.later r m

-- The second goroutine closes the pipe while the first is in `onFifoRead`; it finds the lock taken.
panicked_closed-Reach : Reading.Reach true 2 panicked_closed
panicked_closed-Reach =
    Reading.start
    then Reading.step 0 refl (Reading.by_task Reading.processes)
    then Reading.step 0 refl (Reading.by_task (Reading.process_locks refl))
    then Reading.step 0 refl (Reading.by_task Reading.loads)
    then Reading.step 0 refl (Reading.by_task Reading.reads_first)
    then Reading.step 1 refl (Reading.by_close Reading.calls_close)
    then Reading.step 1 refl (Reading.by_close (Reading.close_first refl))
    then Reading.step 1 refl (Reading.by_callback (Reading.closer_busy true refl))
    then Reading.step 0 refl (Reading.by_task (Reading.panics true))
    then Reading.step 0 refl (Reading.by_task Reading.recovers)
    then Reading.step 0 refl (Reading.by_close (Reading.close_late (λ e. cc)))
    then Reading.step 0 refl (Reading.by_close Reading.close_forces)
    then Reading.step 0 refl (Reading.by_callback (Reading.closer_locks false refl))
    then Reading.step 0 refl (Reading.by_callback Reading.run_callbacks)

read_closes_done_example : panicked_closed.fifo.closes ≡ 1
read_closes_done_example = read_closes_done 2 panicked_closed-Reach refl refl

abbrev written_closed : Writing.Writing
written_closed = record {
  fifo = record {
    closing = user;
    processing = true;
    flushing = Writing.stopped;
    detaches = 1;
    writes = 1;
    closes = 1;
  };
  pcs = Writing.idle ∷ Writing.idle ∷ [];
}

infixl 5 ◌and◌
abbrev ◌and◌ :
    {n : ℕ} {s t : Writing.Writing} → Writing.Reach n s → Writing.Step s t → Writing.Reach n t
r and m = Writing.later r m

-- The closer waits in `stop` for the writer.
written_closed-Reach : Writing.Reach 2 written_closed
written_closed-Reach =
    Writing.start
    and Writing.step 0 refl (Writing.by_flush (Writing.flush_locks refl))
    and Writing.step 1 refl (Writing.by_close Writing.calls_close)
    and Writing.step 1 refl (Writing.by_close (Writing.close_first refl))
    and Writing.step 1 refl (Writing.by_callback (Writing.closer_locks true refl))
    and Writing.step 1 refl (Writing.by_callback Writing.detach)
    and Writing.step 1 refl (Writing.by_callback Writing.runs_callback)
    and Writing.step 1 refl (Writing.by_callback (Writing.stop_waits refl))
    and Writing.step 0 refl (Writing.by_flush Writing.writes_some)
    and Writing.step 0 refl (Writing.by_flush Writing.flush_unlocks)
    and Writing.step 1 refl (Writing.by_callback (Writing.stops refl))
    and Writing.step 1 refl (Writing.by_callback Writing.closes_it)

write_closes_once_example :
    (written_closed.fifo.closes ≤ 1)
    × ((written_closed.fifo.closes ≡ 0) ⊎ (total writers written_closed.pcs ≡ 0))
write_closes_once_example = write_closes_once written_closed-Reach
