-- ===== src/Fifo/Writing.antt =====
-- The life of a `writeFifo` as the goroutines that act on it: `Flush` and `Write`, `onHup` of the
-- poller, `Close` (`onClose`) of users and `closeCallback` with the callback of `initFinalizer`
-- (fifo_reactor.go, fifo_write_impl.go), over the locks of fifo_lock.go.
-- A move is one atomic operation on the shared state; what a goroutine does with the output buffer
-- and the descriptor between two of them is a move of its own. Callbacks return.
use netpoll.Base.{ℕ, suc, ◌≡◌, ◌≢◌, Bool, true, false, some, List, get_elem?, set, replicate}
use netpoll.Connection.Protocol.{Who, nobody, user, poller}

-- `fifoFlushing`: 0, 1 and 2 of the keychain
pub data Flushing : Type 0 where
  free locked stopped : Flushing

pub record WriteFifo : Type 0 where
  pub closing : Who
  pub processing : Bool
  pub flushing : Flushing
  pub detaches : ℕ
  pub writes : ℕ
  pub closes : ℕ

-- Where a goroutine stands. `closer d` is about to take the lock in `closeCallback(true, d)`, and
-- `callbacks d` is past it; `stopping` is in the loop of `stop`, and `stopped_it` past it, about to
-- free the operator and to close the descriptor and the buffer. `writing` is in `Flush` or `Write`,
-- past the lock.
pub data WritePc : Type 0 where
  idle hup calling force stopping stopped_it writing : WritePc
  closer callbacks : Bool → WritePc

-- `Flush` and `Write`, between their lock and their unlock
pub data OnFlush (f : WriteFifo) : WritePc → WriteFifo → WritePc → Type 0 where
  flush_locks : f.flushing ≡ free → OnFlush f idle (record f { flushing = locked }) writing
  flush_refused : f.flushing ≢ free → OnFlush f idle f idle
  writes_some : OnFlush f writing (record f { writes = suc f.writes }) writing
  flush_unlocks : OnFlush f writing (record f { flushing = free }) idle

-- `onHup` and `onClose`
pub data OnWriteClose (f : WriteFifo) : WritePc → WriteFifo → WritePc → Type 0 where
  hup_first : f.closing ≡ nobody → OnWriteClose f idle (record f { closing = poller }) hup
  hup_late : f.closing ≢ nobody → OnWriteClose f idle f idle
  hup_closes : OnWriteClose f hup f (closer false)
  calls_close : OnWriteClose f idle f calling
  close_first :
      f.closing ≡ nobody → OnWriteClose f calling (record f { closing = user }) (closer true)
  close_late : f.closing ≢ nobody → OnWriteClose f calling f force
  close_forces : OnWriteClose f force (record f { closing = user }) (closer false)

-- `closeCallback`, and `stop` in the callback that it runs
pub data WriteCallback (f : WriteFifo) : WritePc → WriteFifo → WritePc → Type 0 where
  closer_busy : (d : Bool) → f.processing ≡ true → WriteCallback f (closer d) f idle
  closer_locks :
      (d : Bool)
      → f.processing ≡ false
      → WriteCallback f (closer d) (record f { processing = true }) (callbacks d)
  detach :
      WriteCallback f (callbacks true) (record f { detaches = suc f.detaches }) (callbacks false)
  unregistered : WriteCallback f (callbacks true) f (callbacks false)
  runs_callback : WriteCallback f (callbacks false) f stopping
  stop_waits : f.flushing ≡ locked → WriteCallback f stopping f stopping
  stops : f.flushing ≡ free → WriteCallback f stopping (record f { flushing = stopped }) stopped_it
  stopped_before : f.flushing ≡ stopped → WriteCallback f stopping f stopped_it
  closes_it : WriteCallback f stopped_it (record f { closes = suc f.closes }) idle

pub data WriteMove (f : WriteFifo) : WritePc → WriteFifo → WritePc → Type 0 where
  by_flush : {p p' : WritePc} {f' : WriteFifo} → OnFlush f p f' p' → WriteMove f p f' p'
  by_close : {p p' : WritePc} {f' : WriteFifo} → OnWriteClose f p f' p' → WriteMove f p f' p'
  by_callback : {p p' : WritePc} {f' : WriteFifo} → WriteCallback f p f' p' → WriteMove f p f' p'

-- A pipe and its goroutines; a place in the list is free where it is `idle`.
pub record Writing : Type 0 where
  pub fifo : WriteFifo
  pub pcs : List WritePc

pub data Step (s : Writing) : Writing → Type 0 where
  step :
      (i : ℕ) {f : WriteFifo} {p q : WritePc}
      → get_elem? s.pcs i ≡ some p
      → WriteMove s.fifo p f q
      → Step s (record { fifo = f; pcs = set s.pcs i q })

-- A pipe after `init`
abbrev pub new_write_fifo : WriteFifo
new_write_fifo = record {
  closing = nobody;
  processing = false;
  flushing = free;
  detaches = 0;
  writes = 0;
  closes = 0;
}

pub data Reach (n : ℕ) : Writing → Type 0 where
  start : Reach n (record { fifo = new_write_fifo; pcs = replicate n idle })
  later : {s t : Writing} → Reach n s → Step s t → Reach n t
