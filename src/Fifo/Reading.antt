-- ===== src/Fifo/Reading.antt =====
-- The life of a `readFifo` as the goroutines that act on it: `onHup` of the poller, `Close`
-- (`onClose`) of users, `closeCallback` and the task of `onProcess` (fifo_reactor.go,
-- fifo_read_impl.go), over the locks of fifo_lock.go.
-- A move is one atomic operation on the shared state or one call of `onFifoRead`, which may panic.
-- Whether there is data to be read is left open at each test of it. The close callbacks return, and
-- the goroutine that starts a task is the task from then on.
use netpoll.Base.{ℕ, suc, ◌≡◌, ◌≢◌, Bool, true, false, some, List, get_elem?, set, replicate}
use netpoll.Connection.Protocol.{Who, nobody, user, poller}

-- `fifoClosing`, `fifoProcessing`, whether `onFifoRead` is set, and how often the operator has been
-- detached and the close callbacks have run.
pub record ReadFifo : Type 0 where
  pub closing : Who
  pub processing : Bool
  pub handler : Bool
  pub detaches : ℕ
  pub closes : ℕ

-- Where a goroutine stands. `closer d` is about to take the lock in `closeCallback(true, d)`, and
-- `callbacks d` is past it; `calling` is about to call `onClose`. A `Bool` from `begin` on is
-- whether the task has loaded an `onFifoRead`.
pub data ReadPc : Type 0 where
  idle hup calling force starting begin panicked : ReadPc
  closer callbacks first reading loop recheck relock data_check : Bool → ReadPc
  decided : Who → Bool → ReadPc

-- `onHup`, `SetOnFifoRead` and `onClose`
pub data OnReadClose (f : ReadFifo) : ReadPc → ReadFifo → ReadPc → Type 0 where
  sets_handler : OnReadClose f idle (record f { handler = true }) idle
  hup_first : f.closing ≡ nobody → OnReadClose f idle (record f { closing = poller }) hup
  hup_late : f.closing ≢ nobody → OnReadClose f idle f idle
  hup_leaves : f.handler ≡ false → OnReadClose f hup f idle
  hup_closes : f.handler ≡ true → OnReadClose f hup f (closer false)
  calls_close : OnReadClose f idle f calling
  close_first :
      f.closing ≡ nobody → OnReadClose f calling (record f { closing = user }) (closer true)
  close_late : f.closing ≢ nobody → OnReadClose f calling f force
  close_forces : OnReadClose f force (record f { closing = user }) (closer false)

-- `closeCallback`
pub data ReadCallback (f : ReadFifo) : ReadPc → ReadFifo → ReadPc → Type 0 where
  closer_busy : (d : Bool) → f.processing ≡ true → ReadCallback f (closer d) f idle
  closer_locks :
      (d : Bool)
      → f.processing ≡ false
      → ReadCallback f (closer d) (record f { processing = true }) (callbacks d)
  detach :
      ReadCallback f (callbacks true) (record f { detaches = suc f.detaches }) (callbacks false)
  unregistered : ReadCallback f (callbacks true) f (callbacks false)
  run_callbacks : ReadCallback f (callbacks false) (record f { closes = suc f.closes }) idle

-- `onProcess`: the lock, and the task
pub data ReadTask (f : ReadFifo) : ReadPc → ReadFifo → ReadPc → Type 0 where
  processes : ReadTask f idle f starting
  process_busy : f.processing ≡ true → ReadTask f starting f idle
  process_locks : f.processing ≡ false → ReadTask f starting (record f { processing = true }) begin
  loads : ReadTask f begin f (first f.handler)
  reads_first : ReadTask f (first true) f (reading true)
  has_none : (h : Bool) → ReadTask f (first h) f (loop h)
  returns : (h : Bool) → ReadTask f (reading h) f (loop h)
  panics : (h : Bool) → ReadTask f (reading h) f panicked
  reads : f.closing ≢ user → ReadTask f (loop true) f (reading true)
  breaks : (h : Bool) → ReadTask f (loop h) f (decided f.closing h)
  by_user : (h : Bool) → ReadTask f (decided user h) f (callbacks true)
  by_poller : (h : Bool) → ReadTask f (decided poller h) f (callbacks false)
  unlocks : (h : Bool) → ReadTask f (decided nobody h) (record f { processing = false }) (recheck h)
  closed_since : (h : Bool) → f.closing ≢ nobody → ReadTask f (recheck h) f (relock h)
  open_still : (h : Bool) → f.closing ≡ nobody → ReadTask f (recheck h) f (data_check h)
  relocks :
      (h : Bool)
      → f.processing ≡ false
      → ReadTask f (relock h) (record f { processing = true }) (callbacks false)
  relock_busy : (h : Bool) → f.processing ≡ true → ReadTask f (relock h) f (data_check h)
  again : f.processing ≡ false → ReadTask f (data_check true) (record f { processing = true }) begin
  exits : (h : Bool) → ReadTask f (data_check h) f idle
  recovers : ReadTask f panicked (record f { processing = false }) calling

pub data ReadMove (f : ReadFifo) : ReadPc → ReadFifo → ReadPc → Type 0 where
  by_close : {p p' : ReadPc} {f' : ReadFifo} → OnReadClose f p f' p' → ReadMove f p f' p'
  by_callback : {p p' : ReadPc} {f' : ReadFifo} → ReadCallback f p f' p' → ReadMove f p f' p'
  by_task : {p p' : ReadPc} {f' : ReadFifo} → ReadTask f p f' p' → ReadMove f p f' p'

-- A pipe and its goroutines; a place in the list is free where it is `idle`.
pub record Reading : Type 0 where
  pub fifo : ReadFifo
  pub pcs : List ReadPc

pub data Step (s : Reading) : Reading → Type 0 where
  step :
      (i : ℕ) {f : ReadFifo} {p q : ReadPc}
      → get_elem? s.pcs i ≡ some p
      → ReadMove s.fifo p f q
      → Step s (record { fifo = f; pcs = set s.pcs i q })

-- A pipe after `init`, where `onFifoRead` is set or not.
abbrev pub new_read_fifo : Bool → ReadFifo
new_read_fifo h = record {
  closing = nobody;
  processing = false;
  handler = h;
  detaches = 0;
  closes = 0;
}

pub data Reach (h : Bool) (n : ℕ) : Reading → Type 0 where
  start : Reach h n (record { fifo = new_read_fifo h; pcs = replicate n idle })
  later : {s t : Reading} → Reach h n s → Step s t → Reach h n t
