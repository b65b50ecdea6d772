-- ===== src/Connection/Flushing.antt =====
-- connection_impl.go, `Flush`, `Write` and `waitFlush`, against the poller's write event (`outputs`,
-- `outputAck`, `rw2r`), `onHup` and `onClose` (connection_reactor.go): one goroutine that flushes, the
-- poller, and goroutines that close the connection. A step is one atomic operation.
-- `left` is the length of the output buffer. The goroutine that flushes holds the lock `flushing`;
-- others are refused and are left out. `Control` succeeds.
pub mod Invariant
pub mod Sent
mod Tests
use netpoll.Base.{ℕ, zero, suc, ◌+◌, ◌-◌, ◌≡◌, ◌≢◌, Bool, true, false, Option, none, some}
use netpoll.Connection.Protocol.{Who, nobody, user, poller}

-- What `writeTrigger` carries: nil or a closed connection.
pub data Message : Type 0 where
  nil conn_closed : Message

-- How `Flush` ends.
pub data Result : Type 0 where
  sent refused failed write_timeout : Result

-- The goroutine that flushes: `sending` is to call `sendmsg`, `registering` to turn the write events
-- on, `receiving` is in `waitFlush`, and `timed` has seen its timer fire.
pub data Flusher : Type 0 where
  outside sending registering receiving timed : Flusher
  returned : Result → Flusher

-- The poller in a write event: `started` is to call `outputs`, `acked` has dropped what was sent,
-- `detaching` and `triggering` are in `rw2r`.
pub data Poller : Type 0 where
  idle started acked detaching triggering : Poller

-- A connection. `hups` counts the calls of `OnHup` that are to come, and `closers` the goroutines past
-- `closeBy` and before `triggerWrite`.
pub record Flushing : Type 0 where
  pub left : ℕ
  pub monitored : Bool
  pub closing : Who
  pub write_trigger : Option Message
  pub flusher : Flusher
  pub acker : Poller
  pub hups : ℕ
  pub closers : ℕ

-- `triggerWrite`: a message is dropped where the channel holds one.
abbrev pub trigger_write : Message → Option Message → Option Message
trigger_write m none = some m
trigger_write m (some old) = some old

-- What a message makes of the wait.
abbrev pub result_of : Message → Result
result_of nil = sent
result_of conn_closed = refused

-- `flush` after `sendmsg`
abbrev pub after_send : ℕ → Flusher
after_send zero = returned sent
after_send (suc n) = registering

-- `outputs` and `outputAck`, by whether the buffer is empty
abbrev pub if_empty : ℕ → Poller → Poller
if_empty zero other = detaching
if_empty (suc n) other = other

-- `Flush` or `Write`; `timeouts` tells whether `writeTimeout` is set.
pub data Flush (timeouts : Bool) (s : Flushing) : Flushing → Type 0 where
  refuses :
      s.flusher ≡ outside
      → s.closing ≢ nobody
      → Flush timeouts s (record s { flusher = returned refused })
  begins :
      (n : ℕ)
      → s.flusher ≡ outside
      → s.closing ≡ nobody
      → Flush timeouts s (record s { left = s.left + n; flusher = sending })
  sends :
      (n : ℕ)
      → s.flusher ≡ sending
      → Flush timeouts s (record s { left = s.left - n; flusher = after_send (s.left - n) })
  fails : s.flusher ≡ sending → Flush timeouts s (record s { flusher = returned failed })
  registers :
      s.flusher ≡ registering
      → Flush timeouts s (record s { monitored = true; flusher = receiving })
  receives :
      (m : Message)
      → s.flusher ≡ receiving
      → s.write_trigger ≡ some m
      → Flush timeouts s (record s { write_trigger = none; flusher = returned (result_of m) })
  timer_fires :
      timeouts ≡ true → s.flusher ≡ receiving → Flush timeouts s (record s { flusher = timed })
  fetches :
      (m : Message)
      → s.flusher ≡ timed
      → s.write_trigger ≡ some m
      → Flush timeouts s (record s { write_trigger = none; flusher = returned (result_of m) })
  gives_up :
      s.flusher ≡ timed
      → s.write_trigger ≡ none
      → Flush timeouts s (record s { monitored = false; flusher = returned write_timeout })
  returns :
      (r : Result) → s.flusher ≡ returned r → Flush timeouts s (record s { flusher = outside })

-- The write event of the poller
pub data WriteEvent (s : Flushing) : Flushing → Type 0 where
  fires :
      s.acker ≡ idle
      → s.monitored ≡ true
      → WriteEvent s (record s { acker = if_empty s.left started })
  acks : (n : ℕ) → s.acker ≡ started → WriteEvent s (record s { left = s.left - n; acker = acked })
  breaks :
      s.acker ≡ started
      → WriteEvent s (record s { monitored = false; acker = idle; hups = suc s.hups })
  ends : s.acker ≡ acked → WriteEvent s (record s { acker = if_empty s.left idle })
  detaches : s.acker ≡ detaching → WriteEvent s (record s { monitored = false; acker = triggering })
  triggers :
      s.acker ≡ triggering
      → WriteEvent s (record s { write_trigger = trigger_write nil s.write_trigger; acker = idle })

-- `onHup` and `onClose`, up to their `triggerWrite`
pub data OnClosing (s : Flushing) : Flushing → Type 0 where
  hangs_up : OnClosing s (record s { hups = suc s.hups })
  hups_first :
      {n : ℕ}
      → s.hups ≡ suc n
      → s.closing ≡ nobody
      → OnClosing s (record s { closing = poller; hups = n; closers = suc s.closers })
  hups_late : {n : ℕ} → s.hups ≡ suc n → s.closing ≢ nobody → OnClosing s (record s { hups = n })
  closes_first :
      s.closing ≡ nobody → OnClosing s (record s { closing = user; closers = suc s.closers })
  closes_late : s.closing ≢ nobody → OnClosing s (record s { closing = user })
  wakes :
      {n : ℕ}
      → s.closers ≡ suc n
      → OnClosing s
          (record s { write_trigger = trigger_write conn_closed s.write_trigger; closers = n })

pub data Step (timeouts : Bool) (s : Flushing) : Flushing → Type 0 where
  by_flusher : {t : Flushing} → Flush timeouts s t → Step timeouts s t
  by_poller : {t : Flushing} → WriteEvent s t → Step timeouts s t
  by_closer : {t : Flushing} → OnClosing s t → Step timeouts s t

abbrev pub new_flushing : Flushing
new_flushing = record {
  left = 0;
  monitored = false;
  closing = nobody;
  write_trigger = none;
  flusher = outside;
  acker = idle;
  hups = 0;
  closers = 0;
}

pub data Reach (timeouts : Bool) : Flushing → Type 0 where
  start : Reach timeouts new_flushing
  later : {s t : Flushing} → Reach timeouts s → Step timeouts s t → Reach timeouts t
