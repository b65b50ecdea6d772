-- ===== src/Connection/Waiting.antt =====
-- connection_impl.go, `waitRead` and `waitReadWithTimeout`, against `inputAck`, `onHup` and `onClose`,
-- which wake it (connection_reactor.go): one goroutine that waits for bytes, the poller, and
-- goroutines that close the connection. A step is one atomic operation.
-- `len` is the length of the input buffer. Only the goroutine that waits takes bytes out of it,
-- before and after it waits. With `onRequest` set it waits in the task, which holds `processing`;
-- a timer may fire at any time.
pub mod Known
pub mod Wakeup
mod Tests
use netpoll.Base.{
  ℕ, ◌+◌, ◌-◌, ◌≤◌, ◌<◌, ◌≡◌, ◌≢◌, ◌⊎◌, Bool, true, false, Option, none, some, List, [], ◌∷◌, leb,
  if◌then◌else◌,
}
use netpoll.Connection.Protocol.{Who, nobody, user, poller}

-- What `readTrigger` carries: nil, "peer close" or "self close".
pub data Message : Type 0 where
  nil peer_close self_close : Message

-- How the wait ends.
pub data Result : Type 0 where
  enough eof conn_closed read_timeout : Result

-- The goroutine that waits: `storing n` is to store `waitReadSize`, `looping n` tests the length, `checking n` has found it short, and
-- `receiving n` has found the connection open; `timed n` has seen the timer fire.
pub data Reader : Type 0 where
  outside : Reader
  storing looping checking receiving timed : ℕ → Reader
  returned : ℕ → Result → Reader

-- The poller in `inputAck`: `acked l n` has the length `l` from `bookAck(n)`, and `triggering l` is to
-- compare it with `waitReadSize`.
pub data Acker : Type 0 where
  idle : Acker
  acked : ℕ → ℕ → Acker
  triggering : ℕ → Acker

-- A connection. `closers` are the messages of goroutines past `closeBy` and before `triggerRead`.
pub record Waiting : Type 0 where
  pub len : ℕ
  pub wait_read_size : ℕ
  pub closing : Who
  pub processing : Bool
  pub read_trigger : Option Message
  pub reader : Reader
  pub acker : Acker
  pub closers : List Message

-- `triggerRead`: a message is dropped where the channel holds one.
abbrev pub trigger_read : Message → Option Message → Option Message
trigger_read m none = some m
trigger_read m (some old) = some old

-- What a message makes of the wait.
abbrev pub received : ℕ → Message → Reader
received n nil = looping n
received n peer_close = returned n eof
received n self_close = returned n conn_closed

-- What `closing` makes of it.
abbrev pub closed_by : ℕ → Who → Reader
closed_by n nobody = receiving n
closed_by n poller = returned n eof
closed_by n user = returned n conn_closed

abbrev pub first_test : ℕ → ℕ → Waiting → Waiting
first_test n len s =
    if leb n len then record s { reader = returned n enough } else record s { reader = storing n }

-- `waitRead`. With `onRequest` set, the one who waits holds `processing`.
pub data WaitRead (on_request : Bool) (s : Waiting) : Waiting → Type 0 where
  calls :
      (n : ℕ)
      → s.reader ≡ outside
      → (on_request ≡ false) ⊎ (s.processing ≡ true)
      → WaitRead on_request s (first_test n s.len s)
  stores :
      (n : ℕ)
      → s.reader ≡ storing n
      → WaitRead on_request s (record s { wait_read_size = n; reader = looping n })
  tests_short :
      (n : ℕ)
      → s.reader ≡ looping n
      → s.len < n
      → WaitRead on_request s (record s { reader = checking n })
  tests_enough :
      (n : ℕ)
      → s.reader ≡ looping n
      → n ≤ s.len
      → WaitRead on_request s (record s { reader = returned n enough })
  checks_status :
      (n : ℕ)
      → s.reader ≡ checking n
      → WaitRead on_request s (record s { reader = closed_by n s.closing })
  receives :
      (n : ℕ) (m : Message)
      → s.reader ≡ receiving n
      → s.read_trigger ≡ some m
      → WaitRead on_request s (record s { read_trigger = none; reader = received n m })
  timer_fires :
      (n : ℕ) → s.reader ≡ receiving n → WaitRead on_request s (record s { reader = timed n })
  checks_again :
      (n : ℕ)
      → s.reader ≡ timed n
      → WaitRead on_request s
          (record s { reader = returned n (if leb n s.len then enough else read_timeout) })
  returns :
      (n : ℕ) (result : Result) (taken : ℕ)
      → s.reader ≡ returned n result
      → WaitRead on_request s
          (record s { len = s.len - taken; wait_read_size = 0; reader = outside })

-- `inputAck` of a positive number of bytes, and the end of the task that it may start. The poller
-- goes on to the test of `waitReadSize` unless it has started a task; whether `onConnect` keeps it
-- from starting one is left open.
pub data InputAck (on_request : Bool) (s : Waiting) : Waiting → Type 0 where
  acks :
      (n : ℕ)
      → s.acker ≡ idle
      → 0 < n
      → InputAck on_request s (record s { len = s.len + n; acker = acked (s.len + n) n })
  processes :
      (l n : ℕ)
      → s.acker ≡ acked l n
      → l ≡ n
      → on_request ≡ true
      → s.processing ≡ false
      → InputAck on_request s (record s { processing = true; acker = idle })
  goes_on :
      (l n : ℕ) → s.acker ≡ acked l n → InputAck on_request s (record s { acker = triggering l })
  triggers :
      (l : ℕ)
      → s.acker ≡ triggering l
      → s.wait_read_size ≤ l
      → InputAck on_request s
          (record s { read_trigger = trigger_read nil s.read_trigger; acker = idle })
  leaves :
      (l : ℕ)
      → s.acker ≡ triggering l
      → l < s.wait_read_size
      → InputAck on_request s (record s { acker = idle })
  task_ends :
      s.reader ≡ outside
      → s.processing ≡ true
      → InputAck on_request s (record s { processing = false })

-- `onHup` and `onClose`, up to their `triggerRead`
pub data Closes (s : Waiting) : Waiting → Type 0 where
  hups :
      s.closing ≡ nobody
      → Closes s (record s { closing = poller; closers = peer_close ∷ s.closers })
  closes :
      s.closing ≡ nobody → Closes s (record s { closing = user; closers = self_close ∷ s.closers })
  forces : s.closing ≢ nobody → Closes s (record s { closing = user })
  wakes :
      (m : Message) (rest : List Message)
      → s.closers ≡ m ∷ rest
      → Closes s (record s { read_trigger = trigger_read m s.read_trigger; closers = rest })

pub data Step (on_request : Bool) (s : Waiting) : Waiting → Type 0 where
  by_reader : {t : Waiting} → WaitRead on_request s t → Step on_request s t
  by_poller : {t : Waiting} → InputAck on_request s t → Step on_request s t
  by_closer : {t : Waiting} → Closes s t → Step on_request s t

abbrev pub new_waiting : Waiting
new_waiting = record {
  len = 0;
  wait_read_size = 0;
  closing = nobody;
  processing = false;
  read_trigger = none;
  reader = outside;
  acker = idle;
  closers = [];
}

pub data Reach (on_request : Bool) : Waiting → Type 0 where
  start : Reach on_request new_waiting
  later : {s t : Waiting} → Reach on_request s → Step on_request s t → Reach on_request t
