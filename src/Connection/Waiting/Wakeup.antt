-- ===== src/Connection/Waiting/Wakeup.antt =====
-- connection_impl.go, `waitRead`: no wake-up is lost, and the wait ends as it should.
use netpoll.Base.{ℕ, ◌≡◌, refl, ◌≢◌, ◌⊎◌, inl, inr, Bool, Option, none, some, [], leb, Bool-cases}
use netpoll.Connection.Protocol.{Who, nobody, user, poller}
use netpoll.Connection.Waiting.{
  Message, nil, peer_close, self_close, Result, returned, Waiting, trigger_read, first_test,
  WaitRead, calls, stores, tests_short, tests_enough, checks_status, receives, timer_fires,
  checks_again, returns, InputAck, acks, processes, goes_on, triggers, leaves, task_ends, Closes,
  hups, closes, forces, wakes, by_reader, by_poller, by_closer, Reach, start, later,
}
use netpoll.Connection.Waiting.Known.{
  Outcome, IsReader, Honest, InputAck-IsReader, Closes-IsReader, WaitRead-IsReader,
}

first_test_keeps :
    (n : ℕ) (s : Waiting)
    → ((first_test n s.len s).read_trigger ≡ s.read_trigger)
      × ((first_test n s.len s).closing ≡ s.closing)
      × ((first_test n s.len s).closers ≡ s.closers)
first_test_keeps n s = elim (Bool-cases (leb n s.len)) [
  | inl has ↦ rw has (refl, refl, refl)
  | inr short ↦ rw short (refl, refl, refl)
]

Honest-closed : (o : Option Message) (w w' : Who) → w' ≢ nobody → Honest o w → Honest o w'
Honest-closed none w w' c h = h
Honest-closed (some nil) w w' c h = h
Honest-closed (some peer_close) w w' c h = c
Honest-closed (some self_close) w w' c h = c

Honest-nil : (o : Option Message) (w : Who) → Honest o w → Honest (trigger_read nil o) w
Honest-nil none w h = _
Honest-nil (some m) w h = h

Honest-message :
    (m : Message) (o : Option Message) (w : Who)
    → w ≢ nobody
    → Honest o w
    → Honest (trigger_read m o) w
Honest-message nil none w c h = _
Honest-message peer_close none w c h = c
Honest-message self_close none w c h = c
Honest-message m (some old) w c h = h

-- What is known of the messages.
abbrev IsHonest : Waiting → Type 0
IsHonest s = Honest s.read_trigger s.closing × ((s.closers ≡ []) ⊎ (s.closing ≢ nobody))

WaitRead-IsHonest : (q : Bool) {s t : Waiting} → WaitRead q s t → IsHonest s → IsHonest t
WaitRead-IsHonest q {s} (calls n e in_task) v =
    let (same_trigger, same_closing, same_closers) = first_test_keeps n s in
    rw (same_trigger, same_closing, same_closers) v
WaitRead-IsHonest q (stores n e) v = v
WaitRead-IsHonest q (tests_short n e lt) v = v
WaitRead-IsHonest q (tests_enough n e le) v = v
WaitRead-IsHonest q (checks_status n e) v = v
WaitRead-IsHonest q (receives n m e f) (honest, closing) = (_, closing)
WaitRead-IsHonest q (timer_fires n e) v = v
WaitRead-IsHonest q (checks_again n e) v = v
WaitRead-IsHonest q (returns n result taken e) v = v

InputAck-IsHonest : (q : Bool) {s t : Waiting} → InputAck q s t → IsHonest s → IsHonest t
InputAck-IsHonest q (acks n e pos_n) v = v
InputAck-IsHonest q (processes l n e same_len wanted free) v = v
InputAck-IsHonest q (goes_on l n e) v = v
InputAck-IsHonest q {s} (triggers l e le) (honest, closing) =
    (Honest-nil s.read_trigger s.closing honest, closing)
InputAck-IsHonest q (leaves l e lt) v = v
InputAck-IsHonest q (task_ends e busy_) v = v

Closes-IsHonest : {s t : Waiting} → Closes s t → IsHonest s → IsHonest t
Closes-IsHonest {s} (hups e) (honest, closing) =
    (Honest-closed s.read_trigger s.closing poller (λ f. cc) honest, inr (λ f. cc))
Closes-IsHonest {s} (closes e) (honest, closing) =
    (Honest-closed s.read_trigger s.closing user (λ f. cc) honest, inr (λ f. cc))
Closes-IsHonest {s} (forces e) (honest, closing) =
    (Honest-closed s.read_trigger s.closing user (λ f. cc) honest, inr (λ f. cc))
Closes-IsHonest {s} (wakes m rest e) (honest, inl none_left) = cc
Closes-IsHonest {s} (wakes m rest e) (honest, inr closed) =
    (Honest-message m s.read_trigger s.closing closed honest, inr closed)

Reach-known : {q : Bool} {s : Waiting} → Reach q s → IsReader q s s.reader × IsHonest s
Reach-known start = (_, (_, inl refl))
Reach-known {q} (later r (by_reader m)) =
    let (reading, honest) = Reach-known r in
    (WaitRead-IsReader q m honest.0 reading, WaitRead-IsHonest q m honest)
Reach-known {q} (later r (by_poller m)) =
    let (reading, honest) = Reach-known r in
    (InputAck-IsReader m reading, InputAck-IsHonest q m honest)
Reach-known {q} (later r (by_closer m)) =
    let (reading, honest) = Reach-known r in
    (Closes-IsReader q m honest.1 reading, Closes-IsHonest m honest)

-- `waitRead(n)` returns nil only with `n` bytes in the buffer, and an error other than the timeout
-- only where the connection is closed.
pub wait_read-Outcome :
    {on_request : Bool} {s : Waiting} (n : ℕ) (result : Result)
    → Reach on_request s
    → s.reader ≡ returned n result
    → Outcome n result s.len s.closing
wait_read-Outcome n result r e = (rw e at (Reach-known r).0).1
