-- ===== src/Poller.antt =====
-- poll_default_linux.go and poll_default.go: one batch of epoll events in `handler`, with `appendHup`,
-- `detach` and `onhups`, and the loop of `Wait`.
-- An operator is known by its number; its state word is 0, 1 or 2 (fd_operator.go), and its
-- callbacks are nil or not. What the callbacks and the system calls return is data of the event.
pub mod Handled
pub mod Control
pub mod Sizes
mod Tests
use netpoll.Base.{
  ℕ, ◌+◌, ◌*◌, Bool, true, false, ◌&&◌, not, Option, none, some, List, [], ◌∷◌, ◌++◌, ltb, ◌==◌,
  if◌then◌else◌, ◌>>=◌, get_elem?, set,
}

-- Which callbacks an operator has; `wakes` is the operator of the eventfd, `p.wop`.
pub record Callbacks : Type 0 where
  pub wakes : Bool
  pub on_read : Bool
  pub inputs : Bool
  pub on_write : Bool
  pub outputs : Bool

-- An epoll event with `getOperator` and the bits of `events`.
pub record Event : Type 0 where
  pub operator : Option ℕ
  pub callbacks : Callbacks
  pub trigger_read : Bool
  pub trigger_write : Bool
  pub trigger_hup : Bool
  pub trigger_error : Bool

-- What is returned while the event is handled: `buf[0] > 0` of the eventfd; whether `Inputs` gives
-- slices, and `ioread`; the total of `readall`; whether `Recvmsg` of the error queue returns EAGAIN;
-- whether `Outputs` gives slices, and `iosend`.
pub record Answers : Type 0 where
  pub stop : Bool
  pub has_room : Bool
  pub read : ℕ
  pub read_fails : Bool
  pub left_read : ℕ
  pub no_error : Bool
  pub has_bytes : Bool
  pub send_fails : Bool

-- A poll: the state words of its operators, `p.hups`, and what it has done: the operators that have
-- been detached, and those whose `OnHup` has been called.
pub record Poll : Type 0 where
  pub states : List ℕ
  pub hups : List ℕ
  pub detached : List ℕ
  pub hung_up : List ℕ

-- `operator.done()`
unfoldable pub done : ℕ → Poll → Poll
done i p = record p { states = set p.states i 1 }

-- `appendHup`
unfoldable pub append_hup : ℕ → Poll → Poll
append_hup i p = record p {
  states = set p.states i 1;
  hups = p.hups ++ (i ∷ []);
  detached = p.detached ++ (i ∷ []);
}

-- The read event fails in `ioread`.
abbrev pub reads_badly : Event → Answers → Bool
reads_badly e a =
    e.trigger_read
    && (not e.callbacks.on_read && (e.callbacks.inputs && (a.has_room && a.read_fails)))

-- `totalRead` before the test of `triggerHup`
unfoldable pub total_read : Event → Answers → ℕ
total_read e a =
    if e.trigger_read && (not e.callbacks.on_read && (e.callbacks.inputs && a.has_room))
    then a.read
    else 0

-- `totalRead` with what `readall` adds
unfoldable pub total_left : Event → Answers → ℕ
total_left e a =
    if e.trigger_read && e.callbacks.inputs then total_read e a + a.left_read else total_read e a

abbrev pub sends_badly : Event → Answers → Bool
sends_badly e a =
    e.trigger_write
    && (not e.callbacks.on_write && (e.callbacks.outputs && (a.has_bytes && a.send_fails)))

-- The write event, and the end of the loop's body
unfoldable pub handle_write : ℕ → Event → Answers → Poll → Poll
handle_write i e a p = if sends_badly e a then append_hup i p else done i p

-- From the test of `triggerError` on
unfoldable pub handle_error : ℕ → Event → Answers → Poll → Poll
handle_error i e a p =
    if e.trigger_error
    then if a.no_error then done i p else append_hup i p
    else handle_write i e a p

-- From the test of `triggerHup` on
unfoldable pub handle_hup : ℕ → Event → Answers → Poll → Poll
handle_hup i e a p =
    if e.trigger_hup
    then if total_left e a == 0 then append_hup i p else handle_error i e a p
    else handle_error i e a p

-- An event of an operator for which `do` has succeeded, other than the eventfd's
unfoldable pub handle_read : ℕ → Event → Answers → Poll → Poll
handle_read i e a p = if reads_badly e a then append_hup i p else handle_hup i e a p

-- `onhups`
unfoldable pub onhups : Poll → Poll
onhups p = record p { hups = []; hung_up = p.hung_up ++ p.hups }

-- `operator.do()`: the operator, where it is not nil and in use.
unfoldable pub acquire : Option ℕ → Poll → Option (ℕ × Poll)
acquire none p = none
acquire (some i) p = do
  state ← get_elem? p.states i
  if state == 1 then some (i, record p { states = set p.states i 2 }) else none

-- The body of the loop; the Boolean tells whether `handler` returns true at once.
unfoldable pub handle_held : Option (ℕ × Poll) → Event → Answers → Poll → Bool × Poll
handle_held none e a p = (false, p)
handle_held (some (i, held)) e a p =
    if e.callbacks.wakes then (a.stop, done i held) else (false, handle_read i e a held)

abbrev pub handle : Event → Answers → Poll → Bool × Poll
handle e a p = handle_held (acquire e.operator p) e a p

abbrev pub unless_stopped : Bool × Poll → (Poll → Bool × Poll) → Bool × Poll
unless_stopped (true, p) rest = (true, p)
unless_stopped (false, p) rest = rest p

-- `handler`
unfoldable pub handler : List (Event × Answers) → Poll → Bool × Poll
handler [] p = (false, onhups p)
handler ((e, a) ∷ events) p = unless_stopped (handle e a p) (handler events)

-- The size of `p.events` for the next `EpollWait` of `Wait`, which last gave `n` events.
unfoldable pub next_size : ℕ → ℕ → ℕ
next_size n size = if (n == size) && ltb size (128 * 1024) then size * 2 else size

-- What `EpollWait` gives: a number of events, or an error other than EINTR.
pub data Waited : Type 0 where
  got_events : ℕ → Waited
  interrupted broken : Waited

-- The loop of `Wait` over what `EpollWait` gives and `Handler` returns: the sizes that it waits
-- with. It ends at an error or where `Handler` returns true.
unfoldable pub wait_sizes : List (Waited × Bool) → ℕ → ℕ → List ℕ
wait_sizes [] n size = []
wait_sizes ((got_events k, closed) ∷ rounds) n size =
    let rest = wait_sizes rounds k (next_size n size) in
    next_size n size ∷ (if closed && ltb 0 k then [] else rest)
wait_sizes ((interrupted, closed) ∷ rounds) n size =
    next_size n size ∷ wait_sizes rounds 0 (next_size n size)
wait_sizes ((broken, closed) ∷ rounds) n size = next_size n size ∷ []
