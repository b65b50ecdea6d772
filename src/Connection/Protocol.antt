-- ===== src/Connection/Protocol.antt =====
-- The life of a connection as the goroutines that act on it: `onHup`, `onDisconnect` of the poller,
-- `Close` (`onClose`) of users, `closeCallback`, `onConnect`, `onRequest` and the task of
-- `onProcess` (connection_reactor.go, connection_onevent.go), over the locks of connection_lock.go.
-- A move is one atomic operation on the shared state or one call of a callback. Whether there is
-- data to be read is left open at each test of it. The callbacks return; a `Close` that a callback
-- makes is a `Close` of another goroutine. The goroutine that starts a task is the task from then
-- on, and what its caller does next is done by another one that is idle.
use netpoll.Base.{
  ℕ, zero, suc, ◌≡◌, ◌≢◌, ◌⊎◌, Bool, true, false, ◌||◌, some, List, [], ◌∷◌, get_elem?, set,
}

-- `who`
pub data Who : Type 0 where
  nobody user poller : Who

-- `connState`
pub data ConnState : Type 0 where
  fresh connected disconnected : ConnState

-- Which callbacks are set; they are set before the connection is registered.
pub record Handlers : Type 0 where
  pub on_connect : Bool
  pub on_disconnect : Bool
  pub on_request : Bool

-- The keychain without `flushing`, the state, and how often the callbacks have run.
pub record Conn : Type 0 where
  pub closing : Who
  pub connecting : Bool
  pub processing : Bool
  pub state : ConnState
  pub connects : ℕ
  pub disconnects : ℕ
  pub detaches : ℕ
  pub closes : ℕ

-- Where a goroutine stands. `closer d` is about to take the lock in `closeCallback(true, d)`, and
-- `callbacks d` is past it. `starting k` is about to take it in `onProcess`, where `k` tells
-- whether it has been given `onConnect`.
pub data Pc : Type 0 where
  idle : Pc
  hup_disconnect hup_forced hup_lock hup_change hup_run hup_unlock hup_close : Pc
  force : Pc
  closer callbacks : Bool → Pc
  starting task : Bool → Pc
  opened gone helps unlock_connecting begin loop : Pc
  decided : Who → Pc
  recheck relock data_check : Pc

-- `onConnect != nil || onRequest != nil`
abbrev pub has_handler : Handlers → Bool
has_handler h = h.on_connect || h.on_request

-- `onHup`, and what it does once `onDisconnect` has returned
pub data OnHup (h : Handlers) (c : Conn) : Pc → Conn → Pc → Type 0 where
  hup_first : c.closing ≡ nobody → OnHup h c idle (record c { closing = poller }) hup_disconnect
  hup_late : c.closing ≢ nobody → OnHup h c idle c idle
  hup_leaves : has_handler h ≡ false → OnHup h c hup_close c idle
  hup_closes : has_handler h ≡ true → OnHup h c hup_close c (closer false)

-- `onDisconnect`
pub data OnDisconnect (h : Handlers) (c : Conn) : Pc → Conn → Pc → Type 0 where
  disconnect_unset : h.on_disconnect ≡ false → OnDisconnect h c hup_disconnect c hup_close
  disconnect_forces :
      h.on_disconnect ≡ true
      → h.on_connect ≡ false
      → OnDisconnect h c hup_disconnect (record c { state = disconnected }) hup_forced
  disconnect_forced :
      OnDisconnect h c hup_forced (record c { disconnects = suc c.disconnects }) hup_close
  disconnect_early :
      h.on_disconnect ≡ true
      → h.on_connect ≡ true
      → c.state ≡ fresh
      → OnDisconnect h c hup_disconnect c hup_close
  disconnect_late :
      h.on_disconnect ≡ true
      → h.on_connect ≡ true
      → c.state ≢ fresh
      → OnDisconnect h c hup_disconnect c hup_lock
  disconnect_busy : c.connecting ≡ true → OnDisconnect h c hup_lock c hup_close
  disconnect_locks :
      c.connecting ≡ false → OnDisconnect h c hup_lock (record c { connecting = true }) hup_change
  disconnect_changes :
      c.state ≡ connected → OnDisconnect h c hup_change (record c { state = disconnected }) hup_run
  disconnect_keeps : c.state ≢ connected → OnDisconnect h c hup_change c hup_unlock
  disconnect_runs :
      OnDisconnect h c hup_run (record c { disconnects = suc c.disconnects }) hup_unlock
  disconnect_unlocks : OnDisconnect h c hup_unlock (record c { connecting = false }) hup_close

-- `onClose`, up to its call of `closeCallback`
pub data OnClose (h : Handlers) (c : Conn) : Pc → Conn → Pc → Type 0 where
  close_first : c.closing ≡ nobody → OnClose h c idle (record c { closing = user }) (closer true)
  close_late : c.closing ≢ nobody → OnClose h c idle c force
  close_forces : OnClose h c force (record c { closing = user }) (closer false)

-- `closeCallback`
pub data CloseCallback (h : Handlers) (c : Conn) : Pc → Conn → Pc → Type 0 where
  closer_busy : (d : Bool) → c.processing ≡ true → CloseCallback h c (closer d) c idle
  closer_locks :
      (d : Bool)
      → c.processing ≡ false
      → CloseCallback h c (closer d) (record c { processing = true }) (callbacks d)
  detach :
      CloseCallback h c (callbacks true) (record c { detaches = suc c.detaches }) (callbacks false)
  unregistered : CloseCallback h c (callbacks true) c (callbacks false)
  run_callbacks : CloseCallback h c (callbacks false) (record c { closes = suc c.closes }) idle

-- `onConnect`, up to its call of `onProcess`
pub data OnConnect (h : Handlers) (c : Conn) : Pc → Conn → Pc → Type 0 where
  connect_unset :
      h.on_connect ≡ false
      → c.state ≡ fresh
      → OnConnect h c idle (record c { state = connected }) idle
  connect_unset_late : h.on_connect ≡ false → c.state ≢ fresh → OnConnect h c idle c idle
  connect_locks :
      h.on_connect ≡ true
      → c.connecting ≡ false
      → OnConnect h c idle (record c { connecting = true }) (starting true)
  connect_busy : h.on_connect ≡ true → c.connecting ≡ true → OnConnect h c idle c idle

-- `onRequest`, up to its call of `onProcess`
pub data OnRequest (h : Handlers) (c : Conn) : Pc → Conn → Pc → Type 0 where
  request_unset : h.on_request ≡ false → OnRequest h c idle c idle
  request_early :
      h.on_request ≡ true → h.on_connect ≡ true → c.state ≡ fresh → OnRequest h c idle c idle
  request_starts :
      h.on_request ≡ true
      → (h.on_connect ≡ false) ⊎ (c.state ≢ fresh)
      → OnRequest h c idle c (starting false)

-- `onProcess`: the lock, and the task
pub data OnProcess (h : Handlers) (c : Conn) : Pc → Conn → Pc → Type 0 where
  process_busy : (k : Bool) → c.processing ≡ true → OnProcess h c (starting k) c idle
  process_locks :
      (k : Bool)
      → c.processing ≡ false
      → OnProcess h c (starting k) (record c { processing = true }) (task k)
  connect_runs :
      c.state ≡ fresh
      → OnProcess h c (task true) (record c { state = connected; connects = suc c.connects }) opened
  connect_passed : c.state ≢ fresh → OnProcess h c (task true) c begin
  connect_none : OnProcess h c (task false) c begin
  active : c.closing ≡ nobody → OnProcess h c opened c unlock_connecting
  inactive : c.closing ≢ nobody → OnProcess h c opened c gone
  gone_changes : c.state ≡ connected → OnProcess h c gone (record c { state = disconnected }) helps
  gone_keeps : c.state ≢ connected → OnProcess h c gone c unlock_connecting
  helps_runs :
      h.on_disconnect ≡ true
      → OnProcess h c helps (record c { disconnects = suc c.disconnects }) unlock_connecting
  helps_unset : h.on_disconnect ≡ false → OnProcess h c helps c unlock_connecting
  connecting_unlocks : OnProcess h c unlock_connecting (record c { connecting = false }) begin
  begins : OnProcess h c begin c loop
  requests : h.on_request ≡ true → c.closing ≢ user → OnProcess h c loop c loop
  breaks : OnProcess h c loop c (decided c.closing)
  by_user : OnProcess h c (decided user) c (callbacks true)
  by_poller : OnProcess h c (decided poller) c (callbacks false)
  unlocks : OnProcess h c (decided nobody) (record c { processing = false }) recheck
  closed_since : c.closing ≢ nobody → OnProcess h c recheck c relock
  open_still : c.closing ≡ nobody → OnProcess h c recheck c data_check
  relocks :
      c.processing ≡ false → OnProcess h c relock (record c { processing = true }) (callbacks false)
  relock_busy : c.processing ≡ true → OnProcess h c relock c data_check
  again :
      h.on_request ≡ true
      → c.processing ≡ false
      → OnProcess h c data_check (record c { processing = true }) begin
  exits : OnProcess h c data_check c idle

pub data Move (h : Handlers) (c : Conn) : Pc → Conn → Pc → Type 0 where
  by_hup : {p p' : Pc} {c' : Conn} → OnHup h c p c' p' → Move h c p c' p'
  by_disconnect : {p p' : Pc} {c' : Conn} → OnDisconnect h c p c' p' → Move h c p c' p'
  by_close : {p p' : Pc} {c' : Conn} → OnClose h c p c' p' → Move h c p c' p'
  by_callback : {p p' : Pc} {c' : Conn} → CloseCallback h c p c' p' → Move h c p c' p'
  by_connect : {p p' : Pc} {c' : Conn} → OnConnect h c p c' p' → Move h c p c' p'
  by_request : {p p' : Pc} {c' : Conn} → OnRequest h c p c' p' → Move h c p c' p'
  by_process : {p p' : Pc} {c' : Conn} → OnProcess h c p c' p' → Move h c p c' p'

-- A connection and its goroutines; a place in the list is free where it is `idle`.
pub record System : Type 0 where
  pub conn : Conn
  pub pcs : List Pc

pub data Step (h : Handlers) (s : System) : System → Type 0 where
  step :
      (i : ℕ) {c : Conn} {p q : Pc}
      → get_elem? s.pcs i ≡ some p
      → Move h s.conn p c q
      → Step h s (record { conn = c; pcs = set s.pcs i q })

-- A connection after `init`
abbrev pub new_conn : Conn
new_conn = record {
  closing = nobody;
  connecting = false;
  processing = false;
  state = fresh;
  connects = 0;
  disconnects = 0;
  detaches = 0;
  closes = 0;
}

abbrev pub idles : ℕ → List Pc
idles zero = []
idles (suc n) = idle ∷ idles n

pub data Reach (h : Handlers) (n : ℕ) : System → Type 0 where
  start : Reach h n (record { conn = new_conn; pcs = idles n })
  later : {s t : System} → Reach h n s → Step h s t → Reach h n t
