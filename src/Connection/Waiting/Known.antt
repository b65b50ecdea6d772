-- ===== src/Connection/Waiting/Known.antt =====
-- connection_impl.go, `waitRead`: what is known at each place of the one who waits.
use netpoll.Base.{
  ℕ, suc, ◌+◌, ◌≤◌, ◌<◌, ◌≡◌, refl, ap, ◌∙◌, ◌≢◌, ◌⊎◌, inl, inr, Bool, true, false, Option, none,
  some, [], arith, leb, leb→le, Bool-cases, length,
}
use netpoll.Connection.Protocol.{Who, nobody, user, poller}
use netpoll.Connection.Waiting.{
  Message, nil, peer_close, self_close, Result, enough, eof, conn_closed, read_timeout, Reader,
  outside, storing, looping, checking, receiving, timed, returned, Acker, idle, acked, triggering,
  Waiting, trigger_read, received, closed_by, WaitRead, calls, stores, tests_short, tests_enough,
  checks_status, receives, timer_fires, checks_again, returns, InputAck, acks, processes, goes_on,
  triggers, leaves, task_ends, Closes, hups, closes, forces, wakes,
}

-- With `onRequest` set, the one who waits is in the task.
abbrev pub InTask : Bool → Waiting → Type 0
InTask on_request s = (on_request ≡ false) ⊎ (s.processing ≡ true)

abbrev pub full : Option Message → ℕ
full none = 0
full (some _) = 1

-- Above the length that the poller is to compare with `waitReadSize`.
abbrev pub announced : Acker → ℕ
announced idle = 0
announced (acked l _) = suc l
announced (triggering l) = suc l

-- Whether the wait for `n` bytes is to go on or will be woken by the poller.
abbrev pub Short : ℕ → Waiting → Type 0
Short n s = (s.len < n) ⊎ ((0 < full s.read_trigger) ⊎ (n < announced s.acker))

-- Whether the connection is open or the one who waits will be woken by the one who closes.
abbrev pub Open : Waiting → Type 0
Open s = (s.closing ≡ nobody) ⊎ (0 < full s.read_trigger + length s.closers)

-- How `waitRead(n)` may end: with nil where there are `n` bytes, with an error of the connection
-- where it is closed, or with a timeout.
abbrev pub Outcome : ℕ → Result → ℕ → Who → Type 0
Outcome n enough len closing = n ≤ len
Outcome n eof len closing = closing ≢ nobody
Outcome n conn_closed len closing = closing ≢ nobody
Outcome n read_timeout len closing = Unit {0}

abbrev pub IsReader : Bool → Waiting → Reader → Type 0
IsReader q s outside = Unit {0}
IsReader q s (storing n) = InTask q s
IsReader q s (looping n) = (s.wait_read_size ≡ n) × InTask q s
IsReader q s (checking n) = (s.wait_read_size ≡ n) × InTask q s × Short n s
IsReader q s (receiving n) = (s.wait_read_size ≡ n) × InTask q s × Short n s × Open s
IsReader q s (timed n) = (s.wait_read_size ≡ n) × InTask q s
IsReader q s (returned n r) = InTask q s × Outcome n r s.len s.closing

-- A message other than nil comes from one who closes.
abbrev pub Honest : Option Message → Who → Type 0
Honest none w = Unit {0}
Honest (some nil) w = Unit {0}
Honest (some peer_close) w = w ≢ nobody
Honest (some self_close) w = w ≢ nobody

full-trigger_read : (m : Message) (old : Option Message) → full (trigger_read m old) ≡ 1
full-trigger_read m none = refl
full-trigger_read m (some old) = refl

-- What leaves the place of the one who waits keeps what is known there.
IsReader-map :
    (q : Bool) (s t : Waiting) (reader : Reader)
    → t.wait_read_size ≡ s.wait_read_size
    → (InTask q s → InTask q t)
    → ((n : ℕ) → s.wait_read_size ≡ n → InTask q s → Short n s → Short n t)
    → (Open s → Open t)
    → s.len ≤ t.len
    → (s.closing ≢ nobody → t.closing ≢ nobody)
    → IsReader q s reader
    → IsReader q t reader
IsReader-map q s t outside same kept short open_ le closed v = v
IsReader-map q s t (storing n) same kept short open_ le closed v = kept v
IsReader-map q s t (looping n) same kept short open_ le closed (e, v) = (same ∙ e, kept v)
IsReader-map q s t (checking n) same kept short open_ le closed (e, v, w) =
    (same ∙ e, kept v, short n e v w)
IsReader-map q s t (receiving n) same kept short open_ le closed (e, v, w, x) =
    (same ∙ e, kept v, short n e v w, open_ x)
IsReader-map q s t (timed n) same kept short open_ le closed (e, v) = (same ∙ e, kept v)
IsReader-map q s t (returned n enough) same kept short open_ le closed (v, w) =
    (kept v, omega (arith, le, w))
IsReader-map q s t (returned n eof) same kept short open_ le closed (v, w) = (kept v, closed w)
IsReader-map q s t (returned n conn_closed) same kept short open_ le closed (v, w) =
    (kept v, closed w)
IsReader-map q s t (returned n read_timeout) same kept short open_ le closed (v, w) = (kept v, w)

pub InputAck-IsReader :
    {q : Bool} {s t : Waiting} → InputAck q s t → IsReader q s s.reader → IsReader q t t.reader
InputAck-IsReader {q} {s} {t} (acks n e pos_n) v =
    let was_idle = ap announced e in
    IsReader-map q s t s.reader refl (λ h. h) (λ k same h w. ground arith) (λ h. h) (omega arith)
      (λ h. h) v
InputAck-IsReader {q} {s} {t} (processes l n e same_len wanted free) v =
    IsReader-map q s t s.reader refl (λ h. inr refl) (λ k same h w. ground arith) (λ h. h)
      (omega arith) (λ h. h) v
InputAck-IsReader {q} {s} {t} (goes_on l n e) v =
    let length_read = ap announced e in
    IsReader-map q s t s.reader refl (λ h. h) (λ k same h w. ground arith) (λ h. h) (omega arith)
      (λ h. h) v
InputAck-IsReader {q} {s} {t} (triggers l e le) v =
    let on = full-trigger_read nil s.read_trigger in
    IsReader-map q s t s.reader refl (λ h. h) (λ k same h w. inr (inl (omega (arith, on))))
      (λ h. inr (omega (arith, on))) (omega arith) (λ h. h) v
InputAck-IsReader {q} {s} {t} (leaves l e lt) v =
    let length_read = ap announced e in
    IsReader-map q s t s.reader refl (λ h. h) (λ k same h w. ground arith) (λ h. h) (omega arith)
      (λ h. h) v
InputAck-IsReader {q} {s} (task_ends e busy_) v = rw e _

pub Closes-IsReader :
    (q : Bool) {s t : Waiting}
    → Closes s t
    → (s.closers ≡ []) ⊎ (s.closing ≢ nobody)
    → IsReader q s s.reader
    → IsReader q t t.reader
Closes-IsReader q {s} {t} (hups e) c v =
    IsReader-map q s t s.reader refl (λ h. h) (λ k same h w. w) (λ h. inr (omega arith))
      (omega arith) (λ h f. cc) v
Closes-IsReader q {s} {t} (closes e) c v =
    IsReader-map q s t s.reader refl (λ h. h) (λ k same h w. w) (λ h. inr (omega arith))
      (omega arith) (λ h f. cc) v
Closes-IsReader q {s} {t} (forces e) c v =
    IsReader-map q s t s.reader refl (λ h. h) (λ k same h w. w)
      (λ h. elim h [ inl open_ ↦ absurd (e open_) | inr woken ↦ inr woken ]) (omega arith)
      (λ h f. cc) v
Closes-IsReader q {s} {t} (wakes m rest e) c v =
    let on = full-trigger_read m s.read_trigger in
    IsReader-map q s t s.reader refl (λ h. h) (λ k same h w. inr (inl (omega (arith, on))))
      (λ h. inr (omega (arith, on))) (omega arith) (λ h. h) v

closed_by-IsReader :
    (q : Bool) (t : Waiting) (n : ℕ) (w : Who)
    → t.closing ≡ w
    → (t.wait_read_size ≡ n) × InTask q t × Short n t
    → IsReader q t (closed_by n w)
closed_by-IsReader q t n nobody e (same, kept, short) = (same, kept, short, inl e)
closed_by-IsReader q t n user e (same, kept, short) = (kept, λ f. cc)
closed_by-IsReader q t n poller e (same, kept, short) = (kept, λ f. cc)

received-IsReader :
    (q : Bool) (t : Waiting) (n : ℕ) (m : Message)
    → Honest (some m) t.closing
    → (t.wait_read_size ≡ n) × InTask q t
    → IsReader q t (received n m)
received-IsReader q t n nil honest v = v
received-IsReader q t n peer_close honest (same, kept) = (kept, honest)
received-IsReader q t n self_close honest (same, kept) = (kept, honest)

pub WaitRead-IsReader :
    (q : Bool) {s t : Waiting}
    → WaitRead q s t
    → Honest s.read_trigger s.closing
    → IsReader q s s.reader
    → IsReader q t t.reader
WaitRead-IsReader q {s} (calls n e in_task) honest v = elim (Bool-cases (leb n s.len)) [
  | inl has ↦ rw has (in_task, leb→le n s.len has)
  | inr short ↦ rw short in_task
]
WaitRead-IsReader q {s} (stores n e) honest v = (refl, rw e at v)
WaitRead-IsReader q {s} (tests_short n e lt) honest v =
    let (same, kept) = rw e at v in (same, kept, inl lt)
WaitRead-IsReader q {s} (tests_enough n e le) honest v = let (same, kept) = rw e at v in (kept, le)
WaitRead-IsReader q {s} {t} (checks_status n e) honest v =
    closed_by-IsReader q t n s.closing refl (rw e at v)
WaitRead-IsReader q {s} {t} (receives n m e f) honest v =
    let (same, kept, short, open_) = rw e at v in
    received-IsReader q t n m (rw f at honest) (same, kept)
WaitRead-IsReader q {s} (timer_fires n e) honest v =
    let (same, kept, short, open_) = rw e at v in (same, kept)
WaitRead-IsReader q {s} (checks_again n e) honest v =
    let (same, kept) = rw e at v in
    elim (Bool-cases (leb n s.len)) [
      | inl has ↦ rw has (kept, leb→le n s.len has)
      | inr short ↦ rw short (kept, _)
    ]
WaitRead-IsReader q {s} (returns n result taken e) honest v = _
