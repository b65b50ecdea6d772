-- ===== src/Connection/Flushing/Invariant.antt =====
-- connection_impl.go, `waitFlush`: what holds while no timeout is set.
use netpoll.Base.{ℕ, ◌+◌, ◌≤◌, ◌<◌, ◌≡◌, refl, ◌≢◌, ◌⊎◌, false, Option, none, some, arith}
use netpoll.Connection.Protocol.{Who, nobody, user, poller}
use netpoll.Connection.Count.{num}
use netpoll.Connection.Flushing.{
  Message, nil, conn_closed, sent, Flusher, sending, registering, receiving, timed, returned,
  Poller, idle, detaching, triggering, Flushing, Flush, refuses, begins, sends, fails, registers,
  receives, timer_fires, fetches, gives_up, returns, WriteEvent, fires, acks, breaks, ends,
  detaches, triggers, OnClosing, hangs_up, hups_first, hups_late, closes_first, closes_late, wakes,
}

abbrev pub waits : Flusher → ℕ
waits receiving = 1
waits _ = 0

-- Past the test of `closing`, and not yet woken
abbrev pub inside : Flusher → ℕ
inside sending = 1
inside registering = 1
inside receiving = 1
inside _ = 0

abbrev pub full : Option Message → ℕ
full none = 0
full (some _) = 1

abbrev pub is_nil : Option Message → ℕ
is_nil (some nil) = 1
is_nil (some conn_closed) = 0
is_nil none = 0

abbrev pub closed : Who → ℕ
closed nobody = 0
closed user = 1
closed poller = 1

abbrev pub active : Poller → ℕ
active idle = 0
active _ = 1

-- The poller in `rw2r`
abbrev pub ending : Poller → ℕ
ending detaching = 1
ending triggering = 1
ending _ = 0

abbrev pub is_triggering : Poller → ℕ
is_triggering triggering = 1
is_triggering _ = 0

abbrev pub IsFlusher : Flusher → ℕ → Type 0
IsFlusher registering left = 0 < left
IsFlusher (returned sent) left = left ≡ 0
IsFlusher timed left = ⊥
IsFlusher _ left = Unit {0}

-- The one who flushes waits for the poller, or has left a connection that is closed.
abbrev pub Away : Flushing → Type 0
Away s = (waits s.flusher ≡ 1) ⊎ ((closed s.closing ≡ 1) × (inside s.flusher ≡ 0))

pub record IsFlushing (s : Flushing) : Type 0 where
  pub flusher : IsFlusher s.flusher s.left
  pub nil_done : (is_nil s.write_trigger ≡ 0) ⊎ (s.left ≡ 0)
  pub nil_waited : (is_nil s.write_trigger ≡ 0) ⊎ Away s
  pub nil_last :
      (is_nil s.write_trigger ≡ 0)
      ⊎ (((active s.acker ≡ 0) × (num s.monitored ≡ 0))
          ⊎ ((closed s.closing ≡ 1) × (inside s.flusher ≡ 0)))
  pub triggering_last :
      (is_triggering s.acker ≡ 0)
      ⊎ ((num s.monitored ≡ 0) ⊎ ((closed s.closing ≡ 1) × (inside s.flusher ≡ 0)))
  pub ended : (ending s.acker ≡ 0) ⊎ (s.left ≡ 0)
  pub active_waited : (active s.acker ≡ 0) ⊎ Away s
  pub monitored_waited : (num s.monitored ≡ 0) ⊎ Away s
  pub honest : full s.write_trigger ≤ is_nil s.write_trigger + closed s.closing
  pub closing : (s.closers ≡ 0) ⊎ (closed s.closing ≡ 1)
  pub awake :
      (waits s.flusher ≡ 0)
      ⊎ (0 < full s.write_trigger + (num s.monitored + (ending s.acker + (s.hups + s.closers))))
  pub closed_awake :
      (inside s.flusher ≡ 0) ⊎ ((closed s.closing ≡ 0) ⊎ (0 < full s.write_trigger + s.closers))
  pub left_some :
      (waits s.flusher ≡ 0) ⊎ ((num s.monitored ≡ 0) ⊎ ((0 < active s.acker) ⊎ (0 < s.left)))

closed_lem : (w : Who) → w ≢ nobody → closed w ≡ 1
closed_lem nobody c = absurd (c refl)
closed_lem user c = refl
closed_lem poller c = refl

pub Flush-IsFlushing : {s t : Flushing} → IsFlushing s → Flush false s t → IsFlushing t
Flush-IsFlushing {s} v (refuses e c) = let w = rw e at v in ground arith
Flush-IsFlushing {s} v (begins n e o) = let w = rw (e, o) at v in ground arith
Flush-IsFlushing {s} v (sends n e) = let w = rw e at v in ground arith
Flush-IsFlushing {s} v (fails e) = let w = rw e at v in ground arith
Flush-IsFlushing {s} v (registers e) = let w = rw e at v in ground arith
Flush-IsFlushing {s} v (receives nil e f) = let w = rw (e, f) at v in ground arith
Flush-IsFlushing {s} v (receives conn_closed e f) = let w = rw (e, f) at v in ground arith
Flush-IsFlushing {s} v (timer_fires b e) = cc
Flush-IsFlushing {s} v (fetches m e f) = let w = rw e at v in absurd w.flusher
Flush-IsFlushing {s} v (gives_up e f) = let w = rw e at v in absurd w.flusher
Flush-IsFlushing {s} v (returns r e) = let w = rw e at v in ground arith

pub WriteEvent-IsFlushing : {s t : Flushing} → IsFlushing s → WriteEvent s t → IsFlushing t
WriteEvent-IsFlushing {s} v (fires e o) = let w = rw (e, o) at v in ground arith
WriteEvent-IsFlushing {s} v (acks n e) = let w = rw e at v in ground arith
WriteEvent-IsFlushing {s} v (breaks e) = let w = rw e at v in ground arith
WriteEvent-IsFlushing {s} v (ends e) = let w = rw e at v in ground arith
WriteEvent-IsFlushing {s} v (detaches e) = let w = rw e at v in ground arith
WriteEvent-IsFlushing {s} v (triggers e) = let w = rw e at v in ground arith

pub OnClosing-IsFlushing : {s t : Flushing} → IsFlushing s → OnClosing s t → IsFlushing t
OnClosing-IsFlushing {s} v hangs_up = ground arith
OnClosing-IsFlushing {s} v (hups_first e o) = let w = rw (e, o) at v in ground arith
OnClosing-IsFlushing {s} v (hups_late e c) =
    let is_closed = closed_lem s.closing c in let w = rw e at v in ground arith
OnClosing-IsFlushing {s} v (closes_first o) = let w = rw o at v in ground arith
OnClosing-IsFlushing {s} v (closes_late c) = let is_closed = closed_lem s.closing c in ground arith
OnClosing-IsFlushing {s} v (wakes e) = let w = rw e at v in ground arith
