-- ===== src/Connection/Disconnect.antt =====
-- connection_onevent.go: how often, and in which order, `onConnect` and `onDisconnect` run.
mod Moves
use netpoll.Base.{ℕ, ◌+◌, ◌≤◌, ◌≡◌, refl, inl, inr, true, false, arith, Bool-cases, set}
use netpoll.Connection.Protocol.{Handlers, System, step, Reach, start, later}
use netpoll.Connection.Count.{total, total-set, total-idles, total-at}
use netpoll.Connection.Disconnect.Moves.{
  calls, is_disconnected, is_opened, is_disconnected-le, state_bounds, Move-calls, Move-opens,
  through, is_closed, is_closed-le, Move-through,
}

module _ {h : Handlers} {n : ℕ} where
  Reach-calls :
      {s : System}
      → h.on_connect ≡ true
      → Reach h n s
      → total calls s.pcs + s.conn.disconnects ≤ is_disconnected s.conn.state
  Reach-calls set start = omega (arith, total-idles calls n refl)
  Reach-calls set (later {s} r (step i {c} {p} {q} at m)) = omega (
    arith,
    Reach-calls set r,
    total-set calls s.pcs i q at,
    total-at calls s.pcs i at,
    Move-calls set m,
  )

  Reach-opens :
      {s : System} → h.on_connect ≡ true → Reach h n s → s.conn.connects ≡ is_opened s.conn.state
  Reach-opens set start = omega arith
  Reach-opens set (later {s} r (step i at m)) = omega (arith, Reach-opens set r, Move-opens set m)

  Reach-through :
      {s : System}
      → h.on_connect ≡ false
      → Reach h n s
      → total through s.pcs + s.conn.disconnects ≤ is_closed s.conn.closing
  Reach-through unset start = omega (arith, total-idles through n refl)
  Reach-through unset (later {s} r (step i {c} {p} {q} at m)) = omega (
    arith,
    Reach-through unset r,
    total-set through s.pcs i q at,
    total-at through s.pcs i at,
    Move-through unset m,
  )

  -- `onDisconnect` is called at most once, with any callbacks set: by `onHup`, or by the task that
  -- finds the connection closed when `onConnect` returns, never by both.
  pub disconnects_once : {s : System} → Reach h n s → s.conn.disconnects ≤ 1
  disconnects_once {s} r = elim (Bool-cases h.on_connect) [
    | inl set ↦ omega (arith, Reach-calls set r, is_disconnected-le s.conn.state)
    | inr unset ↦ omega (arith, Reach-through unset r, is_closed-le s.conn.closing)
  ]

  -- With `onConnect` set, it is called at most once, and `onDisconnect` only after it.
  pub connects_first :
      {s : System}
      → h.on_connect ≡ true
      → Reach h n s
      → (s.conn.connects ≤ 1) × (s.conn.disconnects ≤ s.conn.connects)
  connects_first {s} set r =
      let bounds = state_bounds s.conn.state in
      (
        omega (arith, Reach-opens set r, bounds.1),
        omega (arith, Reach-opens set r, Reach-calls set r, bounds.0),
      )
