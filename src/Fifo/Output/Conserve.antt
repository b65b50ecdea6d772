-- ===== src/Fifo/Output/Conserve.antt =====
-- fifo_write_impl.go and fifo_reactor.go: what a `writeFifo` sends is what was in its buffer, and what
-- becomes of its registration.
use netpoll.Base.{
  ℕ, ◌≤◌, ◌<◌, ◌≡◌, refl, ◌∙◌, ◌⊎◌, inl, inr, Bool, true, false, not, some, List, [], ◌++◌, arith,
  ◌==◌, Bool-cases, length, take, length-zero,
}
use netpoll.LinkBuffer.State.{readable}
use netpoll.LinkBuffer.Output.Laws.{concat}
use netpoll.Operator.{FdOperator, inuse}
use netpoll.Poller.Control.{writable, Epoll, IsEpoll, poll_control, control}
use netpoll.Connection.Output.{
  Sendmsg, wrote, again, failed, Sender, Flushing, all_sent, waits, refused,
}
use netpoll.Connection.Output.Conserve.{IsOutput, sends, sendable}
use netpoll.Fifo.Output.{FifoSender, fifo_register, fifo_settle, fifo_sent, fifo_flush}

-- The bytes that have left and those that are to leave.
abbrev pub fifo_stream : {E : Type 0} → FifoSender E → List ℕ
fifo_stream s = s.wire ++ readable s.out

-- How `flush` may end.
abbrev pub FifoEnds : {E : Type 0} → (E → Bool) → Sendmsg → E → Flushing → FifoSender E → Type 0
FifoEnds registered result e all_sent s = readable s.out ≡ []
FifoEnds registered result e waits s = (registered s.epoll ≡ true) × (0 < length (readable s.out))
FifoEnds registered result e refused s = (result ≡ failed) ⊎ (registered e ≡ true)

inuse_lem : (op : FdOperator) → op.state ≤ 1 → inuse op ≡ some (record op { state = 1 })
unfolding inuse
inuse_lem op h = ground arith

module _ {E : Type 0} (ep : Epoll E) (registered : E → Bool) (v : IsEpoll ep registered) where
  control-writable :
      (op : FdOperator) (e : E)
      → op.state ≤ 1
      → (op' : FdOperator) × (e' : E) × (control ep writable op e
          ≡ some (not (registered e), op', e'))
        × (registered e' ≡ true)
        × (op'.state ≤ 1)
  unfolding control poll_control
  control-writable op e h = (
    record op { state = 1 },
    (ep.add writable e).1,
    rw (inuse_lem op h, v.adds writable e),
    v.added writable e,
    omega arith,
  )

  fifo_settle_lem :
      (result : Sendmsg) (s : FifoSender E)
      → IsOutput s.out
      → s.op.state ≤ 1
      → (r : Flushing) × (s' : FifoSender E) × (fifo_settle ep s ≡ some (r, s'))
        × (fifo_stream s' ≡ fifo_stream s)
        × IsOutput s'.out
        × FifoEnds registered result s.epoll r s'
  unfolding fifo_settle fifo_register
  fifo_settle_lem result s w h = elim (Bool-cases (s.out.length == 0)) [
    | inl empty ↦ (
      all_sent,
      s,
      rw empty,
      refl,
      w,
      length-zero (readable s.out) (ground (arith, w.valid.counted)),
    )
    | inr more ↦
        let (op', e', runs, on, _) = control-writable s.op s.epoll h in
        let some_left : 0 < length (readable s.out) = ground (arith, w.valid.counted) in
        elim (Bool-cases (registered s.epoll)) [
          | inl before ↦ (
            refused,
            record s { op = op'; epoll = e' },
            rw (more, runs, before),
            refl,
            w,
            inr before,
          )
          | inr fresh ↦ (
            waits,
            record s { op = op'; epoll = e' },
            rw (more, runs, fresh),
            refl,
            w,
            (on, some_left),
          )
        ]
  ]

  fifo_sent_lem :
      (result : Sendmsg) (s : FifoSender E) (vs : List (List ℕ)) (rest : List ℕ)
      → IsOutput s.out
      → s.op.state ≤ 1
      → concat vs ++ rest ≡ readable s.out
      → (r : Flushing) × (s' : FifoSender E) × (fifo_sent ep result vs s ≡ some (r, s'))
        × (fifo_stream s' ≡ fifo_stream s)
        × IsOutput s'.out
        × FifoEnds registered result s.epoll r s'
  unfolding fifo_sent
  fifo_sent_lem failed s vs rest w h e = (refused, s, refl, refl, w, inl refl)
  fifo_sent_lem again s vs rest w h e = fifo_settle_lem again s w h
  fifo_sent_lem (wrote n) s vs rest w h e =
      let base : Sender = record {
        out = s.out;
        monitored = false;
        triggered = false;
        wire = s.wire;
      } in
      let (b, drops, kept, w') = sends n base vs rest w e in
      let (r, s', settles, same, w'', ends) =
        fifo_settle_lem (wrote n) (record s { out = b; wire = s.wire ++ take n (concat vs) }) w'
          h in
      (r, s', rw drops settles, same ∙ kept, w'', ends)

  -- `flush` of a `writeFifo` loses, repeats and reorders nothing, whatever `writev` does. It returns
  -- without an error only with an empty buffer, and waits only with bytes left and the descriptor
  -- registered; it fails only where `writev` fails or the descriptor was registered before. The
  -- buffer satisfies `IsOutput`, epoll satisfies `IsEpoll`, and the poller does not hold the
  -- operator.
  pub fifo_flush-FifoEnds :
      (result : Sendmsg) (s : FifoSender E)
      → IsOutput s.out
      → s.op.state ≤ 1
      → (r : Flushing) × (s' : FifoSender E) × (fifo_flush ep result s ≡ some (r, s'))
        × (fifo_stream s' ≡ fifo_stream s)
        × IsOutput s'.out
        × FifoEnds registered result s.epoll r s'
  unfolding fifo_flush
  fifo_flush-FifoEnds result s w h = elim (Bool-cases (s.out.length == 0)) [
    | inl empty ↦ (
      all_sent,
      s,
      rw empty,
      refl,
      w,
      length-zero (readable s.out) (ground (arith, w.valid.counted)),
    )
    | inr more ↦
        let (vs, rest, gets, e) = sendable s.out w in
        let (r, s', runs, same, w', ends) = fifo_sent_lem result s vs rest w h e in
        (r, s', rw (more, gets) runs, same, w', ends)
  ]
