-- ===== src/Fifo/Output/Ack.antt =====
-- fifo_reactor.go: `outputAck` and `detachWrite` of a `writeFifo`.
use netpoll.Base.{
  ℕ, ◌+◌, ◌<◌, ◌≡◌, refl, ◌⊎◌, inl, inr, true, false, some, List, [], ◌++◌, arith, ltb, ◌==◌,
  Bool-cases, length, take, length-zero,
}
use netpoll.LinkBuffer.State.{readable}
use netpoll.LinkBuffer.Output.Laws.{concat}
use netpoll.Operator.{FdOperator}
use netpoll.Poller.Control.{Epoll, poll_control, control}
use netpoll.Connection.Output.{Sender}
use netpoll.Connection.Output.Conserve.{IsOutput, sends}
use netpoll.Fifo.Output.{FifoSender, detach_write, fifo_output_ack}
use netpoll.Fifo.Output.Conserve.{fifo_stream}

module _ {E : Type 0} (ep : Epoll E) where
  detach_write_lem :
      (s : FifoSender E)
      → (s' : FifoSender E) × (detach_write ep s ≡ some s')
        × (s'.out ≡ s.out)
        × (s'.wire ≡ s.wire)
        × (s'.triggered ≡ true)
  unfolding detach_write control poll_control
  detach_write_lem s =
      let op : FdOperator = record s.op { detached = s.op.detached + 1 } in
      elim (Bool-cases (ltb 1 (s.op.detached + 1))) [
        | inl again_ ↦ (record s { op = op; triggered = true }, rw again_, refl, refl, refl)
        | inr first ↦ (
          record s { op = op; epoll = (ep.delete s.epoll).1; triggered = true },
          rw first,
          refl,
          refl,
          refl,
        )
      ]

  -- `outputAck` of what `writev` took of the slices that `outputs` gave: nothing is lost, and with the
  -- last byte the one who flushes is woken.
  pub fifo_output_ack_lem :
      (n : ℕ) (s : FifoSender E) (vs : List (List ℕ)) (rest : List ℕ)
      → IsOutput s.out
      → concat vs ++ rest ≡ readable s.out
      → (s' : FifoSender E) × (fifo_output_ack ep
            (length (take n (concat vs)))
            (record s { wire = s.wire ++ take n (concat vs) })
          ≡ some s')
        × (fifo_stream s' ≡ fifo_stream s)
        × IsOutput s'.out
        × ((readable s'.out ≡ []) × (s'.triggered ≡ true)
            ⊎ (0 < length (readable s'.out)) × (s'.epoll ≡ s.epoll))
  unfolding fifo_output_ack
  fifo_output_ack_lem n s vs rest w e =
      let base : Sender = record {
        out = s.out;
        monitored = false;
        triggered = false;
        wire = s.wire;
      } in
      let (b, drops, kept, w') = sends n base vs rest w e in
      let sent : FifoSender E = record s { out = b; wire = s.wire ++ take n (concat vs) } in
      elim (Bool-cases (b.length == 0)) [
        | inl empty ↦
            let (s', runs, same_out, same_wire, woken) = detach_write_lem sent in
            let nothing : readable b ≡ [] =
              length-zero (readable b) (ground (arith, w'.valid.counted)) in
            (
              s',
              rw (drops, empty) runs,
              rw (same_wire, same_out) kept,
              rw same_out w',
              inl (rw same_out nothing, woken),
            )
        | inr more ↦
            (sent, rw (drops, more), kept, w', inr (ground (arith, w'.valid.counted), refl))
      ]
