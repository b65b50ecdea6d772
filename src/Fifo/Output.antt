-- ===== src/Fifo/Output.antt =====
-- fifo_write_impl.go, `flush`; fifo_reactor.go, `outputs`, `outputAck` and `detachWrite` of a
-- `writeFifo`, on its LinkBuffer, its operator and epoll.
-- `wire` is what the kernel has accepted; `writev` has the outcomes of `sendmsg`.
pub mod Conserve
pub mod Ack
mod Tests
use netpoll.Base.{ℕ, Bool, true, Option, some, List, [], ◌++◌, if◌then◌else◌, ◌>>=◌, length, take}
use netpoll.LinkBuffer.State.{LinkBuffer, is_empty}
use netpoll.LinkBuffer.Output.{get_bytes}
use netpoll.LinkBuffer.Output.Laws.{concat}
use netpoll.Operator.{FdOperator}
use netpoll.Poller.Control.{writable, detach, Epoll, control}
use netpoll.Connection.Output.{
  Sendmsg, wrote, again, failed, Flushing, all_sent, waits, refused, barriercap, drop_sent,
}

pub record FifoSender (E : Type 0) : Type 0 where
  pub out : LinkBuffer
  pub op : FdOperator
  pub epoll : E
  pub triggered : Bool
  pub wire : List ℕ

module _ {E : Type 0} (ep : Epoll E) where
  -- `detachWrite`, which does not look at the result of `Control`
  unfoldable pub detach_write : FifoSender E → Option (FifoSender E)
  detach_write s = do
    (_, op, e) ← control ep detach s.op s.epoll
    some (record s { op = op; epoll = e; triggered = true })

  -- The end of `flush`, from `Control(PollWritable)` on where bytes are left
  unfoldable pub fifo_register : FifoSender E → Option (Flushing × FifoSender E)
  fifo_register s = do
    (done, op, e) ← control ep writable s.op s.epoll
    some ((if done then waits else refused), record s { op = op; epoll = e })

  unfoldable pub fifo_settle : FifoSender E → Option (Flushing × FifoSender E)
  fifo_settle s = if is_empty s.out then some (all_sent, s) else fifo_register s

  -- `flush` when it has something to send
  unfoldable pub fifo_sent :
      Sendmsg → List (List ℕ) → FifoSender E → Option (Flushing × FifoSender E)
  fifo_sent failed vs s = some (refused, s)
  fifo_sent again vs s = fifo_settle s
  fifo_sent (wrote n) vs s = do
    let sent = take n (concat vs)
    (skipped, out) ← drop_sent (length sent) s.out
    let s' = record s { out = out; wire = s.wire ++ sent }
    if skipped then fifo_settle s' else some (refused, s')

  -- `flush`
  unfoldable pub fifo_flush : Sendmsg → FifoSender E → Option (Flushing × FifoSender E)
  fifo_flush result s =
      if is_empty s.out
      then some (all_sent, s)
      else (do vs ← get_bytes barriercap s.out; fifo_sent result vs s)

  -- `outputs`
  unfoldable pub fifo_outputs : FifoSender E → Option (List (List ℕ) × FifoSender E)
  fifo_outputs s =
      if is_empty s.out
      then (do s' ← detach_write s; some ([], s'))
      else (do vs ← get_bytes barriercap s.out; some (vs, s))

  -- `outputAck`
  unfoldable pub fifo_output_ack : ℕ → FifoSender E → Option (FifoSender E)
  fifo_output_ack n s = do
    (_, out) ← drop_sent n s.out
    if is_empty out then detach_write (record s { out = out }) else some (record s { out = out })
