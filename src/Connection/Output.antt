-- ===== src/Connection/Output.antt =====
-- connection_impl.go, `flush`; connection_reactor.go, `outputs`, `outputAck` and `rw2r`; and the
-- poller's write event (poll_default_linux.go), which sends what `outputs` gives.
-- `wire` is what the kernel has accepted. A `sendmsg` accepts `wrote n` of the bytes, at most all;
-- `again` is EAGAIN, and `failed` any other error.
pub mod Conserve
mod Tests
use netpoll.Base.{
  ℕ, Bool, true, false, Option, none, some, List, [], ◌++◌, ◌==◌, if◌then◌else◌, ◌>>=◌, length,
  take, pos,
}
use netpoll.LinkBuffer.State.{LinkBuffer, Outcome, ok, err, panic, is_empty}
use netpoll.LinkBuffer.Reader.{skip, release}
use netpoll.LinkBuffer.Output.{get_bytes}
use netpoll.LinkBuffer.Output.Laws.{concat}

pub data Sendmsg : Type 0 where
  wrote : ℕ → Sendmsg
  again failed : Sendmsg

-- The output side of a connection: the buffer, whether write events are monitored, whether
-- `writeTrigger` holds a message, and the bytes that have left.
pub record Sender : Type 0 where
  pub out : LinkBuffer
  pub monitored : Bool
  pub triggered : Bool
  pub wire : List ℕ

-- What `flush` comes to: all is sent, the rest is left to the poller (`waitFlush`), or an error.
pub data Flushing : Type 0 where
  all_sent waits refused : Flushing

abbrev pub barriercap : ℕ
barriercap = 32

-- How much of the slices `sendmsg` sends, at most.
abbrev pub accepted : Sendmsg → ℕ
accepted (wrote n) = n
accepted again = 0
accepted failed = 0

abbrev pub is_failed : Sendmsg → Bool
is_failed failed = true
is_failed _ = false

abbrev pub released : Bool → Outcome LinkBuffer → Option (Bool × LinkBuffer)
released skipped (ok b) = some (skipped, b)
released skipped _ = none

-- `Release` follows `Skip` whether it has failed or not.
abbrev pub skip_release : LinkBuffer → Outcome LinkBuffer → Option (Bool × LinkBuffer)
skip_release b (ok b') = released true (release b')
skip_release b (err _) = released false (release b)
skip_release b panic = none

-- `Skip(n)` and `Release()` of what has been sent, where `0 < n`; the Boolean tells whether `Skip`
-- has returned nil.
unfoldable pub drop_sent : ℕ → LinkBuffer → Option (Bool × LinkBuffer)
drop_sent n b = if n == 0 then some (true, b) else skip_release b (skip (pos n) b)

-- `rw2r`
unfoldable pub rw2r : Sender → Sender
rw2r s = record s { monitored = false; triggered = true }

-- The end of `flush`, where `Control(PollR2RW)` succeeds.
unfoldable pub settle : Sender → Flushing × Sender
settle s = if is_empty s.out then (all_sent, s) else (waits, record s { monitored = true })

-- `flush` when it has something to send
unfoldable pub flush_sent : Sendmsg → List (List ℕ) → Sender → Option (Flushing × Sender)
flush_sent failed vs s = some (refused, s)
flush_sent again vs s = some (settle s)
flush_sent (wrote n) vs s = do
  let sent = take n (concat vs)
  (skipped, out) ← drop_sent (length sent) s.out
  let s' = record s { out = out; wire = s.wire ++ sent }
  some (if skipped then settle s' else (refused, s'))

-- `flush`
unfoldable pub flush : Sendmsg → Sender → Option (Flushing × Sender)
flush result s =
    if is_empty s.out
    then some (all_sent, s)
    else (do vs ← get_bytes barriercap s.out; flush_sent result vs s)

-- `outputs`
unfoldable pub outputs : Sender → Option (List (List ℕ) × Sender)
outputs s =
    if is_empty s.out then some ([], rw2r s) else (do vs ← get_bytes barriercap s.out; some (vs, s))

-- `outputAck`
unfoldable pub output_ack : ℕ → Sender → Option Sender
output_ack n s = do
  (_, out) ← drop_sent n s.out
  some (if is_empty out then rw2r (record s { out = out }) else record s { out = out })

-- The write event of the poller: the Boolean tells whether it hangs the connection up.
unfoldable pub write_event : Sendmsg → Sender → Option (Bool × Sender)
write_event result s = do
  (vs, s1) ← outputs s
  let sent = take (accepted result) (concat vs)
  if length vs == 0 then some (false, s1) else (do
    s2 ← output_ack (length sent) (record s1 { wire = s1.wire ++ sent })
    some (is_failed result, s2))
