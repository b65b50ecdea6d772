-- ===== src/Connection/Until.antt =====
-- connection_impl.go, `Until`: a search over an input buffer that grows while it waits.
-- What each call of `waitRead` comes to is data: whether it returns an error, and the input buffer
-- then. With no call left, the last one has not returned, and `none` is the result.
pub mod Found
mod Tests
use netpoll.Base.{ℕ, ◌+◌, Option, none, some, List, [], ◌∷◌, leb, if◌then◌else◌, ◌>>=◌, pos}
use netpoll.LinkBuffer.State.{LinkBuffer, Outcome, ok, err, panic}
use netpoll.LinkBuffer.Reader.{next}
use netpoll.LinkBuffer.Search.{index_byte}

pub data Waited : Type 0 where
  filled not_filled : LinkBuffer → Waited

-- `line` and `err`: without an error of `waitRead`, and with one.
pub data Line : Type 0 where
  found given_up : List ℕ → LinkBuffer → Line

abbrev pub to_line : (List ℕ → LinkBuffer → Line) → Outcome (List ℕ × LinkBuffer) → Option Line
to_line line (ok (bs, b)) = some (line bs b)
to_line line (err _) = none
to_line line panic = none

-- `c.Next(i + 1)`, whose `waitRead` returns at once; else the loop goes on.
unfoldable pub line_at : Option ℕ → LinkBuffer → Option Line → Option Line
line_at none b rest = rest
line_at (some i) b rest =
    if leb (i + 1) b.length then to_line found (next (pos (i + 1)) b) else none

-- The loop of `Until`, which has searched the first `n` bytes.
unfoldable pub conn_until : ℕ → ℕ → List Waited → Option Line
unfolding line_at
conn_until delim n [] = none
conn_until delim n (not_filled b ∷ ws) = to_line given_up (next (pos b.length) b)
conn_until delim n (filled b ∷ ws) =
    let rest = conn_until delim b.length ws in (do i ← index_byte delim n b; line_at i b rest)
