-- ===== src/Connection/Until/Found.antt =====
-- connection_impl.go, `Until`: what it returns.
use netpoll.Base.{
  ℕ, suc, ◌≤◌, ◌<◌, ◌≡◌, Option, none, some, List, [], ◌∷◌, ◌++◌, length, take, drop,
}
use netpoll.LinkBuffer.State.{LinkBuffer, readable, IsReadable}
use netpoll.LinkBuffer.Search.{index_of}
use netpoll.Connection.Until.{Waited, filled, not_filled, Line, found, given_up}

-- The poller has put bytes behind those that were there, `bs`.
pub record Grows (bs : List ℕ) (b : LinkBuffer) : Type 0 where
  pub valid : IsReadable b
  pub more : List ℕ
  pub grown : readable b ≡ bs ++ more

-- What `waitRead` promises of its calls: `waitRead(n + 1)` returns with more than `n` bytes in the
-- buffer, or with an error and no more; the next call is for one byte more than there are.
abbrev pub Waits : ℕ → List ℕ → List Waited → Type 0
Waits n bs [] = Unit {0}
Waits n bs (not_filled b ∷ ws) = Grows bs b × (length (readable b) ≤ n)
Waits n bs (filled b ∷ ws) =
    Grows bs b × (n < length (readable b)) × Waits (length (readable b)) (readable b) ws

-- Some call of `waitRead` returns an error.
abbrev pub Ends : List Waited → Type 0
Ends [] = ⊥
Ends (not_filled _ ∷ ws) = Unit {0}
Ends (filled _ ∷ ws) = Ends ws

-- What `Until` returns, where `bs` has been in the buffer.
pub data Until (delim : ℕ) (bs : List ℕ) (out : Option Line) : Type 0 where
  finds :
      (i : ℕ) (more : List ℕ) (after : LinkBuffer)
      → index_of delim (bs ++ more) ≡ some i
      → out ≡ some (found (take (suc i) (bs ++ more)) after)
      → readable after ≡ drop (suc i) (bs ++ more)
      → IsReadable after
      → Until delim bs out
  gives_up :
      (more : List ℕ) (after : LinkBuffer)
      → index_of delim (bs ++ more) ≡ none
      → out ≡ some (given_up (bs ++ more) after)
      → readable after ≡ []
      → IsReadable after
      → Until delim bs out
