-- ===== src/LinkBuffer/Search.antt =====
-- nocopy_linkbuffer.go: `indexByte` and `Until`.
pub mod Laws
use mathlib.Core.Option
use netpoll.Base.{
  ℕ, suc, ◌+◌, ◌-◌, Option, none, some, List, [], ◌∷◌, map, leb, ◌==◌, if◌then◌else◌, ◌>>=◌, drop,
  pos,
}
use netpoll.LinkBuffer.Node.{Node, node_len, node_peek}
use netpoll.LinkBuffer.State.{LinkBuffer, Error, Outcome, ok, err, panic, no_delim, chain}
use netpoll.LinkBuffer.Reader.{next}

-- `bytes.IndexByte`
abbrev pub index_of : ℕ → List ℕ → Option ℕ
index_of c [] = none
index_of c (x ∷ xs) = if c == x then some 0 else Option.map suc (index_of c xs)

-- What the loop does with the index that it finds in a node, and without one.
abbrev found_or : ℕ → Option ℕ → Option (Option ℕ) → Option (Option ℕ)
found_or base (some i) rest = some (some (base + i))
found_or base none rest = rest

-- The loop of `indexByte`. `none` is a panic, `some none` is -1.
unfoldable pub index_nodes : ℕ → ℕ → ℕ → ℕ → List Node → Option (Option ℕ)
index_nodes c size unread_n skip_n [] = if unread_n == 0 then some none else none
index_nodes c size unread_n skip_n (nd ∷ nds) =
    let n = if leb unread_n (node_len nd) then unread_n else node_len nd in
    let rest = index_nodes c size (unread_n - n) (if leb n skip_n then skip_n - n else 0) nds in
    if unread_n == 0 then some none else if leb n skip_n then rest else (do
      q ← node_peek n nd
      found_or ((size - unread_n) + skip_n) (index_of c (drop skip_n q)) rest)

-- `indexByte`
unfoldable pub index_byte : ℕ → ℕ → LinkBuffer → Option (Option ℕ)
index_byte c skip_n b =
    if leb b.length skip_n then some none else index_nodes c b.length b.length skip_n (chain b)

next_until : Option (Option ℕ) → LinkBuffer → Outcome (List ℕ × LinkBuffer)
next_until none b = panic
next_until (some none) b = err no_delim
next_until (some (some n)) b = next (pos (n + 1)) b

-- `Until`
unfoldable pub until : ℕ → LinkBuffer → Outcome (List ℕ × LinkBuffer)
unfolding next_until
until delim b = next_until (index_byte delim 0 b) b
