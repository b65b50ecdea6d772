-- ===== src/Operator.antt =====
-- fd_operator.go and fd_operator_cache.go: the operators of file descriptors, and the cache that a
-- poller takes them from and gives them back to.
-- An operator is known by its `index`, which is its position in `cache`; nil is `none`. Each
-- operation of the cache runs under its spin locks, so it is one step. `per_block` is
-- `block4k / opSize`, and `none` as a result is a wait that does not end before another goroutine
-- acts, or an index out of range.
pub mod Ownership
pub mod Cycle
mod Tests
use netpoll.Base.{
  ℕ, zero, suc, Bool, true, false, Option, none, some, List, [], ◌∷◌, ◌++◌, ◌==◌, if◌then◌else◌,
  ◌>>=◌, length, get_elem?, set,
}

-- The fields that the cache and the locks of an operator go by, and `FD` for those that `reset` sets.
pub record FdOperator : Type 0 where
  pub fd : ℕ
  pub detached : ℕ
  pub next : Option ℕ
  pub state : ℕ

pub record OperatorCache : Type 0 where
  pub first : Option ℕ
  pub cache : List FdOperator
  pub freelist : List ℕ

-- `do`, `done`, `inuse` and `unused`: 0 is unused, 1 in use, 2 being worked on.
unfoldable pub do_op : FdOperator → Bool × FdOperator
do_op op = if op.state == 1 then (true, record op { state = 2 }) else (false, op)

unfoldable pub done : FdOperator → FdOperator
done op = record op { state = 1 }

unfoldable pub inuse : FdOperator → Option FdOperator
inuse op =
    if op.state == 0
    then some (record op { state = 1 })
    else if op.state == 1
    then some op
    else none

unfoldable pub unused : FdOperator → Option FdOperator
unused op =
    if op.state == 1
    then some (record op { state = 0 })
    else if op.state == 0
    then some op
    else none

-- `reset`
unfoldable pub reset : FdOperator → FdOperator
reset op = record op { fd = 0; detached = 0 }

-- `newOperatorCache`
unfoldable pub new_operator_cache : OperatorCache
new_operator_cache = record { first = none; cache = []; freelist = [] }

-- One round of the loop of `alloc`.
unfoldable pub add_op : OperatorCache → OperatorCache
add_op c = record c {
  first = some (length c.cache);
  cache = c.cache ++ (record { fd = 0; detached = 0; next = c.first; state = 0 } ∷ []);
}

unfoldable pub add_ops : ℕ → OperatorCache → OperatorCache
add_ops zero c = c
add_ops (suc n) c = add_ops n (add_op c)

-- How many operators a refill adds: `n`, at least one.
abbrev pub refill : ℕ → ℕ
refill per_block = if per_block == 0 then 1 else per_block

-- What `alloc` does with the head of the chain.
unfoldable pub pop : OperatorCache → Option (ℕ × OperatorCache)
pop c = do i ← c.first; op ← get_elem? c.cache i; some (i, record c { first = op.next })

-- The refill of `alloc`, where the chain is empty.
unfoldable pub refilled : Option ℕ → ℕ → OperatorCache → OperatorCache
refilled none per_block c = add_ops (refill per_block) c
refilled (some _) per_block c = c

-- `alloc`
unfoldable pub alloc : ℕ → OperatorCache → Option (ℕ × OperatorCache)
alloc per_block c = pop (refilled c.first per_block c)

-- `freeable`
unfoldable pub freeable : ℕ → OperatorCache → Option OperatorCache
freeable i c = do
  op ← get_elem? c.cache i
  op' ← unused op
  some (record c { cache = set c.cache i (reset op'); freelist = c.freelist ++ (i ∷ []) })

-- The loop of `free`: an index out of range panics.
unfoldable pub push_all : List ℕ → OperatorCache → Option OperatorCache
push_all [] c = some c
push_all (i ∷ is) c = do
  op ← get_elem? c.cache i
  push_all is (record c { first = some i; cache = set c.cache i (record op { next = c.first }) })

-- `free`
unfoldable pub free : OperatorCache → Option OperatorCache
free c = do c' ← push_all c.freelist c; some (record c' { freelist = [] })
