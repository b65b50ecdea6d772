-- ===== src/ShardQueue.antt =====
-- mux/shard_queue.go: a queue that collects the writers of many goroutines in shards, and a task
-- that appends them to one connection.
-- A getter is a value of `A`; the connection behind the queue is a value of `C` with the operations
-- of `Ops`. `none` as a result is a panic: an index out of range or a remainder by 0.
pub mod System
pub mod Ring
pub mod Shards
pub mod Invariant
pub mod Kept
pub mod Order
pub mod Index
mod Tests
use netpoll.Base.{
  ℕ, ◌+◌, ◌-◌, ◌%◌, ◌^◌, Bool, true, false, Option, none, some, List, [], ◌∷◌, ◌++◌, ltb, ◌==◌,
  if◌then◌else◌, ◌>>=◌, get_elem?, set, replicate,
}

pub data State : Type 0 where
  active closing closed : State

-- `ShardQueue` with its `queueTrigger`. `idx` is the unsigned reading of the `int32`.
pub record Queue (A : Type 0) : Type 0 where
  pub idx : ℕ
  pub size : ℕ
  pub getters : List (List A)
  pub swap : List A
  pub trigger : ℕ
  pub state : State
  pub run_num : ℕ
  pub w : ℕ
  pub r : ℕ
  pub list : List ℕ

-- What the queue calls of its connection: `Append` and `Flush` of the writer tell whether they
-- succeed, and `Close`.
pub record Ops (B C : Type 0) : Type 0 where
  pub append : B → C → Bool × C
  pub flush : C → Bool × C
  pub close : C → C

-- `NewShardQueue`
unfoldable pub new_shard_queue : {A : Type 0} → ℕ → Queue A
new_shard_queue n = record {
  idx = 0;
  size = n;
  getters = replicate n [];
  swap = [];
  trigger = 0;
  state = active;
  run_num = 0;
  w = 0;
  r = 0;
  list = replicate n 0;
}

-- `i % size` of an `int32` whose unsigned reading is `i`, as an index: a negative one panics.
unfoldable pub signed_index : ℕ → ℕ → Option ℕ
signed_index i size =
    if size == 0
    then none
    else if ltb i (2 ^ 31)
    then some (i % size)
    else if (2 ^ 32 - i) % size == 0
    then some 0
    else none

-- The shard that `Add` takes.
unfoldable pub next_shard : {A : Type 0} → Queue A → Option (ℕ × Queue A)
next_shard q = do
  let idx = (q.idx + 1) % 2 ^ 32
  shard ← signed_index idx q.size
  some (shard, record q { idx = idx })

abbrev pub is_empty : {X : Type 0} → List X → Bool
is_empty [] = true
is_empty (_ ∷ _) = false

-- What `Add` does under the lock of its shard; the Boolean is `trigger`.
unfoldable pub append_getters : {A : Type 0} → ℕ → List A → Queue A → Option (Bool × Queue A)
append_getters shard gts q = do
  old ← get_elem? q.getters shard
  some (is_empty old, record q { getters = set q.getters shard (old ++ gts) })

-- What `triggering` does under the lock of the list.
unfoldable pub list_shard : {A : Type 0} → ℕ → Queue A → Queue A
list_shard shard q = let w = (q.w + 1) % q.size in record q { w = w; list = set q.list w shard }

-- The task reads the next shard off the list.
unfoldable pub take_shard : {A : Type 0} → Queue A → Option (ℕ × Queue A)
take_shard q = do
  let r = (q.r + 1) % q.size
  shard ← get_elem? q.list r
  some (shard, record q { r = r })

-- The task takes the getters of the shard, under its lock.
unfoldable pub swap_getters : {A : Type 0} → ℕ → Queue A → Option (Queue A)
swap_getters shard q = do
  tmp ← get_elem? q.getters shard
  some (record q { getters = set q.getters shard []; swap = tmp })

module _ {A B C : Type 0} (ops : Ops B C) (get : A → Option B) where
  -- `deal`: `get` is a getter's call, and `none` its `isNil`. It leaves at the first error.
  unfoldable pub deal : List A → C → C
  deal [] c = c
  deal (gt ∷ gts) c = elim (get gt) [
    | none ↦ deal gts c
    | some buf ↦ elim (ops.append buf c).0 [
      | true ↦ deal gts (ops.append buf c).1
      | false ↦ ops.close (ops.append buf c).1
    ]
  ]

-- `flush`
unfoldable pub flush : {B C : Type 0} → Ops B C → C → C
flush ops c = let (done, c') = ops.flush c in if done then c' else ops.close c'
