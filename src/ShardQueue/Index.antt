-- ===== src/ShardQueue/Index.antt =====
-- mux/shard_queue.go: the shard that `Add` takes, by an `int32` that wraps around.
use netpoll.Base.{ℕ, ◌+◌, ◌-◌, ◌%◌, ◌^◌, ◌≤◌, ◌<◌, ◌≡◌, ◌≢◌, Option, none, some}
use netpoll.ShardQueue.{Queue}

-- What `Add` gets for a shard.
pub data Shard {A : Type 0} (q : Queue A) : Option (ℕ × Queue A) → Type 0 where
  in_turn :
      (shard : ℕ) {result : Option (ℕ × Queue A)}
      → q.idx + 1 < 2 ^ 31
      → shard ≡ (q.idx + 1) % q.size
      → shard < q.size
      → result ≡ some (shard, record q { idx = q.idx + 1 })
      → Shard q result
  panics :
      {result : Option (ℕ × Queue A)}
      → 2 ^ 31 ≤ q.idx + 1
      → (2 ^ 32 - (q.idx + 1)) % q.size ≢ 0
      → result ≡ none
      → Shard q result
  first :
      {result : Option (ℕ × Queue A)}
      → 2 ^ 31 ≤ q.idx + 1
      → (2 ^ 32 - (q.idx + 1)) % q.size ≡ 0
      → result ≡ some (0, record q { idx = (q.idx + 1) % 2 ^ 32 })
      → Shard q result
