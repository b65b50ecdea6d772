-- ===== src/PollManager.antt =====
-- poll_manager.go and poll_loadbalance.go: the pollers, and which one gets a connection.
-- A poll is a number. `open_poll k` is the `k`-th call of `openPoll`, which may fail, and `intn` is
-- `fastrand.Intn`. One goroutine at a time; a poll's `Close` is recorded in `closed`. `none` as a
-- result is a panic: an index out of range, a negative length, a remainder by 0 or a nil `balance`.

pub mod Run
pub mod Pick
mod Tests
use netpoll.Base.{
  ℕ, zero, suc, ◌+◌, ◌-◌, ◌%◌, ◌^◌, Bool, true, false, Option, none, some, List, [], ◌∷◌, ◌++◌, ltb,
  ◌==◌, if◌then◌else◌, ◌>>=◌, length, get_elem?, take, drop, ℤ, pos, negsuc,
}

pub data LoadBalance : Type 0 where
  round_robin random : LoadBalance

-- `roundRobinLB` and `randomLB`, of which the second does not use `accepted`.
pub record Balance : Type 0 where
  pub kind : LoadBalance
  pub polls : List ℕ
  pub accepted : ℕ
  pub poll_size : ℕ

pub data Status : Type 0 where
  uninitialized initializing initialized : Status

pub record Manager : Type 0 where
  pub num_loops : ℤ
  pub status : Status
  pub balance : Option Balance
  pub polls : List ℕ
  pub opened : ℕ
  pub closed : List ℕ

-- `int32(n)` of a positive `n`
unfoldable pub int32 : ℕ → ℤ
int32 n = let w = n % 2 ^ 32 in if ltb w (2 ^ 31) then pos w else negsuc (2 ^ 32 - w - 1)

-- `newLoadbalance`
unfoldable pub new_loadbalance : LoadBalance → List ℕ → Balance
new_loadbalance kind polls = record {
  kind = kind;
  polls = polls;
  accepted = 0;
  poll_size = length polls;
}

-- `Rebalance`
unfoldable pub rebalance : List ℕ → Balance → Balance
rebalance polls b = record b { polls = polls; poll_size = length polls }

-- `int(accepted) % pollSize`: from `2 ^ 63` on the `int` is negative, and so is its remainder
-- unless it is 0.
unfoldable pub round_robin_index : ℕ → ℕ → Option ℕ
round_robin_index accepted size =
    if size == 0
    then none
    else if ltb accepted (2 ^ 63)
    then some (accepted % size)
    else if (2 ^ 64 - accepted) % size == 0
    then some 0
    else none

abbrev pub same_kind : LoadBalance → LoadBalance → Bool
same_kind round_robin round_robin = true
same_kind random random = true
same_kind _ _ = false

-- `SetNumLoops`; the Boolean tells whether it was accepted.
unfoldable pub set_num_loops : ℤ → Manager → Bool × Manager
set_num_loops (negsuc _) m = (false, m)
set_num_loops (pos n) m =
    if ltb n 1 then (false, m) else (true, record m { num_loops = int32 n; status = uninitialized })

set_balance : LoadBalance → Option Balance → Manager → Manager
set_balance lb none m = record m { balance = some (new_loadbalance lb m.polls) }
set_balance lb (some b) m =
    if same_kind b.kind lb then m else record m { balance = some (new_loadbalance lb m.polls) }

-- `SetLoadBalance`
unfoldable pub set_load_balance : LoadBalance → Manager → Manager
unfolding set_balance
set_load_balance lb m = set_balance lb m.balance m

-- `Close`
unfoldable pub close : Manager → Manager
close m = record m { num_loops = pos 0; balance = none; polls = []; closed = m.closed ++ m.polls }

-- `newManager`
unfoldable pub new_manager : ℤ → Manager
new_manager num_loops =
    (set_num_loops num_loops (
      set_load_balance round_robin (record {
        num_loops = pos 0;
        status = uninitialized;
        balance = none;
        polls = [];
        opened = 0;
        closed = [];
      }))).1

module _ (open_poll : ℕ → Option ℕ) where
  -- The loop that opens `k` polls from call `at` on; `none` is its early return.
  unfoldable pub open_polls : ℕ → ℕ → Option (List ℕ)
  open_polls zero at = some []
  open_polls (suc k) at = do poll ← open_poll at; polls ← open_polls k (at + 1); some (poll ∷ polls)

  -- How many calls that loop makes.
  unfoldable pub open_calls : ℕ → ℕ → ℕ
  open_calls zero at = 0
  open_calls (suc k) at = elim (open_poll at) [ none ↦ 1 | some _ ↦ suc (open_calls k (at + 1)) ]

  -- The end of `Run`
  unfoldable pub use_polls : List ℕ → Manager → Option (Bool × Manager)
  use_polls polls m = do
    b ← m.balance
    some (true, record m { polls = polls; balance = some (rebalance polls b) })

  -- `Run` once its polls are opened, or not: then the deferred `Close` closes what `polls` holds.
  unfoldable pub grow : Option (List ℕ) → Manager → Option (Bool × Manager)
  grow none m = some (false, close m)
  grow (some new) m = use_polls (m.polls ++ new) m

  -- `Run`; the Boolean tells whether it returns nil.
  unfoldable pub run_loops : ℤ → Manager → Option (Bool × Manager)
  run_loops (negsuc _) m = none
  run_loops (pos n) m =
      if n == length m.polls
      then some (true, m)
      else if ltb n (length m.polls)
      then use_polls (take n m.polls) (record m { closed = m.closed ++ drop n m.polls })
      else grow (open_polls (n - length m.polls) m.opened)
          (record m { opened = m.opened + open_calls (n - length m.polls) m.opened })

  abbrev pub run : Manager → Option (Bool × Manager)
  run m = run_loops m.num_loops m

  -- `Reset`
  unfoldable pub reset : Manager → Option (Bool × Manager)
  reset m = run (record m { closed = m.closed ++ m.polls; polls = [] })

  module _ (intn : ℕ → ℕ) where
    -- `Pick` of the two methods
    unfoldable pub pick_by : LoadBalance → Balance → Option (ℕ × Balance)
    pick_by round_robin b = do
      let accepted = (b.accepted + 1) % 2 ^ 64
      i ← round_robin_index accepted b.poll_size
      poll ← get_elem? b.polls i
      some (poll, record b { accepted = accepted })
    pick_by random b =
        if b.poll_size == 0
        then none
        else (do poll ← get_elem? b.polls (intn b.poll_size); some (poll, b))

    unfoldable pub pick_balanced : Manager → Option (ℕ × Manager)
    pick_balanced m = do
      b ← m.balance
      (poll, b') ← pick_by b.kind b
      some (poll, record m { balance = some b' })

    -- `Pick` after its call of `Run`, whose error it ignores.
    unfoldable pub after_run : Bool × Manager → Option (ℕ × Manager)
    after_run (_, m) = pick_balanced (record m { status = initialized })

    -- `Pick` by the status that it finds. `initializing` is another goroutine's, which it waits for.
    unfoldable pub pick_from : Status → Manager → Option (ℕ × Manager)
    pick_from initialized m = pick_balanced m
    pick_from initializing m = none
    pick_from uninitialized m = run (record m { status = initializing }) >>= after_run

    -- `Pick`
    abbrev pub pick : Manager → Option (ℕ × Manager)
    pick m = pick_from m.status m
