-- ===== src/ShardQueue/Tests.antt =====
-- A queue of two shards in mux/shard_queue.go: one goroutine adds two getters, and its task appends
-- them to a connection that is the list of the buffers given to it.
use netpoll.Base.{ℕ, zero, suc, ◌≡◌, refl, true, Option, none, some, List, [], ◌∷◌, ◌++◌, arith}
use netpoll.ShardQueue.{
  active, closed, Queue, Ops, new_shard_queue, signed_index, next_shard, append_getters, list_shard,
  take_shard, swap_getters, deal, flush,
}
use netpoll.ShardQueue.System.{
  idle, looping, System, enters, appends, lists, triggers_first, starts_first, loads, takes, swaps,
  deals, settles, flushes, quits, finishes, ends, closes, sees_done, Step, by_add, by_task,
  by_close, Reach, start, later,
}
use netpoll.ShardQueue.Invariant.{IsQueue}
use netpoll.ShardQueue.Kept.{Reach-IsQueue}
use netpoll.ShardQueue.Order.{of, buffers, IsWriter, delivers_all}

abbrev lists_all : Ops ℕ (List ℕ)
lists_all = record {
  append = λ buf c. (true, c ++ (buf ∷ []));
  flush = λ c. (true, c);
  close = λ c. c;
}

-- A getter is a number, and 0 gives no buffer.
abbrev gives : ℕ → Option ℕ
gives zero = none
gives (suc n) = some (suc n)

lists_all-IsWriter : IsWriter lists_all (λ c. c)
lists_all-IsWriter = record {
  takes_all = λ buf c. refl;
  appended = λ buf c. refl;
  flushed = λ c. refl;
  closed = λ c. refl;
}

-- `Add` of two getters and the task that deals with them, with nothing left to do.
abbrev served : System ℕ (List ℕ)
served = record {
  queue = record {
    idx = 1;
    size = 2;
    getters = [] ∷ [] ∷ [];
    swap = 7 ∷ 0 ∷ [];
    trigger = 0;
    state = active;
    run_num = 0;
    w = 1;
    r = 1;
    list = 0 ∷ 1 ∷ [];
  };
  conn = 7 ∷ [];
  entered = [];
  listing = [];
  triggered = 0;
  starting = 0;
  task = idle;
  checking = 0;
  finishing = 0;
  added = (1, 7) ∷ (1, 0) ∷ [];
  taken_off = (1, 7) ∷ (1, 0) ∷ [];
}

infixl 5 ◌then◌
abbrev ◌then◌ :
    {n : ℕ} {c : List ℕ} {s t : System ℕ (List ℕ)}
    → Reach lists_all gives n c s
    → Step lists_all gives s t
    → Reach lists_all gives n c t
r then m = later r m

served-Reach : Reach lists_all gives 2 [] served
unfolding new_shard_queue next_shard signed_index append_getters list_shard take_shard swap_getters
    deal flush
served-Reach =
    start
    then by_add (enters 1 refl refl)
    then by_add (appends 0 1 7 (0 ∷ []) refl refl)
    then by_add (lists 0 1 refl)
    then by_add (triggers_first refl refl)
    then by_task (starts_first refl refl)
    then by_task (loads refl)
    then by_task (takes 0 0 1 refl refl)
    then by_task (swaps 1 1 0 refl refl)
    then by_task (deals 1 1 0 refl)
    then by_task (settles 1 1 refl refl)
    then by_task (flushes 0 refl)
    then by_task (quits refl)
    then by_task (finishes refl refl)
    then by_task (ends refl (λ e. cc))

delivers_all_example :
    (served.conn ≡ [] ++ buffers gives served.taken_off)
    × ((i : ℕ) → of i served.taken_off ≡ of i served.added)
delivers_all_example =
    delivers_all (omega arith) lists_all-IsWriter served-Reach (refl, refl, refl, refl, refl)

Reach-IsQueue_example : IsQueue served
Reach-IsQueue_example = Reach-IsQueue (omega arith) served-Reach

abbrev late : Queue ℕ
late = record {
  idx = 2147483648;
  size = 3;
  getters = [] ∷ [] ∷ [] ∷ [];
  swap = [];
  trigger = 0;
  state = active;
  run_num = 0;
  w = 0;
  r = 0;
  list = 0 ∷ 0 ∷ 0 ∷ [];
}

-- The counter at `-(2 ^ 31) + 1`: `Add` panics.
late_lem : next_shard late ≡ none
unfolding next_shard signed_index
late_lem = refl

-- The queue closed by `Close` between the task's last round and its flush.
abbrev closed_early : System ℕ (List ℕ)
closed_early = record served {
  queue = record served.queue { state = closed; run_num = 1 };
  task = looping 0 0;
}

closed_early-Reach : Reach lists_all gives 2 [] closed_early
unfolding new_shard_queue next_shard signed_index append_getters list_shard take_shard swap_getters
    deal
closed_early-Reach =
    start
    then by_add (enters 1 refl refl)
    then by_add (appends 0 1 7 (0 ∷ []) refl refl)
    then by_add (lists 0 1 refl)
    then by_add (triggers_first refl refl)
    then by_task (starts_first refl refl)
    then by_task (loads refl)
    then by_task (takes 0 0 1 refl refl)
    then by_task (swaps 1 1 0 refl refl)
    then by_task (deals 1 1 0 refl)
    then by_task (settles 1 1 refl refl)
    then by_close (closes refl)
    then by_close (sees_done refl refl)
