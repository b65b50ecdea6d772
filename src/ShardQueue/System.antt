-- ===== src/ShardQueue/System.antt =====
-- The goroutines of mux/shard_queue.go that use one queue: those in `Add` and `Close`, and the tasks
-- of `foreach`. A step is one atomic operation, or what is done under one lock.
-- Goroutines that stand at the same place with the same variables are counted, not told apart. At
-- least one getter is given to `Add`; getters do not panic, and the goroutine pool runs each task.
use netpoll.Base.{
  ℕ, zero, suc, ◌-◌, ◌<◌, ◌≡◌, ◌≢◌, Bool, true, false, Option, some, List, [], ◌∷◌, ◌++◌, get_elem?,
}
use netpoll.ShardQueue.{
  active, closing, closed, Queue, Ops, new_shard_queue, next_shard, append_getters, list_shard,
  take_shard, swap_getters, deal, flush,
}

-- Where the task that holds `runNum` stands. `looping n k` is at the head of the loop with
-- `triggerNum` n and `negNum` -k, `taken` has read its shard off the list, `swapped` has taken the
-- getters, `dealt` has dealt with them and counted them in `negNum`.
pub data Task : Type 0 where
  idle begun quitting : Task
  looping : ℕ → ℕ → Task
  taken swapped : ℕ → ℕ → ℕ → Task
  dealt : ℕ → ℕ → Task

-- `entered` and `listing` hold the shards of goroutines in `Add`: before the lock of the shard, and
-- before that of the list. `triggered` of them stand before `trigger` is raised, `starting` before
-- `runNum` is raised in `foreach`. `checking` and `finishing` tasks have given up `runNum`.
-- `added` and `taken_off` record the getters with their shard, in the order in which they were
-- appended to it and dealt with.
pub record System (A C : Type 0) : Type 0 where
  pub queue : Queue A
  pub conn : C
  pub entered : List ℕ
  pub listing : List ℕ
  pub triggered : ℕ
  pub starting : ℕ
  pub task : Task
  pub checking : ℕ
  pub finishing : ℕ
  pub added : List (ℕ × A)
  pub taken_off : List (ℕ × A)

abbrev pub remove : {X : Type 0} → ℕ → List X → List X
remove i [] = []
remove zero (x ∷ xs) = xs
remove (suc i) (x ∷ xs) = x ∷ remove i xs

-- The getters with their shard.
abbrev pub tag : {A : Type 0} → ℕ → List A → List (ℕ × A)
tag shard [] = []
tag shard (gt ∷ gts) = (shard, gt) ∷ tag shard gts

-- `if trigger { q.triggering(shard) }`
abbrev pub triggering_if : Bool → ℕ → List ℕ → List ℕ
triggering_if true shard listing = shard ∷ listing
triggering_if false shard listing = listing

-- `Add`, and its call of `triggering`
pub data Add {A C : Type 0} (s : System A C) : System A C → Type 0 where
  enters :
      (shard : ℕ) {q : Queue A}
      → s.queue.state ≡ active
      → next_shard s.queue ≡ some (shard, q)
      → Add s (record s { queue = q; entered = shard ∷ s.entered })
  appends :
      (i : ℕ) (shard : ℕ) (gt : A) (gts : List A) {trigger : Bool} {q : Queue A}
      → get_elem? s.entered i ≡ some shard
      → append_getters shard (gt ∷ gts) s.queue ≡ some (trigger, q)
      → Add s (record s {
        queue = q;
        entered = remove i s.entered;
        listing = triggering_if trigger shard s.listing;
        added = s.added ++ tag shard (gt ∷ gts);
      })
  lists :
      (i : ℕ) (shard : ℕ)
      → get_elem? s.listing i ≡ some shard
      → Add s (record s {
        queue = list_shard shard s.queue;
        listing = remove i s.listing;
        triggered = suc s.triggered;
      })
  triggers_first :
      {n : ℕ}
      → s.triggered ≡ suc n
      → s.queue.trigger ≡ 0
      → Add s (record s {
        queue = record s.queue { trigger = 1 };
        triggered = n;
        starting = suc s.starting;
      })
  triggers_later :
      {n : ℕ}
      → s.triggered ≡ suc n
      → 0 < s.queue.trigger
      → Add s (record s { queue = record s.queue { trigger = suc s.queue.trigger }; triggered = n })

-- `foreach`, and the task that it runs
pub data Foreach {A B C : Type 0} (ops : Ops B C) (get : A → Option B) (s : System A C)
    : System A C → Type 0 where
  starts_first :
      {n : ℕ}
      → s.starting ≡ suc n
      → s.queue.run_num ≡ 0
      → Foreach ops get s
          (record s { queue = record s.queue { run_num = 1 }; starting = n; task = begun })
  starts_later :
      {n : ℕ}
      → s.starting ≡ suc n
      → 0 < s.queue.run_num
      → Foreach ops get s
          (record s { queue = record s.queue { run_num = suc s.queue.run_num }; starting = n })
  loads : s.task ≡ begun → Foreach ops get s (record s { task = looping s.queue.trigger 0 })
  takes :
      (n k shard : ℕ) {q : Queue A}
      → s.task ≡ looping (suc n) k
      → take_shard s.queue ≡ some (shard, q)
      → Foreach ops get s (record s { queue = q; task = taken shard (suc n) k })
  swaps :
      (shard n k : ℕ) {q : Queue A}
      → s.task ≡ taken shard n k
      → swap_getters shard s.queue ≡ some q
      → Foreach ops get s (record s { queue = q; task = swapped shard n k })
  deals :
      (shard n k : ℕ)
      → s.task ≡ swapped shard n k
      → Foreach ops get s (record s {
        conn = deal ops get s.queue.swap s.conn;
        task = dealt n (suc k);
        taken_off = s.taken_off ++ tag shard s.queue.swap;
      })
  settles :
      (n k : ℕ)
      → s.task ≡ dealt n k
      → n ≡ k
      → Foreach ops get s (record s {
        queue = record s.queue { trigger = s.queue.trigger - k };
        task = looping (s.queue.trigger - k) 0;
      })
  goes_on :
      (n k : ℕ) → s.task ≡ dealt n k → n ≢ k → Foreach ops get s (record s { task = looping n k })
  flushes :
      (k : ℕ)
      → s.task ≡ looping 0 k
      → Foreach ops get s (record s { conn = flush ops s.conn; task = quitting })
  quits :
      s.task ≡ quitting
      → Foreach ops get s (record s {
        queue = record s.queue { run_num = 0 };
        task = idle;
        checking = suc s.checking;
      })
  starts_again :
      {n : ℕ}
      → s.checking ≡ suc n
      → 0 < s.queue.trigger
      → Foreach ops get s (record s { checking = n; starting = suc s.starting })
  finishes :
      {n : ℕ}
      → s.checking ≡ suc n
      → s.queue.trigger ≡ 0
      → Foreach ops get s (record s { checking = n; finishing = suc s.finishing })
  ends_closing :
      {n : ℕ}
      → s.finishing ≡ suc n
      → s.queue.state ≡ closing
      → Foreach ops get s (record s { queue = record s.queue { state = closed }; finishing = n })
  ends :
      {n : ℕ}
      → s.finishing ≡ suc n
      → s.queue.state ≢ closing
      → Foreach ops get s (record s { finishing = n })

-- `Close`; where it finds the queue closed it returns an error or nil, and changes nothing.
pub data Close {A C : Type 0} (s : System A C) : System A C → Type 0 where
  closes :
      s.queue.state ≡ active → Close s (record s { queue = record s.queue { state = closing } })
  sees_done :
      s.queue.state ≡ closing
      → s.queue.trigger ≡ 0
      → Close s (record s { queue = record s.queue { state = closed } })

pub data Step {A B C : Type 0} (ops : Ops B C) (get : A → Option B) (s : System A C)
    : System A C → Type 0 where
  by_add : {t : System A C} → Add s t → Step ops get s t
  by_task : {t : System A C} → Foreach ops get s t → Step ops get s t
  by_close : {t : System A C} → Close s t → Step ops get s t

-- A new queue of `n` shards on the connection `c`
abbrev pub new_system : {A C : Type 0} → ℕ → C → System A C
new_system n c = record {
  queue = new_shard_queue n;
  conn = c;
  entered = [];
  listing = [];
  triggered = 0;
  starting = 0;
  task = idle;
  checking = 0;
  finishing = 0;
  added = [];
  taken_off = [];
}

pub data Reach {A B C : Type 0} (ops : Ops B C) (get : A → Option B) (n : ℕ) (c : C)
    : System A C → Type 0 where
  start : Reach ops get n c (new_system n c)
  later : {s t : System A C} → Reach ops get n c s → Step ops get s t → Reach ops get n c t
