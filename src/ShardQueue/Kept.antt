-- ===== src/ShardQueue/Kept.antt =====
-- Every step of mux/shard_queue.go keeps the invariant.
use netpoll.Base.{
  ℕ, zero, suc, ◌+◌, ◌%◌, ◌<◌, ◌≡◌, refl, ap, ◌∙◌, inl, inr, Option, some, List, [], ◌∷◌, ◌++◌,
  arith, length, get_elem?, set, replicate, length-append, length-set, length-replicate,
}
use netpoll.ShardQueue.{Ops, new_shard_queue, is_empty, list_shard, deal, flush}
use netpoll.ShardQueue.System.{
  Task, idle, begun, quitting, looping, taken, swapped, dealt, System, remove, tag, triggering_if,
  Add, enters, appends, lists, triggers_first, triggers_later, Foreach, starts_first, starts_later,
  loads, takes, swaps, deals, settles, goes_on, flushes, quits, starts_again, finishes,
  ends_closing, ends, Close, closes, sees_done, by_add, by_task, by_close, new_system, Reach, start,
  later,
}
use netpoll.ShardQueue.Ring.{mod_below, Ring-push}
use netpoll.ShardQueue.Shards.{
  occurs, mark, occurs-append, occurs-remove, occurs-at, mark-le, get_elem?-length, mark-append,
  mark-clear,
}
use netpoll.ShardQueue.Invariant.{
  held, pending, busy, Turns, Lists, IsQueue, Lists-room, Turns-mono, next_shard_lem,
  append_getters_lem, take_shard_lem, swap_getters_lem,
}

module _ {A : Type 0} where
  append-Lists :
      (shard : ℕ) (old : List A) (gt : A) (gts : List A) {n : ℕ} {getters : List (List A)}
      {list : List ℕ} {r w : ℕ} {unread listing held : List ℕ}
      → get_elem? getters shard ≡ some old
      → Lists n getters list r w unread listing held
      → Lists n
          (set getters shard (old ++ (gt ∷ gts)))
          list
          r
          w
          unread
          (triggering_if (is_empty old) shard listing)
          held
  append-Lists shard old gt gts {getters = getters} {listing = listing} at v = record {
    getters_size = length-set getters shard (old ++ (gt ∷ gts)) ∙ v.getters_size;
    list_size = v.list_size;
    r_below = v.r_below;
    w_below = v.w_below;
    ring = v.ring;
    marked = λ i. omega (arith, v.marked i, mark-append i shard getters old gt gts listing at);
  }

  list-Lists :
      (i shard : ℕ) {n : ℕ} {getters : List (List A)} {list : List ℕ} {r w : ℕ}
      {unread listing held : List ℕ}
      → get_elem? listing i ≡ some shard
      → Lists n getters list r w unread listing held
      → Lists n getters
          (set list ((w + 1) % n) shard)
          r
          ((w + 1) % n)
          (unread ++ (shard ∷ []))
          (remove i listing)
          held
  list-Lists i shard {n} {list = list} {r} {w} {unread} {listing} at v = record {
    getters_size = v.getters_size;
    list_size = length-set list ((w + 1) % n) shard ∙ v.list_size;
    r_below = v.r_below;
    w_below = mod_below n w v.w_below;
    ring =
        Ring-push list n r unread w shard v.list_size v.r_below v.w_below
          (omega (arith, Lists-room v, get_elem?-length listing i at)) v.ring;
    marked = λ j.
        omega
          (arith, v.marked j, occurs-remove j i listing at, occurs-append j unread (shard ∷ []));
  }

  take-Lists :
      (shard x : ℕ) (xs : List ℕ) {n : ℕ} {getters : List (List A)} {list : List ℕ} {r w : ℕ}
      {listing : List ℕ}
      → get_elem? list ((r + 1) % n) ≡ some shard
      → Lists n getters list r w (x ∷ xs) listing []
      → Lists n getters list ((r + 1) % n) w xs listing (shard ∷ [])
  take-Lists shard x xs {n} {r = r} at v =
      let (here, rest) = v.ring in
      let e : shard ≡ x = cc in
      record {
        getters_size = v.getters_size;
        list_size = v.list_size;
        r_below = mod_below n r v.r_below;
        w_below = v.w_below;
        ring = rest;
        marked = rw e (λ i. omega (arith, v.marked i));
      }

  swap-Lists :
      (shard : ℕ) (tmp : List A) {n : ℕ} {getters : List (List A)} {list : List ℕ} {r w : ℕ}
      {unread listing : List ℕ}
      → get_elem? getters shard ≡ some tmp
      → Lists n getters list r w unread listing (shard ∷ [])
      → Lists n (set getters shard []) list r w unread listing []
  swap-Lists shard tmp {getters = getters} at v =
      let once : 0 < occurs shard (shard ∷ []) = occurs-at 0 (shard ∷ []) refl in
      let marks : mark (get_elem? getters shard) ≡ 1 =
        omega (arith, v.marked shard, mark-le (get_elem? getters shard), once) in
      record {
        getters_size = length-set getters shard [] ∙ v.getters_size;
        list_size = v.list_size;
        r_below = v.r_below;
        w_below = v.w_below;
        ring = v.ring;
        marked = λ i. omega (arith, v.marked i, mark-clear i shard getters tmp at marks);
      }

module _ {A C : Type 0} where
  Add-IsQueue : {s t : System A C} → IsQueue s → Add s t → IsQueue t
  unfolding list_shard
  Add-IsQueue {s} v (enters shard active_ e) =
      rw (next_shard_lem s.queue e)
        (record { unread = v.unread; lists = v.lists; counted = v.counted; runs = v.runs })
  Add-IsQueue {s} v (appends i shard gt gts at e) =
      let (old, at', b, e') = append_getters_lem shard (gt ∷ gts) s.queue e in
      rw (e', b)
        (record {
          unread = v.unread;
          lists = append-Lists shard old gt gts at' v.lists;
          counted = v.counted;
          runs = v.runs;
        })
  Add-IsQueue {s} v (lists i shard at) = record {
    unread = v.unread ++ (shard ∷ []);
    lists = list-Lists i shard at v.lists;
    counted = omega (arith, v.counted, length-append v.unread (shard ∷ []));
    runs = v.runs;
  }
  Add-IsQueue {s} v (triggers_first e zero_) = record {
    unread = v.unread;
    lists = v.lists;
    counted = omega (arith, v.counted);
    runs = record {
      turns = Turns-mono s.task s.queue.trigger 1 (omega arith) v.runs.turns;
      running = v.runs.running;
      alive = inr (omega arith);
    };
  }
  Add-IsQueue {s} v (triggers_later e positive) = record {
    unread = v.unread;
    lists = v.lists;
    counted = omega (arith, v.counted);
    runs = record {
      turns = Turns-mono s.task s.queue.trigger (suc s.queue.trigger) (omega arith) v.runs.turns;
      running = v.runs.running;
      alive = let alive = v.runs.alive in ground arith;
    };
  }

  -- A task that moves on, with the queue as it is.
  moves :
      (task : Task) (conn : C) (taken_off : List (ℕ × A)) {s : System A C}
      → IsQueue s
      → held s.task ≡ held task
      → pending s.task ≡ pending task
      → busy s.task ≡ busy task
      → Turns task s.queue.trigger
      → IsQueue (record s { conn = conn; task = task; taken_off = taken_off })
  moves task conn taken_off v same_held same_pending same_busy turns = record {
    unread = v.unread;
    lists = rw same_held at v.lists;
    counted = rw same_pending at v.counted;
    runs = record {
      turns = turns;
      running = rw same_busy at v.runs.running;
      alive = rw same_busy at v.runs.alive;
    };
  }

  takes-IsQueue :
      (n k shard : ℕ) (unread : List ℕ) {s : System A C}
      → IsQueue s
      → s.task ≡ looping (suc n) k
      → get_elem? s.queue.list ((s.queue.r + 1) % s.queue.size) ≡ some shard
      → Lists s.queue.size s.queue.getters s.queue.list s.queue.r s.queue.w unread s.listing []
      → s.queue.trigger + s.triggered ≡ length unread + k
      → IsQueue (record s {
        queue = record s.queue { r = (s.queue.r + 1) % s.queue.size };
        task = taken shard (suc n) k;
      })
  takes-IsQueue n k shard [] v e at listed counted =
      let turns = rw e at v.runs.turns in ground arith
  takes-IsQueue n k shard (x ∷ unread) v e at listed counted = record {
    unread = unread;
    lists = take-Lists shard x unread at listed;
    counted = omega arith;
    runs = record {
      turns = let turns = rw e at v.runs.turns in ground arith;
      running = rw e at v.runs.running;
      alive = inr (omega arith);
    };
  }

idle_lem : (task : Task) → busy task ≡ 0 → task ≡ idle
idle_lem idle e = refl
idle_lem begun e = absurd (omega arith)
idle_lem quitting e = absurd (omega arith)
idle_lem (looping _ _) e = absurd (omega arith)
idle_lem (taken _ _ _) e = absurd (omega arith)
idle_lem (swapped _ _ _) e = absurd (omega arith)
idle_lem (dealt _ _) e = absurd (omega arith)

module _ {A B C : Type 0} {ops : Ops B C} {get : A → Option B} where
  Foreach-IsQueue : {s t : System A C} → IsQueue s → Foreach ops get s t → IsQueue t
  Foreach-IsQueue {s} v (starts_first e zero_) =
      let was_idle : s.task ≡ idle =
        idle_lem s.task (let running = v.runs.running in ground arith) in
      record {
        unread = v.unread;
        lists = rw was_idle at v.lists;
        counted = rw was_idle at v.counted;
        runs = record { turns = _; running = inr (refl, omega arith); alive = inr (omega arith) };
      }
  Foreach-IsQueue {s} v (starts_later e positive) = record {
    unread = v.unread;
    lists = v.lists;
    counted = v.counted;
    runs =
        let runs = v.runs in
        record {
          turns = runs.turns;
          running = let running = runs.running in ground arith;
          alive = let running = runs.running in ground arith;
        };
  }
  Foreach-IsQueue {s} v (loads e) =
      moves (looping s.queue.trigger 0) s.conn s.taken_off v (ap held e) (ap pending e) (ap busy e)
        (omega arith, ground arith)
  Foreach-IsQueue {s} v (takes n k shard e f) =
      let (at, e') = take_shard_lem s.queue f in
      rw e' (takes-IsQueue n k shard v.unread v e at (rw e at v.lists) (rw e at v.counted))
  Foreach-IsQueue {s} v (swaps shard n k e f) =
      let (tmp, at, e') = swap_getters_lem shard s.queue f in
      rw e' (record {
        unread = v.unread;
        lists = swap-Lists shard tmp at (rw e at v.lists);
        counted = rw e at v.counted;
        runs = record {
          turns = rw e at v.runs.turns;
          running = rw e at v.runs.running;
          alive = rw e at v.runs.alive;
        };
      })
  Foreach-IsQueue {s} v (deals shard n k e) =
      moves (dealt n (suc k)) (deal ops get s.queue.swap s.conn)
        (s.taken_off ++ tag shard s.queue.swap) v (ap held e) (ap pending e) (ap busy e)
        (let turns = rw e at v.runs.turns in ground arith)
  Foreach-IsQueue {s} v (settles n k e same) =
      let turns = rw e at v.runs.turns in
      let counted = rw e at v.counted in
      record {
        unread = v.unread;
        lists = rw e at v.lists;
        counted = ground arith;
        runs = record {
          turns = (omega arith, ground arith);
          running = rw e at v.runs.running;
          alive = inr (omega arith);
        };
      }
  Foreach-IsQueue {s} v (goes_on n k e other) =
      moves (looping n k) s.conn s.taken_off v (ap held e) (ap pending e) (ap busy e)
        (let turns = rw e at v.runs.turns in ground arith)
  Foreach-IsQueue {s} v (flushes k e) =
      let turns = rw e at v.runs.turns in
      moves quitting (flush ops s.conn) s.taken_off v (ap held e) (ap pending e ∙ ground arith)
        (ap busy e) _
  Foreach-IsQueue {s} v (quits e) = record {
    unread = v.unread;
    lists = rw e at v.lists;
    counted = rw e at v.counted;
    runs = record { turns = _; running = inl (refl, refl); alive = inr (omega arith) };
  }
  Foreach-IsQueue {s} v (starts_again e positive) = record {
    unread = v.unread;
    lists = v.lists;
    counted = v.counted;
    runs =
        let runs = v.runs in
        record { turns = runs.turns; running = runs.running; alive = inr (omega arith) };
  }
  Foreach-IsQueue {s} v (finishes e zero_) = record {
    unread = v.unread;
    lists = v.lists;
    counted = v.counted;
    runs = record { turns = v.runs.turns; running = v.runs.running; alive = inl zero_ };
  }
  Foreach-IsQueue {s} v (ends_closing e f) = record {
    unread = v.unread;
    lists = v.lists;
    counted = v.counted;
    runs = v.runs;
  }
  Foreach-IsQueue {s} v (ends e f) = record {
    unread = v.unread;
    lists = v.lists;
    counted = v.counted;
    runs = v.runs;
  }

Close-IsQueue : {A C : Type 0} {s t : System A C} → IsQueue s → Close s t → IsQueue t
Close-IsQueue v (closes e) = record {
  unread = v.unread;
  lists = v.lists;
  counted = v.counted;
  runs = v.runs;
}
Close-IsQueue v (sees_done e f) = record {
  unread = v.unread;
  lists = v.lists;
  counted = v.counted;
  runs = v.runs;
}

mark-replicate : (X : Type 0) (n i : ℕ) → mark {X = X} (get_elem? (replicate n []) i) ≡ 0
mark-replicate X zero i = refl
mark-replicate X (suc n) zero = refl
mark-replicate X (suc n) (suc i) = mark-replicate X n i

new_system-IsQueue : {A C : Type 0} (n : ℕ) (c : C) → 0 < n → IsQueue (new_system {A = A} n c)
unfolding new_shard_queue
new_system-IsQueue {A} n c h = record {
  unread = [];
  lists = record {
    getters_size = length-replicate n [];
    list_size = length-replicate n 0;
    r_below = h;
    w_below = h;
    ring = refl;
    marked = λ i. omega (arith, mark-replicate A n i);
  };
  counted = omega arith;
  runs = record { turns = _; running = inl (refl, refl); alive = inl refl };
}

-- Every state of a queue of at least one shard satisfies `IsQueue`, however the goroutines in `Add`
-- and `Close` and the tasks interleave: a shard with getters is in the hand of one goroutine, or in
-- the ring, or held by the task, and once only; the ring lies between `r` and `w` and never has more
-- entries than places; `trigger` counts the entries that are announced; one task at most holds
-- `runNum`; and where `trigger` is raised, a task runs, is to be started or looks again.
pub Reach-IsQueue :
    {A B C : Type 0} {ops : Ops B C} {get : A → Option B} {n : ℕ} {c : C} {s : System A C}
    → 0 < n
    → Reach ops get n c s
    → IsQueue s
Reach-IsQueue {n = n} {c} h start = new_system-IsQueue n c h
Reach-IsQueue h (later r (by_add m)) = Add-IsQueue (Reach-IsQueue h r) m
Reach-IsQueue h (later r (by_task m)) = Foreach-IsQueue (Reach-IsQueue h r) m
Reach-IsQueue h (later r (by_close m)) = Close-IsQueue (Reach-IsQueue h r) m
