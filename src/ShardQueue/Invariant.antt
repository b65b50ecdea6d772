-- ===== src/ShardQueue/Invariant.antt =====
-- The invariant of mux/shard_queue.go: which shards the ring and the goroutines hold, how many of
-- them `trigger` counts, and which task runs.
use netpoll.Base.{
  ℕ, suc, ◌+◌, ◌%◌, ◌^◌, ◌≤◌, ◌<◌, ◌≡◌, ap, ◌∙◌, ◌⊎◌, Bool, some, List, [], ◌∷◌, ◌++◌, arith,
  bind_some, length, get_elem?, set, length-append,
}
use netpoll.ShardQueue.{
  Queue, signed_index, next_shard, is_empty, append_getters, take_shard, swap_getters,
}
use netpoll.ShardQueue.System.{Task, idle, begun, quitting, looping, taken, swapped, dealt, System}
use netpoll.ShardQueue.Ring.{Ring}
use netpoll.ShardQueue.Shards.{occurs, mark, occurs-append, length-le, mark-le, get_elem?-none}

-- The shard that the task has taken off the list, and not yet its getters.
abbrev pub held : Task → List ℕ
held (taken shard _ _) = shard ∷ []
held _ = []

-- The shards that the task has taken off the list since `trigger` was lowered.
abbrev pub pending : Task → ℕ
pending (looping n k) = k
pending (taken _ n k) = suc k
pending (swapped _ n k) = suc k
pending (dealt n k) = k
pending _ = 0

abbrev pub busy : Task → ℕ
busy idle = 0
busy _ = 1

-- The variables of the loop: it goes on only while the ring has entries.
abbrev pub Turns : Task → ℕ → Type 0
Turns (looping n k) trigger = (n ≤ trigger) × ((n ≡ 0) × (k ≡ 0) ⊎ (k < n))
Turns (taken _ n k) trigger = (n ≤ trigger) × (k < n)
Turns (swapped _ n k) trigger = (n ≤ trigger) × (k < n)
Turns (dealt n k) trigger = (n ≤ trigger) × (0 < k) × (k ≤ n)
Turns _ trigger = Unit {0}

-- A shard with getters is in the hand of one goroutine in `Add`, or in the ring, or held by the
-- task, and once only.
pub record Lists {A : Type 0} (n : ℕ) (getters : List (List A)) (list : List ℕ) (r w : ℕ)
    (unread listing held : List ℕ) : Type 0 where
  pub getters_size : length getters ≡ n
  pub list_size : length list ≡ n
  pub r_below : r < n
  pub w_below : w < n
  pub ring : Ring list n r unread w
  pub marked :
      (i : ℕ) → occurs i listing + (occurs i unread + occurs i held) ≡ mark (get_elem? getters i)

-- A task runs where `trigger` is raised, or is about to be started, or to look again.
pub record Runs (task : Task) (trigger run_num starting checking : ℕ) : Type 0 where
  pub turns : Turns task trigger
  pub running : (busy task ≡ 0) × (run_num ≡ 0) ⊎ (busy task ≡ 1) × (0 < run_num)
  pub alive : (trigger ≡ 0) ⊎ (0 < busy task + (starting + checking))

pub record IsQueue {A C : Type 0} (s : System A C) : Type 0 where
  pub unread : List ℕ
  pub lists :
      Lists s.queue.size s.queue.getters s.queue.list s.queue.r s.queue.w unread s.listing
        (held s.task)
  pub counted : s.queue.trigger + s.triggered ≡ length unread + pending s.task
  pub runs : Runs s.task s.queue.trigger s.queue.run_num s.starting s.checking

-- There is room in the ring for every shard that is to be visited.
pub Lists-room :
    {A : Type 0} {n : ℕ} {getters : List (List A)} {list : List ℕ} {r w : ℕ}
    {unread listing held : List ℕ}
    → Lists n getters list r w unread listing held
    → length listing + (length unread + length held) ≤ n
Lists-room {n} {getters = getters} {unread = unread} {listing} {held} v =
    let whole : (i : ℕ) → occurs i (listing ++ (unread ++ held)) ≡ mark (get_elem? getters i) = λ i.
      rw (occurs-append i listing (unread ++ held), occurs-append i unread held) (v.marked i) in
    let le =
      length-le n (listing ++ (unread ++ held))
        (λ i h. whole i ∙ ap mark (get_elem?-none getters i (omega (arith, v.getters_size))))
        (λ i. rw (whole i) (mark-le (get_elem? getters i))) in
    omega (arith, le, length-append listing (unread ++ held), length-append unread held)

pub Turns-mono : (task : Task) (t t' : ℕ) → t ≤ t' → Turns task t → Turns task t'
Turns-mono idle t t' le h = h
Turns-mono begun t t' le h = h
Turns-mono quitting t t' le h = h
Turns-mono (looping n k) t t' le (h, rest) = (omega arith, rest)
Turns-mono (taken _ n k) t t' le (h, rest) = (omega arith, rest)
Turns-mono (swapped _ n k) t t' le (h, rest) = (omega arith, rest)
Turns-mono (dealt n k) t t' le (h, some_done, most) = (omega arith, some_done, most)

pub next_shard_lem :
    {A : Type 0} (q : Queue A) {shard : ℕ} {q' : Queue A}
    → next_shard q ≡ some (shard, q')
    → q' ≡ record q { idx = (q.idx + 1) % 2 ^ 32 }
unfolding next_shard
next_shard_lem q e =
    let (i, _, f) = bind_some (signed_index ((q.idx + 1) % 2 ^ 32) q.size) _ e in cc

pub append_getters_lem :
    {A : Type 0} (shard : ℕ) (gts : List A) (q : Queue A) {b : Bool} {q' : Queue A}
    → append_getters shard gts q ≡ some (b, q')
    → (old : List A) × (get_elem? q.getters shard ≡ some old)
      × (b ≡ is_empty old)
      × (q' ≡ record q { getters = set q.getters shard (old ++ gts) })
unfolding append_getters
append_getters_lem shard gts q e =
    let (old, f, g) = bind_some (get_elem? q.getters shard) _ e in (old, f, cc, cc)

pub take_shard_lem :
    {A : Type 0} (q : Queue A) {shard : ℕ} {q' : Queue A}
    → take_shard q ≡ some (shard, q')
    → (get_elem? q.list ((q.r + 1) % q.size) ≡ some shard)
      × (q' ≡ record q { r = (q.r + 1) % q.size })
unfolding take_shard
take_shard_lem q e =
    let (shard, f, g) = bind_some (get_elem? q.list ((q.r + 1) % q.size)) _ e in (f ∙ cc, cc)

pub swap_getters_lem :
    {A : Type 0} (shard : ℕ) (q : Queue A) {q' : Queue A}
    → swap_getters shard q ≡ some q'
    → (tmp : List A) × (get_elem? q.getters shard ≡ some tmp)
      × (q' ≡ record q { getters = set q.getters shard []; swap = tmp })
unfolding swap_getters
swap_getters_lem shard q e =
    let (tmp, f, g) = bind_some (get_elem? q.getters shard) _ e in (tmp, f, cc)
