-- ===== src/ShardQueue/Order.antt =====
-- mux/shard_queue.go: the getters of a shard are dealt with in the order in which they were added,
-- none twice, and none is left behind.
use netpoll.Base.{
  ℕ, zero, suc, ◌<◌, ◌≡◌, refl, sym, ap, ◌∙◌, ◌≢◌, inl, inr, true, Option, none, some, List, [],
  ◌∷◌, ◌++◌, append-nil, append_assoc, arith, ◌==◌, if◌then◌else◌, Bool-cases, Option-cases,
  get_elem?, set, replicate, get_elem?-set_self, get_elem?-set_other, length-zero,
}
use netpoll.ShardQueue.{Ops, new_shard_queue, list_shard, deal, flush}
use netpoll.ShardQueue.System.{
  Task, idle, begun, quitting, looping, taken, swapped, dealt, System, tag, Add, enters, appends,
  lists, triggers_first, triggers_later, Foreach, starts_first, starts_later, loads, takes, swaps,
  deals, settles, goes_on, flushes, quits, starts_again, finishes, ends_closing, ends, Close,
  closes, sees_done, by_add, by_task, by_close, Reach, start, later,
}
use netpoll.ShardQueue.Shards.{mark, get_elem?-length}
use netpoll.ShardQueue.Invariant.{
  busy, IsQueue, next_shard_lem, append_getters_lem, take_shard_lem, swap_getters_lem,
}
use netpoll.ShardQueue.Kept.{Reach-IsQueue}

-- The getters of one shard.
abbrev pub of : {A : Type 0} → ℕ → List (ℕ × A) → List A
of i [] = []
of i ((shard, gt) ∷ log) = let rest = of i log in if shard == i then gt ∷ rest else rest

-- The buffers that getters give.
abbrev pub buffers : {A B : Type 0} → (A → Option B) → List (ℕ × A) → List B
buffers get [] = []
buffers get ((_, gt) ∷ log) =
    let rest = buffers get log in elim (get gt) [ none ↦ rest | some buf ↦ buf ∷ rest ]

-- A writer that takes what it is given: `written` is what its connection has been given.
pub record IsWriter {B C : Type 0} (ops : Ops B C) (written : C → List B) : Type 0 where
  pub takes_all : (buf : B) (c : C) → (ops.append buf c).0 ≡ true
  pub appended : (buf : B) (c : C) → written (ops.append buf c).1 ≡ written c ++ (buf ∷ [])
  pub flushed : (c : C) → written (ops.flush c).1 ≡ written c
  pub closed : (c : C) → written (ops.close c) ≡ written c

abbrev pub IsQuiet : {A C : Type 0} → System A C → Type 0
IsQuiet s =
    (s.listing ≡ []) × (s.triggered ≡ 0) × (s.starting ≡ 0) × (s.task ≡ idle) × (s.checking ≡ 0)

abbrev in_shard : {A : Type 0} → Option (List A) → List A
in_shard none = []
in_shard (some gts) = gts

-- What the task has taken of the shard and not dealt with.
abbrev in_hand : {A : Type 0} → ℕ → Task → List A → List A
in_hand i (swapped shard _ _) swap = if shard == i then swap else []
in_hand i _ swap = []

abbrev InOrder : {A C : Type 0} → ℕ → System A C → Type 0
InOrder i s =
    of i s.added
    ≡ of i s.taken_off ++ (in_hand i s.task s.queue.swap ++ in_shard (get_elem? s.queue.getters i))

module _ {A : Type 0} where
  of-append : (i : ℕ) (xs ys : List (ℕ × A)) → of i (xs ++ ys) ≡ of i xs ++ of i ys
  of-append i [] ys = refl
  of-append i ((s, gt) ∷ xs) ys = elim (Bool-cases (s == i)) [
    | inl e ↦ rw e (ap (◌∷◌ gt) (of-append i xs ys))
    | inr e ↦ rw e (of-append i xs ys)
  ]

  of-tag : (i shard : ℕ) (gts : List A) → of i (tag shard gts) ≡ (if shard == i then gts else [])
  of-tag i shard [] = elim (Bool-cases (shard == i)) [ inl e ↦ rw e | inr e ↦ rw e ]
  of-tag i shard (gt ∷ gts) = elim (Bool-cases (shard == i)) [
    | inl e ↦ rw e (ap (◌∷◌ gt) (of-tag i shard gts ∙ rw e))
    | inr e ↦ rw e (of-tag i shard gts ∙ rw e)
  ]

  -- Getters appended to a shard stand behind the others of the shard.
  in_shard-append :
      (i shard : ℕ) (getters : List (List A)) (old gts : List A)
      → get_elem? getters shard ≡ some old
      → in_shard (get_elem? (set getters shard (old ++ gts)) i)
        ≡ in_shard (get_elem? getters i) ++ (if shard == i then gts else [])
  in_shard-append i shard getters old gts at = elim (Bool-cases (shard == i)) [
    | inl same ↦
        let e : shard ≡ i = ground arith in
        let here =
          get_elem?-set_self getters shard (old ++ gts) (get_elem?-length getters shard at) in
        rw (same, sym e, here, at)
    | inr other ↦
        let ne : shard ≢ i = ground arith in
        rw (other, get_elem?-set_other getters shard i (old ++ gts) ne)
          (sym (append-nil (in_shard (get_elem? getters i))))
  ]

  in_shard-clear :
      (i shard : ℕ) (getters : List (List A)) (tmp : List A)
      → get_elem? getters shard ≡ some tmp
      → (if shard == i then tmp else []) ++ in_shard (get_elem? (set getters shard []) i)
        ≡ in_shard (get_elem? getters i)
  in_shard-clear i shard getters tmp at = elim (Bool-cases (shard == i)) [
    | inl same ↦
        let e : shard ≡ i = ground arith in
        let here = get_elem?-set_self getters shard [] (get_elem?-length getters shard at) in
        rw (same, sym e, here, at) (append-nil tmp)
    | inr other ↦
        let ne : shard ≢ i = ground arith in rw (other, get_elem?-set_other getters shard i [] ne)
  ]

module _ {A C : Type 0} (i : ℕ) where
  Add-InOrder : {s t : System A C} → InOrder i s → Add s t → InOrder i t
  unfolding list_shard
  Add-InOrder {s} v (enters shard active_ e) = rw (next_shard_lem s.queue e) v
  Add-InOrder {s} v (appends k shard gt gts at e) =
      let (old, at', b, e') = append_getters_lem shard (gt ∷ gts) s.queue e in
      rw
        (
          e',
          of-append i s.added (tag shard (gt ∷ gts)),
          of-tag i shard (gt ∷ gts),
          v,
          in_shard-append i shard s.queue.getters old (gt ∷ gts) at',
        )
        (simp (append_assoc) refl)
  Add-InOrder v (lists k shard at) = v
  Add-InOrder v (triggers_first e f) = v
  Add-InOrder v (triggers_later e f) = v

idle_hand :
    {A : Type 0} (i : ℕ) (task : Task) (swap : List A) → busy task ≡ 0 → in_hand i task swap ≡ []
idle_hand i idle swap e = refl
idle_hand i begun swap e = refl
idle_hand i quitting swap e = refl
idle_hand i (looping _ _) swap e = refl
idle_hand i (taken _ _ _) swap e = refl
idle_hand i (swapped _ _ _) swap e = absurd (omega arith)
idle_hand i (dealt _ _) swap e = refl

module _ {A B C : Type 0} {ops : Ops B C} {get : A → Option B} (i : ℕ) where
  Foreach-InOrder : {s t : System A C} → IsQueue s → InOrder i s → Foreach ops get s t → InOrder i t
  Foreach-InOrder {s} q v (starts_first e zero_) =
      let free : busy s.task ≡ 0 = (let running = q.runs.running in ground arith) in
      rw (idle_hand i s.task s.queue.swap free) at v
  Foreach-InOrder {s} q v (starts_later e positive) = v
  Foreach-InOrder {s} q v (loads e) = rw e at v
  Foreach-InOrder {s} q v (takes n k shard e f) =
      let (at, e') = take_shard_lem s.queue f in rw e' (rw e at v)
  Foreach-InOrder {s} q v (swaps shard n k e f) =
      let (tmp, at, e') = swap_getters_lem shard s.queue f in
      rw (e', in_shard-clear i shard s.queue.getters tmp at) (rw e at v)
  Foreach-InOrder {s} q v (deals shard n k e) =
      rw (of-append i s.taken_off (tag shard s.queue.swap), of-tag i shard s.queue.swap)
        (simp (append_assoc) (rw e at v))
  Foreach-InOrder {s} q v (settles n k e same) = rw e at v
  Foreach-InOrder {s} q v (goes_on n k e other) = rw e at v
  Foreach-InOrder {s} q v (flushes k e) = rw e at v
  Foreach-InOrder {s} q v (quits e) = rw e at v
  Foreach-InOrder {s} q v (starts_again e positive) = v
  Foreach-InOrder {s} q v (finishes e zero_) = v
  Foreach-InOrder {s} q v (ends_closing e f) = v
  Foreach-InOrder {s} q v (ends e f) = v

Close-InOrder : {A C : Type 0} (i : ℕ) {s t : System A C} → InOrder i s → Close s t → InOrder i t
Close-InOrder i v (closes e) = v
Close-InOrder i v (sees_done e f) = v

no_getters : (A : Type 0) (n i : ℕ) → in_shard {A = A} (get_elem? (replicate n []) i) ≡ []
no_getters A zero i = refl
no_getters A (suc n) zero = refl
no_getters A (suc n) (suc i) = no_getters A n i

in_shard-zero : {A : Type 0} (o : Option (List A)) → mark o ≡ 0 → in_shard o ≡ []
in_shard-zero none e = refl
in_shard-zero (some []) e = refl
in_shard-zero (some (gt ∷ gts)) e = absurd (omega arith)

Reach-InOrder :
    {A B C : Type 0} {ops : Ops B C} {get : A → Option B} {n : ℕ} {c : C} {s : System A C} (i : ℕ)
    → 0 < n
    → Reach ops get n c s
    → InOrder i s
unfolding new_shard_queue
Reach-InOrder {A} {n = n} i h start = sym (no_getters A n i)
Reach-InOrder i h (later r (by_add m)) = Add-InOrder i (Reach-InOrder i h r) m
Reach-InOrder i h (later r (by_task m)) =
    Foreach-InOrder i (Reach-IsQueue h r) (Reach-InOrder i h r) m
Reach-InOrder i h (later r (by_close m)) = Close-InOrder i (Reach-InOrder i h r) m

quiet-unmarked :
    {A C : Type 0} {s : System A C} (i : ℕ)
    → IsQueue s
    → IsQuiet s
    → mark (get_elem? s.queue.getters i) ≡ 0
quiet-unmarked {s = s} i v (listing, triggered, starting, running, checking) =
    let counted = rw running at v.counted in
    let alive = rw running at v.runs.alive in
    let marked = rw running at (v.lists.marked i) in
    let empty : v.unread ≡ [] = length-zero v.unread (ground arith) in
    sym (rw (listing, empty) at marked)

quiet_order :
    {A B C : Type 0} {ops : Ops B C} {get : A → Option B} {n : ℕ} {c : C} {s : System A C} (i : ℕ)
    → 0 < n
    → Reach ops get n c s
    → IsQuiet s
    → of i s.added ≡ of i s.taken_off
quiet_order {s = s} i h r quiet =
    let (_, _, _, running, _) = quiet in
    let order = rw running at (Reach-InOrder i h r) in
    let none_left =
      in_shard-zero (get_elem? s.queue.getters i) (quiet-unmarked i (Reach-IsQueue h r) quiet) in
    (rw none_left at order) ∙ append-nil (of i s.taken_off)

module _ {A B : Type 0} (get : A → Option B) where
  buffers-append :
      (xs ys : List (ℕ × A)) → buffers get (xs ++ ys) ≡ buffers get xs ++ buffers get ys
  buffers-append [] ys = refl
  buffers-append ((s, gt) ∷ xs) ys = ground (arith, buffers-append xs ys)

module _ {A B C : Type 0} {ops : Ops B C} (get : A → Option B) {written : C → List B}
    (wr : IsWriter ops written) where
  deal_lem :
      (shard : ℕ) (gts : List A) (c : C)
      → written (deal ops get gts c) ≡ written c ++ buffers get (tag shard gts)
  unfolding deal
  deal_lem shard [] c = sym (append-nil (written c))
  deal_lem shard (gt ∷ gts) c = elim (Option-cases (get gt)) [
    | inl nil ↦ let ih = deal_lem shard gts c in ground arith
    | inr (buf, e) ↦
        let takes = wr.takes_all buf c in
        let ih = deal_lem shard gts (ops.append buf c).1 in
        let one_more = wr.appended buf c in
        let split = append_assoc (written c) (buf ∷ []) (buffers get (tag shard gts)) in
        ground arith
  ]

  flush_lem : (c : C) → written (flush ops c) ≡ written c
  unfolding flush
  flush_lem c = ground (arith, wr.flushed c, wr.closed (ops.flush c).1)

  Foreach-written :
      (bufs : List B) {s t : System A C}
      → written s.conn ≡ bufs ++ buffers get s.taken_off
      → Foreach ops get s t
      → written t.conn ≡ bufs ++ buffers get t.taken_off
  Foreach-written bufs v (starts_first e zero_) = v
  Foreach-written bufs v (starts_later e positive) = v
  Foreach-written bufs v (loads e) = v
  Foreach-written bufs v (takes n k shard e f) = v
  Foreach-written bufs v (swaps shard n k e f) = v
  Foreach-written bufs {s} v (deals shard n k e) =
      deal_lem shard s.queue.swap s.conn
      ∙ rw (v, buffers-append get s.taken_off (tag shard s.queue.swap)) (simp append_assoc)
  Foreach-written bufs v (settles n k e same) = v
  Foreach-written bufs v (goes_on n k e other) = v
  Foreach-written bufs {s} v (flushes k e) = flush_lem s.conn ∙ v
  Foreach-written bufs v (quits e) = v
  Foreach-written bufs v (starts_again e positive) = v
  Foreach-written bufs v (finishes e zero_) = v
  Foreach-written bufs v (ends_closing e f) = v
  Foreach-written bufs v (ends e f) = v

Add-conn :
    {A C : Type 0} {s t : System A C} → Add s t → (t.conn ≡ s.conn) × (t.taken_off ≡ s.taken_off)
Add-conn (enters shard active_ e) = (refl, refl)
Add-conn (appends k shard gt gts at e) = (refl, refl)
Add-conn (lists k shard at) = (refl, refl)
Add-conn (triggers_first e f) = (refl, refl)
Add-conn (triggers_later e f) = (refl, refl)

module _ {A B C : Type 0} {ops : Ops B C} {get : A → Option B} {written : C → List B} where
  Reach-written :
      {n : ℕ} {c : C} {s : System A C}
      → IsWriter ops written
      → Reach ops get n c s
      → written s.conn ≡ written c ++ buffers get s.taken_off
  Reach-written {c = c} wr start = sym (append-nil (written c))
  Reach-written wr (later r (by_add m)) = let (e, f) = Add-conn m in rw (e, f) (Reach-written wr r)
  Reach-written wr (later r (by_task m)) = Foreach-written get wr _ (Reach-written wr r) m
  Reach-written wr (later r (by_close (closes e))) = Reach-written wr r
  Reach-written wr (later r (by_close (sees_done e f))) = Reach-written wr r

  -- Where no goroutine is in `Add` past its lock of the shard and no task runs, is to be started or
  -- looks again, everything has been dealt with: each shard's getters in the order in which `Add` appended
  -- them, each once, and the connection has been given the buffers of the getters in the order of
  -- dealing, whatever the interleaving was. The queue has a shard, and the connection's writer takes
  -- what it is given.
  pub delivers_all :
      {n : ℕ} {c : C} {s : System A C}
      → 0 < n
      → IsWriter ops written
      → Reach ops get n c s
      → IsQuiet s
      → (written s.conn ≡ written c ++ buffers get s.taken_off)
        × ((i : ℕ) → of i s.taken_off ≡ of i s.added)
  delivers_all {s = s} h wr r quiet = (Reach-written wr r, λ i. sym (quiet_order i h r quiet))
