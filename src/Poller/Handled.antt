-- ===== src/Poller/Handled.antt =====
-- poll_default_linux.go, `handler`: no operator is left held, and which ones are hung up.
use netpoll.Base.{
  ℕ, zero, suc, ◌≡◌, refl, sym, ap, ◌∙◌, subst, ◌⊎◌, inl, inr, Bool, true, false, ◌&&◌, ◌||◌, not,
  Option, none, some, List, [], ◌∷◌, ◌++◌, append-nil, append_assoc, arith, ◌==◌, if◌then◌else◌,
  Bool-cases, Option-cases, get_elem?, set,
}
use netpoll.Poller.{
  Event, Answers, Poll, done, append_hup, reads_badly, total_left, sends_badly, handle_write,
  handle_error, handle_hup, handle_read, onhups, acquire, handle_held, handle, unless_stopped,
  handler,
}

-- Whether an event hangs its operator up: its read fails, or the peer has hung up and nothing was
-- read, or there is an error in its queue, or its write fails where no error is reported.
abbrev pub hangs : Event → Answers → Bool
hangs e a =
    reads_badly e a
    || ((e.trigger_hup && (total_left e a == 0))
        || ((e.trigger_error && not a.no_error) || (not e.trigger_error && sends_badly e a)))

-- Whether the operator with the number `i` is in use.
abbrev is_one : Option ℕ → Bool
is_one none = false
is_one (some state) = state == 1

abbrev in_use : List ℕ → Option ℕ → Bool
in_use states none = false
in_use states (some i) = is_one (get_elem? states i)

-- Whether an event ends the batch.
abbrev pub stops : List ℕ → Event → Answers → Bool
stops states e a = in_use states e.operator && (e.callbacks.wakes && a.stop)

abbrev number : Bool → Option ℕ → List ℕ
number true none = []
number true (some i) = i ∷ []
number false o = []

-- What an event adds to the operators that are hung up.
abbrev pub hung_by : List ℕ → Event → Answers → List ℕ
hung_by states e a =
    number (in_use states e.operator && (not e.callbacks.wakes && hangs e a)) e.operator

-- The operators that the batch hangs up, up to the event that ends it, and whether one does.
abbrev pub hung : List ℕ → List (Event × Answers) → List ℕ
hung states [] = []
hung states ((e, a) ∷ events) =
    let rest = hung states events in hung_by states e a ++ (if stops states e a then [] else rest)

abbrev pub stopped : List ℕ → List (Event × Answers) → Bool
stopped states [] = false
stopped states ((e, a) ∷ events) =
    let rest = stopped states events in if stops states e a then true else rest

set-set : (xs : List ℕ) (i v : ℕ) {x : ℕ} → get_elem? xs i ≡ some x → set (set xs i v) i x ≡ xs
set-set [] i v h = cc
set-set (y ∷ xs) zero v {x} h = let e : x ≡ y = cc in ap (λ z. z ∷ xs) e
set-set (y ∷ xs) (suc i) v h = ap (◌∷◌ y) (set-set xs i v h)

handle_read_lem :
    (i : ℕ) (e : Event) (a : Answers) (p : Poll)
    → handle_read i e a p ≡ (if hangs e a then append_hup i p else done i p)
unfolding handle_read handle_hup handle_error handle_write
handle_read_lem i e a p = ground arith

-- What one event makes of the poll.
record Handled (e : Event) (a : Answers) (p : Poll) (r : Bool × Poll) : Type 0 where
  stop : r.0 ≡ stops p.states e a
  states : r.1.states ≡ p.states
  hups : r.1.hups ≡ p.hups ++ hung_by p.states e a
  detached : r.1.detached ≡ p.detached ++ hung_by p.states e a
  hung_up : r.1.hung_up ≡ p.hung_up

handle-none :
    (e : Event) (a : Answers) (p : Poll)
    → in_use p.states e.operator ≡ false
    → Handled e a p (false, p)
handle-none e a p h =
    let nothing : hung_by p.states e a ≡ [] =
      ap (λ b. number (b && (not e.callbacks.wakes && hangs e a)) e.operator) h in
    record {
      stop = sym (ap (λ b. b && (e.callbacks.wakes && a.stop)) h);
      states = refl;
      hups = rw nothing (sym (append-nil p.hups));
      detached = rw nothing (sym (append-nil p.detached));
      hung_up = refl;
    }

-- An event of an operator in use, once it is let go: whether it stops the batch, and whether it
-- hangs the operator up.
Handled-by :
    (i : ℕ) (e : Event) (a : Answers) (p : Poll) (stop hang : Bool)
    → get_elem? p.states i ≡ some 1
    → stops p.states e a ≡ stop
    → hung_by p.states e a ≡ number hang (some i)
    → Handled e a p (
      stop,
      if hang
          then append_hup i (record p { states = set p.states i 2 })
          else done i (record p { states = set p.states i 2 }),
    )
unfolding append_hup done
Handled-by i e a p stop true use_ s h = record {
  stop = sym s;
  states = set-set p.states i 2 use_;
  hups = rw h;
  detached = rw h;
  hung_up = refl;
}
Handled-by i e a p stop false use_ s h = record {
  stop = sym s;
  states = set-set p.states i 2 use_;
  hups = rw h (sym (append-nil p.hups));
  detached = rw h (sym (append-nil p.detached));
  hung_up = refl;
}

handle-some :
    (i : ℕ) (e : Event) (a : Answers) (p : Poll)
    → e.operator ≡ some i
    → get_elem? p.states i ≡ some 1
    → Handled e a p (handle_held (some (i, record p { states = set p.states i 2 })) e a p)
unfolding handle_held
handle-some i e a p at use_ =
    let held : Poll = record p { states = set p.states i 2 } in
    let using : in_use p.states e.operator ≡ true = rw at (rw use_) in
    let hung_so : hung_by p.states e a ≡ number (not e.callbacks.wakes && hangs e a) e.operator =
      ap (λ b. number (b && (not e.callbacks.wakes && hangs e a)) e.operator) using in
    let stops_so : stops p.states e a ≡ (e.callbacks.wakes && a.stop) =
      ap (λ b. b && (e.callbacks.wakes && a.stop)) using in
    let here = λ (b : Bool). if b then (a.stop, done i held) else (false, handle_read i e a held) in
    elim (Bool-cases e.callbacks.wakes) [
      | inl wakes ↦
          subst (λ r. Handled e a p r) (sym (ap here wakes))
            (Handled-by i e a p a.stop false use_ (stops_so ∙ ap (λ b. b && a.stop) wakes)
              (hung_so ∙ ap (λ b. number (not b && hangs e a) e.operator) wakes))
      | inr other ↦
          subst (λ r. Handled e a p r)
            (sym (ap here other ∙ ap (λ q. (false, q)) (handle_read_lem i e a held)))
            (Handled-by i e a p false (hangs e a) use_ (stops_so ∙ ap (λ b. b && a.stop) other) (
              hung_so
              ∙ ap (λ b. number (not b && hangs e a) e.operator) other
              ∙ ap (number (hangs e a)) at))
    ]

acquire_lem :
    (i : ℕ) (p : Poll)
    → (acquire (some i) p ≡ some (i, record p { states = set p.states i 2 }))
        × (get_elem? p.states i ≡ some 1)
      ⊎ (acquire (some i) p ≡ none) × (in_use p.states (some i) ≡ false)
unfolding acquire
acquire_lem i p = elim (Option-cases (get_elem? p.states i)) [
  | inl nothing ↦ inr (rw nothing (refl, refl))
  | inr (state, there) ↦ elim (Bool-cases (state == 1)) [
    | inl used ↦
        let e : state ≡ 1 = ground arith in
        let taken = some (i, record p { states = set p.states i 2 }) in
        inl (rw there (ap (λ b. if b then taken else none) used), there ∙ ap some e)
    | inr other ↦
        let taken = some (i, record p { states = set p.states i 2 }) in
        inr (rw there (ap (λ b. if b then taken else none) other), rw there other)
  ]
]

handle-by :
    (o : Option ℕ) (e : Event) (a : Answers) (p : Poll)
    → e.operator ≡ o
    → Handled e a p (handle_held (acquire o p) e a p)
unfolding acquire handle_held
handle-by none e a p at = handle-none e a p (ap (in_use p.states) at)
handle-by (some i) e a p at = elim (acquire_lem i p) [
  | inl (takes, use_) ↦
      subst (λ o. Handled e a p (handle_held o e a p)) (sym takes) (handle-some i e a p at use_)
  | inr (leaves, free) ↦
      subst (λ o. Handled e a p (handle_held o e a p)) (sym leaves)
        (handle-none e a p (ap (in_use p.states) at ∙ free))
]

-- What a batch makes of the poll.
pub record Batch (events : List (Event × Answers)) (p : Poll) (r : Bool × Poll) : Type 0 where
  pub stop : r.0 ≡ stopped p.states events
  pub states : r.1.states ≡ p.states
  pub detached : r.1.detached ≡ p.detached ++ hung p.states events
  pub kept : r.1.hung_up ++ r.1.hups ≡ p.hung_up ++ (p.hups ++ hung p.states events)
  pub ended : (r.0 ≡ true) ⊎ (r.1.hups ≡ [])

Batch-cons :
    (e : Event) (a : Answers) (events : List (Event × Answers)) (p : Poll) (q : Bool × Poll)
    → Handled e a p q
    → Batch events q.1 (handler events q.1)
    → Batch ((e, a) ∷ events) p (unless_stopped q (handler events))
Batch-cons e a events p (true, p') h ih =
    let so : hung p.states ((e, a) ∷ events) ≡ hung_by p.states e a =
      ap (λ b. hung_by p.states e a ++ (if b then [] else hung p.states events)) (sym h.stop)
      ∙ append-nil (hung_by p.states e a) in
    record {
      stop = ap (λ b. if b then true else stopped p.states events) h.stop;
      states = h.states;
      detached = h.detached ∙ ap (λ l. p.detached ++ l) (sym so);
      kept = rw (h.hung_up, h.hups) (ap (λ l. p.hung_up ++ (p.hups ++ l)) (sym so));
      ended = inl refl;
    }
Batch-cons e a events p (false, p') h ih =
    let so : hung p.states ((e, a) ∷ events) ≡ hung_by p.states e a ++ hung p.states events =
      ap (λ b. hung_by p.states e a ++ (if b then [] else hung p.states events)) (sym h.stop) in
    let same = λ (st : List ℕ). hung st events in
    record {
      stop =
          ih.stop
          ∙ ap (λ st. stopped st events) h.states
          ∙ ap (λ b. if b then true else stopped p.states events) h.stop;
      states = ih.states ∙ h.states;
      detached =
          ih.detached
          ∙ ap (λ l. l ++ hung p'.states events) h.detached
          ∙ ap (λ st. (p.detached ++ hung_by p.states e a) ++ hung st events) h.states
          ∙ append_assoc p.detached (hung_by p.states e a) (hung p.states events)
          ∙ ap (λ l. p.detached ++ l) (sym so);
      kept =
          ih.kept
          ∙ ap (λ l. l ++ (p'.hups ++ hung p'.states events)) h.hung_up
          ∙ ap (λ l. p.hung_up ++ (l ++ hung p'.states events)) h.hups
          ∙ ap (λ st. p.hung_up ++ ((p.hups ++ hung_by p.states e a) ++ hung st events)) h.states
          ∙ ap (λ l. p.hung_up ++ l)
              (append_assoc p.hups (hung_by p.states e a) (hung p.states events))
          ∙ ap (λ l. p.hung_up ++ (p.hups ++ l)) (sym so);
      ended = ih.ended;
    }

-- One batch in `handler`: every operator's state word is as before, so that none is left held; the
-- operators that `hung` names have been detached, in order and each as often as it is named, and
-- they are hung up, or still in `hups` where an event of the eventfd has ended the batch.
pub handler-Batch : (events : List (Event × Answers)) (p : Poll) → Batch events p (handler events p)
unfolding handler onhups
handler-Batch [] p = record {
  stop = refl;
  states = refl;
  detached = sym (append-nil p.detached);
  kept = append-nil (p.hung_up ++ p.hups) ∙ ap (λ l. p.hung_up ++ l) (sym (append-nil p.hups));
  ended = inr refl;
}
handler-Batch ((e, a) ∷ events) p =
    Batch-cons e a events p (handle e a p) (handle-by e.operator e a p refl)
      (handler-Batch events (handle e a p).1)
