-- ===== src/PollManager/Pick.antt =====
-- poll_manager.go and poll_loadbalance.go: `Pick` returns one of the manager's polls.
use native.Mathlib.Nat.{mod-lt}
use netpoll.Base.{
  ℕ, zero, suc, ◌+◌, ◌-◌, ◌%◌, ◌^◌, ◌<◌, ◌≡◌, refl, sym, ap, ◌∙◌, false, Option, none, some, List,
  arith, ltb, ◌==◌, lt→ltb, ◌>>=◌, length, get_elem?, get_elem?-drop, drop_cons, pos,
}
use netpoll.PollManager.{
  LoadBalance, round_robin, random, Balance, Status, uninitialized, initializing, initialized,
  Manager, close, round_robin_index, open_polls, grow, run_loops, pick_by, pick_balanced, after_run,
  pick_from, pick,
}
use netpoll.PollManager.Run.{IsManager, Ran, run-Ran}

-- The outcome of a `Pick`: a poll of the manager, which keeps its polls.
pub record Picked (m m' : Manager) (poll : ℕ) : Type 0 where
  pub index : ℕ
  pub at : get_elem? m'.polls index ≡ some poll
  pub same_polls : m'.polls ≡ m.polls
  pub started : m'.status ≡ m.status
  pub counted : ℕ
  pub valid : IsManager counted m'

status-IsManager :
    {accepted : ℕ} {m : Manager} {status : Status}
    → IsManager accepted m
    → IsManager accepted (record m { status = status })
status-IsManager v = record {
  balance = v.balance;
  set_up = v.set_up;
  same_polls = v.same_polls;
  size = v.size;
  counted = v.counted;
}

get_elem?-inside :
    {A : Type 0} (xs : List A) (i : ℕ) → i < length xs → (x : A) × (get_elem? xs i ≡ some x)
get_elem?-inside xs i h = let (x, ys, e) = drop_cons i xs h in (x, get_elem?-drop i xs e)

module _ (open_poll : ℕ → Option ℕ) (intn : ℕ → ℕ) (intn_lt : (n : ℕ) → 0 < n → intn n < n) where
  open_polls-fails : (k at : ℕ) → 0 < k → open_poll at ≡ none → open_polls open_poll k at ≡ none
  unfolding open_polls
  open_polls-fails zero at p e = absurd (omega arith)
  open_polls-fails (suc k) at p e = rw e

  pick_by_lem :
      (kind : LoadBalance) (b : Balance)
      → 0 < length b.polls
      → b.poll_size ≡ length b.polls
      → b.accepted + 1 < 2 ^ 63
      → (poll : ℕ) × (b' : Balance) × (index : ℕ) × (pick_by open_poll intn kind b
          ≡ some (poll, b'))
        × (get_elem? b.polls index ≡ some poll)
        × (b'.polls ≡ b.polls)
        × (b'.poll_size ≡ b.poll_size)
  unfolding pick_by round_robin_index
  pick_by_lem round_robin b p size low =
      let acc : (b.accepted + 1) % 2 ^ 64 ≡ b.accepted + 1 = omega arith in
      let i = (b.accepted + 1) % b.poll_size in
      let inside : i < length b.polls =
        omega (arith, size, mod-lt (b.accepted + 1) {m = b.poll_size} (omega (arith, size, p))) in
      let some_polls : (b.poll_size == 0) ≡ false = ground arith in
      let (poll, at) = get_elem?-inside b.polls i inside in
      (
        poll,
        record b { accepted = b.accepted + 1 },
        i,
        rw (acc, some_polls, lt→ltb (b.accepted + 1) (2 ^ 63) low, at),
        at,
        refl,
        refl,
      )
  pick_by_lem random b p size low =
      let some_polls : (b.poll_size == 0) ≡ false = ground arith in
      let (poll, at) =
        get_elem?-inside b.polls (intn b.poll_size)
          (omega (arith, size, intn_lt b.poll_size (omega (arith, size, p)))) in
      (poll, b, intn b.poll_size, rw (some_polls, at), at, refl, refl)

  pick_balanced-Picked :
      {accepted : ℕ} (m : Manager)
      → IsManager accepted m
      → 0 < length m.polls
      → accepted + 1 < 2 ^ 63
      → (poll : ℕ) × (m' : Manager) × (pick_balanced open_poll intn m ≡ some (poll, m'))
        × Picked m m' poll
  unfolding pick_balanced
  pick_balanced-Picked m v p low =
      let b = v.balance in
      let (poll, b', index, picks, at, polls, size) =
        pick_by_lem b.kind b (rw v.same_polls p) (v.size ∙ ap length (sym v.same_polls))
          (omega (arith, v.counted, low)) in
      (
        poll,
        record m { balance = some b' },
        rw (v.set_up, picks),
        record {
          index = index;
          at = rw (← v.same_polls) at;
          same_polls = refl;
          started = refl;
          counted = b'.accepted;
          valid = record {
            balance = b';
            set_up = refl;
            same_polls = polls ∙ v.same_polls;
            size = size ∙ v.size;
            counted = refl;
          };
        },
      )

  -- The first `Pick` after `SetNumLoops(n)` with `0 < n`, where polls can be opened, runs the
  -- manager and returns one of its then `n` polls. The manager satisfies `IsManager`, and has
  -- picked fewer than `2 ^ 63 - 1` times; `intn n` is below `n`.
  pub pick_first :
      ((k : ℕ) → (poll : ℕ) × (open_poll k ≡ some poll))
      → (n : ℕ) {accepted : ℕ} (m : Manager) → IsManager accepted m
      → accepted + 1 < 2 ^ 63
      → m.status ≡ uninitialized
      → m.num_loops ≡ pos n
      → 0 < n
      → (poll : ℕ) × (started : Manager) × (m' : Manager) × (pick open_poll intn m
          ≡ some (poll, m'))
        × Ran n accepted (record m { status = initializing }) started
        × Picked (record started { status = initialized }) m' poll
  unfolding pick_from after_run
  pick_first opens n {accepted} m v low fresh loops p =
      let (started, runs, ran) =
        run-Ran open_poll opens n (record m { status = initializing }) (status-IsManager v) loops in
      let (poll, m', picks, picked) =
        pick_balanced-Picked (record started { status = initialized }) (status-IsManager ran.valid)
          (omega (arith, ran.count, p)) low in
      (
        poll,
        started,
        m',
        ap (λ s. pick_from open_poll intn s m) fresh ∙ rw (runs, picks),
        ran,
        picked,
      )

  -- A later `Pick` returns one of the polls, and runs nothing. The manager satisfies `IsManager`,
  -- has a poll and has been run, and has picked fewer than `2 ^ 63 - 1` times; `intn n` is below
  -- `n`.
  pub pick_next :
      {accepted : ℕ} (m : Manager)
      → IsManager accepted m
      → accepted + 1 < 2 ^ 63
      → m.status ≡ initialized
      → 0 < length m.polls
      → (poll : ℕ) × (m' : Manager) × (pick open_poll intn m ≡ some (poll, m')) × Picked m m' poll
  unfolding pick_from
  pick_next m v low ready p =
      let (poll, m', picks, picked) = pick_balanced-Picked m v p low in
      (poll, m', ap (λ s. pick_from open_poll intn s m) ready ∙ picks, picked)

  -- If the first poll that lacks cannot be opened, `Run` closes the manager, which drops the
  -- balance; `Pick` then calls a method of nil and panics. The manager has not been run since
  -- `SetNumLoops`.
  pub pick_failed :
      (n : ℕ) (m : Manager)
      → m.status ≡ uninitialized
      → m.num_loops ≡ pos n
      → length m.polls < n
      → open_poll m.opened ≡ none
      → pick open_poll intn m ≡ none
  unfolding pick_from after_run run_loops grow close pick_balanced
  pick_failed n m fresh loops lacks fails =
      let none_opens : open_polls open_poll (n - length m.polls) m.opened ≡ none =
        open_polls-fails (n - length m.polls) m.opened (omega arith) fails in
      let other : (n == length m.polls) ≡ false = ground arith in
      let more : ltb n (length m.polls) ≡ false = ground arith in
      ap (λ s. pick_from open_poll intn s m) fresh
      ∙ ap
          (λ l.
            run_loops open_poll l (record m { status = initializing }) >>= after_run open_poll intn)
          loops
      ∙ rw (other, more, none_opens)
