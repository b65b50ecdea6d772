-- ===== src/PollManager/Run.antt =====
-- poll_manager.go: `Run` gives the manager as many polls as it is to have.
use netpoll.Base.{
  ℕ, zero, suc, ◌+◌, ◌-◌, ◌≤◌, ◌<◌, ◌≡◌, refl, sym, ap, ◌∙◌, inl, inr, true, Option, some, List, [],
  ◌∷◌, ◌++◌, append-nil, arith, ltb, ◌==◌, Bool-cases, length, take, drop, length-append,
  length-take, take_all, drop_all, take-append_left, pos,
}
use netpoll.PollManager.{
  Balance, Manager, rebalance, open_polls, open_calls, use_polls, grow, run_loops, run,
}

-- The balance picks from the manager's polls, and has counted `accepted` picks.
pub record IsManager (accepted : ℕ) (m : Manager) : Type 0 where
  pub balance : Balance
  pub set_up : m.balance ≡ some balance
  pub same_polls : balance.polls ≡ m.polls
  pub size : balance.poll_size ≡ length m.polls
  pub counted : balance.accepted ≡ accepted

-- What `Run` leaves.
pub record Ran (n accepted : ℕ) (m m' : Manager) : Type 0 where
  pub count : length m'.polls ≡ n
  pub kept : take (length m.polls) m'.polls ≡ take n m.polls
  pub closed : m'.closed ≡ m.closed ++ drop n m.polls
  pub same_status : m'.status ≡ m.status
  pub valid : IsManager accepted m'

use_polls-IsManager :
    (open_poll : ℕ → Option ℕ) (polls : List ℕ) {accepted : ℕ} (m : Manager)
    → IsManager accepted m
    → (b : Balance) × (use_polls open_poll polls m
        ≡ some (true, record m { polls = polls; balance = some b }))
      × IsManager accepted (record m { polls = polls; balance = some b })
unfolding use_polls rebalance
use_polls-IsManager open_poll polls m v = (
  rebalance polls v.balance,
  rw v.set_up,
  record {
    balance = rebalance polls v.balance;
    set_up = refl;
    same_polls = refl;
    size = refl;
    counted = v.counted;
  },
)

module _ (open_poll : ℕ → Option ℕ) (opens : (k : ℕ) → (poll : ℕ) × (open_poll k ≡ some poll)) where
  open_polls_lem :
      (k at : ℕ) → (polls : List ℕ) × (open_polls open_poll k at ≡ some polls) × (length polls ≡ k)
  unfolding open_polls
  open_polls_lem zero at = ([], refl, refl)
  open_polls_lem (suc k) at =
      let (poll, e) = opens at in
      let (polls, f, size) = open_polls_lem k (at + 1) in (poll ∷ polls, rw (e, f), ap suc size)

  run_loops-Ran :
      (n : ℕ) {accepted : ℕ} (m : Manager)
      → IsManager accepted m
      → (m' : Manager) × (run_loops open_poll (pos n) m ≡ some (true, m')) × Ran n accepted m m'
  unfolding run_loops grow
  run_loops-Ran n m v = elim (Bool-cases (n == length m.polls)) [
    | inl same ↦
        let e : n ≡ length m.polls = ground arith in
        (
          m,
          rw same,
          record {
            count = sym e;
            kept = rw e;
            closed = rw (drop_all n m.polls (omega (arith, e)), append-nil m.closed);
            same_status = refl;
            valid = v;
          },
        )
    | inr other ↦ elim (Bool-cases (ltb n (length m.polls))) [
      | inl fewer ↦
          let less : n < length m.polls = ground arith in
          let size : length (take n m.polls) ≡ n = omega (arith, length-take n m.polls) in
          let x =
            use_polls-IsManager open_poll (take n m.polls)
              (record m { closed = m.closed ++ drop n m.polls })
              (record {
                balance = v.balance;
                set_up = v.set_up;
                same_polls = v.same_polls;
                size = v.size;
                counted = v.counted;
              }) in
          (
            record m {
              closed = m.closed ++ drop n m.polls;
              polls = take n m.polls;
              balance = some x.0;
            },
            rw (other, fewer, x.1),
            record {
              count = size;
              kept = take_all (length m.polls) (take n m.polls) (omega arith);
              closed = refl;
              same_status = refl;
              valid = x.2;
            },
          )
      | inr more ↦
          let le : length m.polls ≤ n = ground arith in
          let (new, e, size) = open_polls_lem (n - length m.polls) m.opened in
          let calls = m.opened + open_calls open_poll (n - length m.polls) m.opened in
          let x =
            use_polls-IsManager open_poll (m.polls ++ new) (record m { opened = calls })
              (record {
                balance = v.balance;
                set_up = v.set_up;
                same_polls = v.same_polls;
                size = v.size;
                counted = v.counted;
              }) in
          (
            record m { opened = calls; polls = m.polls ++ new; balance = some x.0 },
            rw (other, more, e, x.1),
            record {
              count = omega (arith, length-append m.polls new);
              kept =
                  take-append_left (length m.polls) m.polls new (omega arith)
                  ∙ take_all (length m.polls) m.polls (omega arith)
                  ∙ sym (take_all n m.polls le);
              closed = rw (drop_all n m.polls le, append-nil m.closed);
              same_status = refl;
              valid = x.2;
            },
          )
    ]
  ]

  pub run-Ran :
      (n : ℕ) {accepted : ℕ} (m : Manager)
      → IsManager accepted m
      → m.num_loops ≡ pos n
      → (m' : Manager) × (run open_poll m ≡ some (true, m')) × Ran n accepted m m'
  run-Ran n m v loops =
      let (m', runs, ran) = run_loops-Ran n m v in
      (m', ap (λ l. run_loops open_poll l m) loops ∙ runs, ran)
