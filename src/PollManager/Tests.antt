-- ===== src/PollManager/Tests.antt =====
-- A manager of poll_manager.go with two polls.
use netpoll.Base.{ℕ, ◌+◌, ◌≡◌, refl, Option, none, some, [], ◌∷◌, arith, pos}
use netpoll.PollManager.{round_robin, uninitialized, initialized, Manager, pick}
use netpoll.PollManager.Run.{IsManager}
use netpoll.PollManager.Pick.{pick_failed}

abbrev running : Manager
running = record {
  num_loops = pos 3;
  status = uninitialized;
  balance = some (record { kind = round_robin; polls = 10 ∷ 11 ∷ []; accepted = 5; poll_size = 2 });
  polls = 10 ∷ 11 ∷ [];
  opened = 2;
  closed = [];
}

abbrev started : Manager
started = record running { status = initialized }

started-IsManager : IsManager 5 started
started-IsManager = record {
  balance = record { kind = round_robin; polls = 10 ∷ 11 ∷ []; accepted = 5; poll_size = 2 };
  set_up = refl;
  same_polls = refl;
  size = refl;
  counted = refl;
}

-- Every call of `openPoll` gives a poll, or none does.
abbrev opening : ℕ → Option ℕ
opening k = some (10 + k)

abbrev refusing : ℕ → Option ℕ
refusing k = none

abbrev lowest : ℕ → ℕ
lowest n = 0

pick_failed_example : pick refusing lowest running ≡ none
pick_failed_example = pick_failed refusing lowest (λ n p. p) 3 running refl refl (omega arith) refl
