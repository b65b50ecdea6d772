-- ===== src/Poller/Control.antt =====
-- fd_operator.go, `Control`, and poll_default_linux.go, `Control`: the registration of one file
-- descriptor with epoll.
use netpoll.Base.{◌+◌, ◌≡◌, Bool, true, false, not, Option, some, ltb, if◌then◌else◌, ◌>>=◌}
use netpoll.Operator.{FdOperator, inuse}

pub data PollEvent : Type 0 where
  readable writable detach r2rw rw2r : PollEvent

-- `epoll_ctl` for one descriptor, on the state `E` of the kernel: whether it succeeds, and the state.
pub record Epoll (E : Type 0) : Type 0 where
  pub add : PollEvent → E → Bool × E
  pub modify : PollEvent → E → Bool × E
  pub delete : E → Bool × E

-- What epoll_ctl(2) documents: an add fails where the descriptor is registered, and the others where
-- it is not.
pub record IsEpoll {E : Type 0} (ep : Epoll E) (registered : E → Bool) : Type 0 where
  pub adds : (event : PollEvent) (e : E) → (ep.add event e).0 ≡ not (registered e)
  pub added : (event : PollEvent) (e : E) → registered (ep.add event e).1 ≡ true
  pub modifies : (event : PollEvent) (e : E) → (ep.modify event e).0 ≡ registered e
  pub modified : (event : PollEvent) (e : E) → registered (ep.modify event e).1 ≡ registered e
  pub deletes : (e : E) → (ep.delete e).0 ≡ registered e
  pub deleted : (e : E) → registered (ep.delete e).1 ≡ false

module _ {E : Type 0} (ep : Epoll E) where
  -- `Control` of the poll; `none` is a wait in `inuse` for the poller.
  unfoldable pub poll_control : PollEvent → FdOperator → E → Option (Bool × FdOperator × E)
  poll_control readable op e = do
    op' ← inuse op
    some ((ep.add readable e).0, op', (ep.add readable e).1)
  poll_control writable op e = do
    op' ← inuse op
    some ((ep.add writable e).0, op', (ep.add writable e).1)
  poll_control detach op e = some ((ep.delete e).0, op, (ep.delete e).1)
  poll_control r2rw op e = some ((ep.modify r2rw e).0, op, (ep.modify r2rw e).1)
  poll_control rw2r op e = some ((ep.modify rw2r e).0, op, (ep.modify rw2r e).1)

  abbrev pub is_detach : PollEvent → Bool
  is_detach detach = true
  is_detach _ = false

  -- `Control` of the operator: only the first `PollDetach` reaches the poll.
  unfoldable pub control : PollEvent → FdOperator → E → Option (Bool × FdOperator × E)
  unfolding poll_control
  control event op e =
      if is_detach event
      then if ltb 1 (op.detached + 1)
        then some (true, record op { detached = op.detached + 1 }, e)
        else poll_control detach (record op { detached = op.detached + 1 }) e
      else poll_control event op e
