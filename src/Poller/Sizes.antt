-- ===== src/Poller/Sizes.antt =====
-- poll_default_linux.go, `Wait`: the size of the array of events.
use netpoll.Base.{
  ℕ, suc, ◌*◌, ◌^◌, ◌≤◌, ◌<◌, ◌≡◌, ap, ◌∙◌, inl, inr, Bool, true, false, ◌&&◌, List, [], ◌∷◌, arith,
  ltb, ◌==◌, if◌then◌else◌, Bool-cases, All,
}
use native.Mathlib.Nat.{pow-succ'}
use netpoll.Poller.{next_size, Waited, got_events, interrupted, broken, wait_sizes}

-- 128 doubled at most ten times: the size of the array of events, which ends at 128 * 1024.
abbrev pub IsSize : ℕ → Type 0
IsSize size = (k : ℕ) × (k ≤ 10) × (size ≡ 128 * 2 ^ k)

below_ten : (k size : ℕ) → k ≤ 10 → size ≡ 128 * 2 ^ k → size < 128 * 1024 → suc k ≤ 10
below_ten k size le e lt = elim (Bool-cases (k == 10)) [
  | inl last ↦
      let ten : k ≡ 10 = ground arith in
      let whole : size ≡ 131072 = e ∙ ap (λ j. 128 * 2 ^ j) ten in absurd (omega arith)
  | inr other ↦ ground arith
]

doubled : (k size : ℕ) → size ≡ 128 * 2 ^ k → size * 2 ≡ 128 * 2 ^ suc k
doubled k size e = omega (arith, e, pow-succ' 2 k)

next_size-IsSize : (n size : ℕ) → IsSize size → IsSize (next_size n size)
unfolding next_size
next_size-IsSize n size (k, le, e) = elim (Bool-cases ((n == size) && ltb size (128 * 1024))) [
  | inl grows ↦ rw grows (suc k, below_ten k size le e (ground arith), doubled k size e)
  | inr stays ↦ rw stays (k, le, e)
]

All-unless :
    (stop : Bool) (sizes : List ℕ) → All IsSize sizes → All IsSize (if stop then [] else sizes)
All-unless true sizes v = _
All-unless false sizes v = v

-- `Wait` that starts with a valid size asks for `128 * 2 ^ k` events with `k ≤ 10` in every round,
-- whatever `EpollWait` gives.
pub wait_sizes-IsSize :
    (rounds : List (Waited × Bool)) (n size : ℕ)
    → IsSize size
    → All IsSize (wait_sizes rounds n size)
unfolding wait_sizes
wait_sizes-IsSize [] n size v = _
wait_sizes-IsSize ((got_events m, closed) ∷ rounds) n size v =
    let v' = next_size-IsSize n size v in
    (
      v',
      All-unless (closed && ltb 0 m) (wait_sizes rounds m (next_size n size))
          (wait_sizes-IsSize rounds m (next_size n size) v'),
    )
wait_sizes-IsSize ((interrupted, closed) ∷ rounds) n size v =
    let v' = next_size-IsSize n size v in (v', wait_sizes-IsSize rounds 0 (next_size n size) v')
wait_sizes-IsSize ((broken, closed) ∷ rounds) n size v = (next_size-IsSize n size v, _)
