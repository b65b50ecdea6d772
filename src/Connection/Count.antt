-- ===== src/Connection/Count.antt =====
-- Counting the goroutines of connection_onevent.go by where they stand.
use netpoll.Base.{
  ℕ, zero, suc, ◌+◌, ◌≤◌, ◌≡◌, refl, ap, Bool, true, false, some, List, [], ◌∷◌, arith, get_elem?,
  set, replicate,
}
use netpoll.Connection.Protocol.{Pc, idle, idles}

abbrev pub num : Bool → ℕ
num true = 1
num false = 0

abbrev pub total : {P : Type 0} → (P → ℕ) → List P → ℕ
total w [] = 0
total w (p ∷ ps) = w p + total w ps

pub total-set :
    {P : Type 0} (w : P → ℕ) (ps : List P) (i : ℕ) {p : P} (q : P)
    → get_elem? ps i ≡ some p
    → total w (set ps i q) + w p ≡ total w ps + w q
total-set w [] i q h = cc
total-set w (x ∷ ps) zero {p} q h = let same : x ≡ p = cc in omega (arith, ap w same)
total-set w (x ∷ ps) (suc i) q h = omega (arith, total-set w ps i q h)

pub total-replicate :
    {P : Type 0} (w : P → ℕ) (n : ℕ) (p : P) → w p ≡ 0 → total w (replicate n p) ≡ 0
total-replicate w zero p h = refl
total-replicate w (suc n) p h = omega (arith, h, total-replicate w n p h)

pub total-idles : (w : Pc → ℕ) (n : ℕ) → w idle ≡ 0 → total w (idles n) ≡ 0
total-idles w zero h = refl
total-idles w (suc n) h = omega (arith, h, total-idles w n h)

pub num-le : (b : Bool) → num b ≤ 1
num-le true = omega arith
num-le false = omega arith

pub total-at :
    {P : Type 0} (w : P → ℕ) (ps : List P) (i : ℕ) {p : P}
    → get_elem? ps i ≡ some p
    → w p ≤ total w ps
total-at w [] i h = cc
total-at w (x ∷ ps) zero {p} h = let same : x ≡ p = cc in omega (arith, ap w same)
total-at w (x ∷ ps) (suc i) h = omega (arith, total-at w ps i h)
