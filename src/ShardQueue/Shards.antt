-- ===== src/ShardQueue/Shards.antt =====
-- Counting the shards of mux/shard_queue.go: how often a shard is to be visited, and whether it
-- has getters.
use netpoll.Base.{
  ℕ, zero, suc, ◌+◌, ◌≤◌, ◌<◌, ◌≡◌, refl, sym, ap, ◌≢◌, inl, inr, Bool, true, false, Option, none,
  some, List, [], ◌∷◌, ◌++◌, arith, ltb, ◌==◌, if◌then◌else◌, Bool-cases, length, get_elem?, set,
  get_elem?-set_self, get_elem?-set_other,
}
use netpoll.ShardQueue.{is_empty}
use netpoll.ShardQueue.System.{remove, triggering_if}

abbrev pub one : ℕ → ℕ → ℕ
one i s = if s == i then 1 else 0

abbrev pub occurs : ℕ → List ℕ → ℕ
occurs i [] = 0
occurs i (s ∷ ss) = one i s + occurs i ss

-- 1 for a shard with getters
abbrev pub mark : {X : Type 0} → Option (List X) → ℕ
mark none = 0
mark (some []) = 0
mark (some (_ ∷ _)) = 1

pub occurs-append : (i : ℕ) (xs ys : List ℕ) → occurs i (xs ++ ys) ≡ occurs i xs + occurs i ys
occurs-append i [] ys = omega arith
occurs-append i (x ∷ xs) ys = omega (arith, occurs-append i xs ys)

pub occurs-remove :
    (i k : ℕ) (xs : List ℕ) {s : ℕ}
    → get_elem? xs k ≡ some s
    → occurs i xs ≡ one i s + occurs i (remove k xs)
occurs-remove i k [] h = cc
occurs-remove i zero (x ∷ xs) {s} h = let e : x ≡ s = cc in ap (λ y. one i y + occurs i xs) e
occurs-remove i (suc k) (x ∷ xs) h = omega (arith, occurs-remove i k xs h)

pub occurs-at : (k : ℕ) (xs : List ℕ) {s : ℕ} → get_elem? xs k ≡ some s → 0 < occurs s xs
occurs-at k [] h = cc
occurs-at zero (x ∷ xs) {s} h = let e : x ≡ s = cc in ground arith
occurs-at (suc k) (x ∷ xs) h = omega (arith, occurs-at k xs h)

-- How often the shards below `n` occur.
abbrev sum_below : ℕ → List ℕ → ℕ
sum_below zero xs = 0
sum_below (suc n) xs = occurs n xs + sum_below n xs

sum_below-cons :
    (n x : ℕ) (xs : List ℕ) → sum_below n (x ∷ xs) ≡ (if ltb x n then 1 else 0) + sum_below n xs
sum_below-cons zero x xs = ground arith
sum_below-cons (suc n) x xs = ground (arith, sum_below-cons n x xs)

length-sum_below :
    (n : ℕ) (xs : List ℕ) → ((i : ℕ) → n ≤ i → occurs i xs ≡ 0) → length xs ≤ sum_below n xs
length-sum_below n [] below = omega arith
length-sum_below n (x ∷ xs) below = elim (Bool-cases (ltb x n)) [
  | inl lt ↦
      let ih = length-sum_below n xs (λ i h. let e = below i h in omega arith) in
      let sum = sum_below-cons n x xs in ground arith
  | inr ge ↦ let h : n ≤ x = ground arith in let e = below x h in ground arith
]

sum_below-le : (n : ℕ) (xs : List ℕ) → ((i : ℕ) → occurs i xs ≤ 1) → sum_below n xs ≤ n
sum_below-le zero xs h = omega arith
sum_below-le (suc n) xs h = omega (arith, h n, sum_below-le n xs h)

-- Shards below `n` of which none occurs twice are at most `n`.
pub length-le :
    (n : ℕ) (xs : List ℕ)
    → ((i : ℕ) → n ≤ i → occurs i xs ≡ 0)
    → ((i : ℕ) → occurs i xs ≤ 1)
    → length xs ≤ n
length-le n xs below single = omega (arith, length-sum_below n xs below, sum_below-le n xs single)

module _ {X : Type 0} where
  pub mark-le : (o : Option (List X)) → mark o ≤ 1
  mark-le none = omega arith
  mark-le (some []) = omega arith
  mark-le (some (x ∷ xs)) = omega arith

  pub mark-zero : {xs : List X} (o : Option (List X)) → o ≡ some xs → mark o ≡ 0 → xs ≡ []
  mark-zero none e h = cc
  mark-zero (some []) e h = cc
  mark-zero (some (x ∷ xs)) e h = absurd (omega arith)

  pub get_elem?-none : (xs : List X) (i : ℕ) → length xs ≤ i → get_elem? xs i ≡ none
  get_elem?-none [] i h = refl
  get_elem?-none (x ∷ xs) zero h = absurd (omega arith)
  get_elem?-none (x ∷ xs) (suc i) h = get_elem?-none xs i (omega arith)

  pub get_elem?-length : (xs : List X) (i : ℕ) {x : X} → get_elem? xs i ≡ some x → i < length xs
  get_elem?-length [] i h = cc
  get_elem?-length (x ∷ xs) zero h = omega arith
  get_elem?-length (x ∷ xs) (suc i) h = omega (arith, get_elem?-length xs i h)

mark_grows :
    {X : Type 0} (i shard : ℕ) (old : List X) (gt : X) (gts : List X) (ss : List ℕ)
    → (shard == i) ≡ true
    → occurs i (triggering_if (is_empty old) shard ss) + mark (some old)
      ≡ occurs i ss + mark (some (old ++ (gt ∷ gts)))
mark_grows i shard [] gt gts ss same = rw same (omega arith)
mark_grows i shard (x ∷ old) gt gts ss same = refl

same_count :
    (i shard : ℕ) (b : Bool) (ss : List ℕ)
    → (shard == i) ≡ false
    → occurs i (triggering_if b shard ss) ≡ occurs i ss
same_count i shard true ss other = rw other (omega arith)
same_count i shard false ss other = refl

-- Getters appended to a shard mark it; it has to be visited where it was not marked.
pub mark-append :
    {X : Type 0} (i shard : ℕ) (getters : List (List X)) (old : List X) (gt : X) (gts : List X)
    (ss : List ℕ)
    → get_elem? getters shard ≡ some old
    → occurs i (triggering_if (is_empty old) shard ss) + mark (get_elem? getters i)
      ≡ occurs i ss + mark (get_elem? (set getters shard (old ++ (gt ∷ gts))) i)
mark-append i shard getters old gt gts ss h = elim (Bool-cases (shard == i)) [
  | inl same ↦
      let e : shard ≡ i = ground arith in
      let here =
        get_elem?-set_self getters shard (old ++ (gt ∷ gts)) (get_elem?-length getters shard h) in
      let before : get_elem? getters i ≡ some old = rw (sym e) h in
      let after : get_elem? (set getters shard (old ++ (gt ∷ gts))) i ≡ some (old ++ (gt ∷ gts)) =
        rw (sym e) here in
      rw (before, after) (mark_grows i shard old gt gts ss same)
  | inr other ↦
      let ne : shard ≢ i = ground arith in
      rw (get_elem?-set_other getters shard i (old ++ (gt ∷ gts)) ne)
        (ap (λ k. k + mark (get_elem? getters i)) (same_count i shard (is_empty old) ss other))
]

-- A shard whose getters are taken is not marked any more.
pub mark-clear :
    {X : Type 0} (i shard : ℕ) (getters : List (List X)) (old : List X)
    → get_elem? getters shard ≡ some old
    → mark (get_elem? getters shard) ≡ 1
    → one i shard + mark (get_elem? (set getters shard []) i) ≡ mark (get_elem? getters i)
mark-clear i shard getters old h m = elim (Bool-cases (shard == i)) [
  | inl same ↦
      let e : shard ≡ i = ground arith in
      let here = get_elem?-set_self getters shard [] (get_elem?-length getters shard h) in
      let m' : mark (get_elem? getters i) ≡ 1 = rw (sym e) m in
      let here' : get_elem? (set getters shard []) i ≡ some [] = rw (sym e) here in
      rw (same, here', m') (omega arith)
  | inr other ↦
      let ne : shard ≢ i = ground arith in
      rw (other, get_elem?-set_other getters shard i [] ne) (omega arith)
]
