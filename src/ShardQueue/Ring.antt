-- ===== src/ShardQueue/Ring.antt =====
-- The list of triggered shards in mux/shard_queue.go as a ring: what stands in it between `r` and
-- `w`.
use netpoll.Base.{
  ℕ, suc, ◌+◌, ◌-◌, ◌%◌, ◌≤◌, ◌<◌, ◌≡◌, ap, ◌∙◌, ◌⊎◌, inl, some, List, [], ◌∷◌, ◌++◌, arith, length,
  get_elem?, set, get_elem?-set_self, get_elem?-set_other,
}

-- The entries `xs` stand behind `r`, up to `w`, in the ring `list` of `n` places.
abbrev pub Ring : List ℕ → ℕ → ℕ → List ℕ → ℕ → Type 0
Ring list n r [] w = r ≡ w
Ring list n r (x ∷ xs) w = (get_elem? list ((r + 1) % n) ≡ some x) × Ring list n ((r + 1) % n) xs w

-- `p` is `d` places behind `r`.
abbrev Ahead : ℕ → ℕ → ℕ → ℕ → Type 0
Ahead n r d p = (p ≡ r + d) ⊎ (p + n ≡ r + d)

pub mod_next :
    (n r : ℕ) → r < n → ((r + 1) % n ≡ r + 1) × (r + 1 < n) ⊎ ((r + 1) % n ≡ 0) × (r + 1 ≡ n)
mod_next n r h = grind arith

pub mod_below : (n r : ℕ) → r < n → (r + 1) % n < n
mod_below n r h = grind (arith, mod_next n r h)

-- The end of the entries is as far ahead as there are entries.
pub Ring-Ahead :
    (list : List ℕ) (n r : ℕ) (xs : List ℕ) (w : ℕ)
    → r < n
    → length xs ≤ n
    → Ring list n r xs w
    → Ahead n r (length xs) w
Ring-Ahead list n r [] w h le e = inl (omega (arith, e))
Ring-Ahead list n r (x ∷ xs) w h le (_, rest) =
    let ahead = Ring-Ahead list n ((r + 1) % n) xs w (mod_below n r h) (omega arith) rest in
    grind (arith, ahead, mod_next n r h)

-- A write ahead of all the entries leaves them.
Ring-set :
    (list : List ℕ) (n r : ℕ) (xs : List ℕ) (w p d v : ℕ)
    → r < n
    → p < n
    → length xs < d
    → d ≤ n
    → Ahead n r d p
    → Ring list n r xs w
    → Ring (set list p v) n r xs w
Ring-set list n r [] w p d v h hp lt le ahead e = e
Ring-set list n r (x ∷ xs) w p d v h hp lt le ahead (here, rest) = (
  get_elem?-set_other list p ((r + 1) % n) v (λ e. grind (arith, mod_next n r h)) ∙ here,
  Ring-set list n ((r + 1) % n) xs w p (d - 1) v (mod_below n r h) hp (omega arith) (omega arith)
      (grind (arith, mod_next n r h)) rest,
)

Ring-extend :
    (list : List ℕ) (n r : ℕ) (xs : List ℕ) (w s : ℕ)
    → Ring list n r xs w
    → get_elem? list ((w + 1) % n) ≡ some s
    → Ring list n r (xs ++ (s ∷ [])) ((w + 1) % n)
Ring-extend list n r [] w s e here = (rw e here, ap (λ k. (k + 1) % n) e)
Ring-extend list n r (x ∷ xs) w s (first, rest) here =
    (first, Ring-extend list n ((r + 1) % n) xs w s rest here)

-- What `triggering` writes in the ring stands behind the other entries, where there is room.
pub Ring-push :
    (list : List ℕ) (n r : ℕ) (xs : List ℕ) (w s : ℕ)
    → length list ≡ n
    → r < n
    → w < n
    → length xs < n
    → Ring list n r xs w
    → Ring (set list ((w + 1) % n) s) n r (xs ++ (s ∷ [])) ((w + 1) % n)
Ring-push list n r xs w s size hr hw room ring =
    let below = mod_below n w hw in
    Ring-extend (set list ((w + 1) % n) s) n r xs w s
      (Ring-set list n r xs w ((w + 1) % n) (suc (length xs)) s hr below (omega arith) (omega arith)
        (grind (arith, Ring-Ahead list n r xs w hr (omega arith) ring, mod_next n w hw)) ring)
      (get_elem?-set_self list ((w + 1) % n) s (omega (arith, size, below)))
