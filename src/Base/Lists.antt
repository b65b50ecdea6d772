-- ===== src/Base/Lists.antt =====
-- Lists measured and indexed by native numbers, under the library's names.
use Prim.Native.Nat.{ℕ, zero, suc, ◌+◌, ◌-◌, ◌≤◌, ◌<◌, min}
use mathlib.Core.Path.{◌≡◌, refl, sym, ap}
use mathlib.Core.Logic.{◌≢◌}
use mathlib.Core.List.{List, [], ◌∷◌, ◌++◌, map}
use mathlib.Core.Option.{Option, none, some}
use native.Mathlib.Omega.{arith}

-- A predicate on every element; it computes to tuples.
abbrev pub All {ℓ κ} : {A : Type ℓ} → (A → Type κ) → List A → Type κ
All P [] = Unit
All P (x ∷ xs) = P x × All P xs

module _ {ℓ} {A : Type ℓ} where
  abbrev pub length : List A → ℕ
  length [] = 0
  length (x ∷ xs) = suc (length xs)

  abbrev pub get_elem? : List A → ℕ → Option A
  get_elem? [] i = none
  get_elem? (x ∷ xs) zero = some x
  get_elem? (x ∷ xs) (suc i) = get_elem? xs i

  -- A write out of bounds changes nothing.
  abbrev pub set : List A → ℕ → A → List A
  set [] i v = []
  set (x ∷ xs) zero v = v ∷ xs
  set (x ∷ xs) (suc i) v = x ∷ set xs i v

  abbrev pub take : ℕ → List A → List A
  take zero xs = []
  take (suc n) [] = []
  take (suc n) (x ∷ xs) = x ∷ take n xs

  abbrev pub drop : ℕ → List A → List A
  drop zero xs = xs
  drop (suc n) [] = []
  drop (suc n) (x ∷ xs) = drop n xs

  abbrev pub replicate : ℕ → A → List A
  replicate zero x = []
  replicate (suc n) x = x ∷ replicate n x

module _ {ℓ} {A : Type ℓ} where
  pub length-append : (xs ys : List A) → length (xs ++ ys) ≡ length xs + length ys
  length-append [] ys = omega arith
  length-append (x ∷ xs) ys = omega (arith, length-append xs ys)

  pub length-set : (xs : List A) (i : ℕ) (v : A) → length (set xs i v) ≡ length xs
  length-set [] i v = refl
  length-set (x ∷ xs) zero v = refl
  length-set (x ∷ xs) (suc i) v = ap suc (length-set xs i v)

  pub length-replicate : (n : ℕ) (x : A) → length (replicate n x) ≡ n
  length-replicate zero x = refl
  length-replicate (suc n) x = ap suc (length-replicate n x)

  pub get_elem?-set_self :
      (xs : List A) (i : ℕ) (v : A) → i < length xs → get_elem? (set xs i v) i ≡ some v
  get_elem?-set_self [] i v h = elim h [ ]
  get_elem?-set_self (x ∷ xs) zero v h = refl
  get_elem?-set_self (x ∷ xs) (suc i) v h = get_elem?-set_self xs i v (omega arith)

  pub get_elem?-set_other :
      (xs : List A) (i j : ℕ) (v : A) → i ≢ j → get_elem? (set xs i v) j ≡ get_elem? xs j
  get_elem?-set_other [] i j v h = refl
  get_elem?-set_other (x ∷ xs) zero zero v h = absurd (h refl)
  get_elem?-set_other (x ∷ xs) zero (suc j) v h = refl
  get_elem?-set_other (x ∷ xs) (suc i) zero v h = refl
  get_elem?-set_other (x ∷ xs) (suc i) (suc j) v h =
      get_elem?-set_other xs i j v (λ e. h (ap suc e))

  pub length-zero : (xs : List A) → length xs ≡ 0 → xs ≡ []
  length-zero [] h = refl
  length-zero (x ∷ xs) h = absurd (omega arith)

  pub length-take : (n : ℕ) (xs : List A) → length (take n xs) ≡ min n (length xs)
  length-take zero xs = omega arith
  length-take (suc n) [] = omega arith
  length-take (suc n) (x ∷ xs) = omega (arith, length-take n xs)

  pub length-drop : (n : ℕ) (xs : List A) → length (drop n xs) ≡ length xs - n
  length-drop zero xs = omega arith
  length-drop (suc n) [] = omega arith
  length-drop (suc n) (x ∷ xs) = omega (arith, length-drop n xs)

  pub take-append-drop : (n : ℕ) (xs : List A) → take n xs ++ drop n xs ≡ xs
  take-append-drop zero xs = refl
  take-append-drop (suc n) [] = refl
  take-append-drop (suc n) (x ∷ xs) = ap (◌∷◌ x) (take-append-drop n xs)

  pub take_all : (n : ℕ) (xs : List A) → length xs ≤ n → take n xs ≡ xs
  take_all zero [] h = refl
  take_all zero (x ∷ xs) h = absurd (omega arith)
  take_all (suc n) [] h = refl
  take_all (suc n) (x ∷ xs) h = ap (◌∷◌ x) (take_all n xs (omega arith))

  pub drop_all : (n : ℕ) (xs : List A) → length xs ≤ n → drop n xs ≡ []
  drop_all zero [] h = refl
  drop_all zero (x ∷ xs) h = absurd (omega arith)
  drop_all (suc n) [] h = refl
  drop_all (suc n) (x ∷ xs) h = drop_all n xs (omega arith)

  -- `take` and `drop` of a concatenation, by where the cut falls.
  pub take-append_left : (n : ℕ) (xs ys : List A) → n ≤ length xs → take n (xs ++ ys) ≡ take n xs
  take-append_left zero xs ys h = refl
  take-append_left (suc n) [] ys h = absurd (omega arith)
  take-append_left (suc n) (x ∷ xs) ys h = ap (◌∷◌ x) (take-append_left n xs ys (omega arith))

  pub drop-append_left :
      (n : ℕ) (xs ys : List A) → n ≤ length xs → drop n (xs ++ ys) ≡ drop n xs ++ ys
  drop-append_left zero xs ys h = refl
  drop-append_left (suc n) [] ys h = absurd (omega arith)
  drop-append_left (suc n) (x ∷ xs) ys h = drop-append_left n xs ys (omega arith)

  pub take-append_right :
      (n : ℕ) (xs ys : List A) → length xs ≤ n → take n (xs ++ ys) ≡ xs ++ take (n - length xs) ys
  take-append_right n [] ys h = ap (λ k. take k ys) (omega arith)
  take-append_right zero (x ∷ xs) ys h = absurd (omega arith)
  take-append_right (suc n) (x ∷ xs) ys h =
      ap (◌∷◌ x)
        (rw (take-append_right n xs ys (omega arith)) (ap (λ k. xs ++ take k ys) (omega arith)))

  pub drop-append_right :
      (n : ℕ) (xs ys : List A) → length xs ≤ n → drop n (xs ++ ys) ≡ drop (n - length xs) ys
  drop-append_right n [] ys h = ap (λ k. drop k ys) (omega arith)
  drop-append_right zero (x ∷ xs) ys h = absurd (omega arith)
  drop-append_right (suc n) (x ∷ xs) ys h =
      rw (drop-append_right n xs ys (omega arith)) (ap (λ k. drop k ys) (omega arith))

  pub drop-drop : (m n : ℕ) (xs : List A) → drop m (drop n xs) ≡ drop (n + m) xs
  drop-drop m zero xs = let e : 0 + m ≡ m = omega arith in rw e
  drop-drop m (suc n) [] = rw (drop_all m [] (omega arith), drop_all (suc n + m) [] (omega arith))
  drop-drop m (suc n) (x ∷ xs) =
      let e : suc n + m ≡ suc (n + m) = omega arith in rw e (drop-drop m n xs)

  pub take-take : (m n : ℕ) (xs : List A) → m ≤ n → take m (take n xs) ≡ take m xs
  take-take zero n xs h = refl
  take-take (suc m) zero xs h = absurd (omega arith)
  take-take (suc m) (suc n) [] h = refl
  take-take (suc m) (suc n) (x ∷ xs) h = ap (◌∷◌ x) (take-take m n xs (omega arith))

  pub take_add : (m n : ℕ) (xs : List A) → take (m + n) xs ≡ take m xs ++ take n (drop m xs)
  take_add zero n xs = let e : 0 + n ≡ n = omega arith in rw e
  take_add (suc m) n [] = rw (take_all (suc m + n) [] (omega arith), take_all n [] (omega arith))
  take_add (suc m) n (x ∷ xs) =
      let e : suc m + n ≡ suc (m + n) = omega arith in rw e (ap (◌∷◌ x) (take_add m n xs))

  pub drop-take : (m n : ℕ) (xs : List A) → drop m (take n xs) ≡ take (n - m) (drop m xs)
  drop-take zero n xs = let e : n - 0 ≡ n = omega arith in rw e
  drop-take (suc m) zero xs =
      let e : 0 - suc m ≡ 0 = omega arith in rw e (drop_all (suc m) [] (omega arith))
  drop-take (suc m) (suc n) [] = sym (take_all (suc n - suc m) [] (omega arith))
  drop-take (suc m) (suc n) (x ∷ xs) =
      let e : suc n - suc m ≡ n - m = omega arith in rw e (drop-take m n xs)

  -- A chain with its part from position `r` on replaced.
  pub drop-splice :
      (r k : ℕ) (xs ys : List A) → r ≤ length xs → drop (r + k) (take r xs ++ ys) ≡ drop k ys
  drop-splice zero k xs ys h = let e : 0 + k ≡ k = omega arith in rw e
  drop-splice (suc r) k [] ys h = absurd (omega arith)
  drop-splice (suc r) k (x ∷ xs) ys h =
      let e : suc r + k ≡ suc (r + k) = omega arith in rw e (drop-splice r k xs ys (omega arith))

  pub length-splice :
      (r : ℕ) (xs ys : List A)
      → r ≤ length xs
      → length ys ≡ length (drop r xs)
      → length (take r xs ++ ys) ≡ length xs
  length-splice r xs ys h e =
      omega (arith, e, length-append (take r xs) ys, length-take r xs, length-drop r xs)

  pub get_elem?-drop :
      (i : ℕ) (xs : List A) {x : A} {ys : List A} → drop i xs ≡ x ∷ ys → get_elem? xs i ≡ some x
  get_elem?-drop zero [] h = cc
  get_elem?-drop zero (x ∷ xs) h = cc
  get_elem?-drop (suc i) [] h = cc
  get_elem?-drop (suc i) (x ∷ xs) h = get_elem?-drop i xs h

  pub drop-splice_before :
      (f w : ℕ) (xs ys : List A)
      → f ≤ w
      → w ≤ length xs
      → drop f (take w xs ++ ys) ≡ take (w - f) (drop f xs) ++ ys
  drop-splice_before f w xs ys h l =
      rw (drop-append_left f (take w xs) ys (omega (arith, length-take w xs)), drop-take f w xs)

  pub get_elem?-splice :
      (w k : ℕ) (xs ys : List A)
      → w ≤ length xs
      → get_elem? (take w xs ++ ys) (w + k) ≡ get_elem? ys k
  get_elem?-splice zero k xs ys h = let e : 0 + k ≡ k = omega arith in rw e
  get_elem?-splice (suc w) k [] ys h = absurd (omega arith)
  get_elem?-splice (suc w) k (x ∷ xs) ys h =
      let e : suc w + k ≡ suc (w + k) = omega arith in
      rw e (get_elem?-splice w k xs ys (omega arith))

  pub set-splice :
      (w k : ℕ) (xs ys : List A) (v : A)
      → w ≤ length xs
      → set (take w xs ++ ys) (w + k) v ≡ take w xs ++ set ys k v
  set-splice zero k xs ys v h = let e : 0 + k ≡ k = omega arith in rw e
  set-splice (suc w) k [] ys v h = absurd (omega arith)
  set-splice (suc w) k (x ∷ xs) ys v h =
      let e : suc w + k ≡ suc (w + k) = omega arith in
      rw e (ap (◌∷◌ x) (set-splice w k xs ys v (omega arith)))

  pub set-set : (xs : List A) (k : ℕ) (u v : A) → set (set xs k u) k v ≡ set xs k v
  set-set [] k u v = refl
  set-set (x ∷ xs) zero u v = refl
  set-set (x ∷ xs) (suc k) u v = ap (◌∷◌ x) (set-set xs k u v)

  pub drop-set : (xs : List A) (k : ℕ) (v : A) → drop (suc k) (set xs k v) ≡ drop (suc k) xs
  drop-set [] k v = refl
  drop-set (x ∷ xs) zero v = refl
  drop-set (x ∷ xs) (suc k) v = drop-set xs k v

  pub take_through :
      (i : ℕ) (xs : List A) {x : A} {ys : List A}
      → drop i xs ≡ x ∷ ys
      → take (suc i) xs ≡ take i xs ++ (x ∷ [])
  take_through zero [] h = cc
  take_through zero (x ∷ xs) h = ap (λ y. y ∷ []) (cc)
  take_through (suc i) [] h = cc
  take_through (suc i) (x ∷ xs) h = ap (◌∷◌ x) (take_through i xs h)

  pub drop_cons :
      (i : ℕ) (xs : List A) → i < length xs → (x : A) × (ys : List A) × (drop i xs ≡ x ∷ ys)
  drop_cons i [] h = absurd (omega arith)
  drop_cons zero (x ∷ xs) h = (x, xs, refl)
  drop_cons (suc i) (x ∷ xs) h = drop_cons i xs (omega arith)

  pub length-map {κ} : {B : Type κ} (xs : List A) (f : A → B) → length (map f xs) ≡ length xs
  length-map [] f = refl
  length-map (x ∷ xs) f = ap suc (length-map xs f)

  pub map-splice {κ} :
      {B : Type κ} (f : A → B) (r : ℕ) (xs ys : List A)
      → map f ys ≡ map f (drop r xs)
      → map f (take r xs ++ ys) ≡ map f xs
  map-splice f zero xs ys h = h
  map-splice f (suc r) [] ys h = h
  map-splice f (suc r) (x ∷ xs) ys h = ap (◌∷◌ (f x)) (map-splice f r xs ys h)

module _ {ℓ κ} {A : Type ℓ} (P : A → Type κ) where
  pub All-drop : (n : ℕ) (xs : List A) → All P xs → All P (drop n xs)
  All-drop zero xs h = h
  All-drop (suc n) [] h = h
  All-drop (suc n) (x ∷ xs) h = All-drop n xs h.1

  pub All-take : (n : ℕ) (xs : List A) → All P xs → All P (take n xs)
  All-take zero xs h = tt
  All-take (suc n) [] h = h
  All-take (suc n) (x ∷ xs) h = (h.0, All-take n xs h.1)

  pub All-append : (xs ys : List A) → All P xs → All P ys → All P (xs ++ ys)
  All-append [] ys hx hy = hy
  All-append (x ∷ xs) ys hx hy = (hx.0, All-append xs ys hx.1 hy)
