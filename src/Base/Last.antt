-- ===== src/Base/Last.antt =====
-- The last element of a list, by its position.
use Prim.Native.Nat.{suc}
use mathlib.Core.Path.{◌≡◌, refl, ap}
use mathlib.Core.List.{List, [], ◌∷◌, ◌++◌}
use mathlib.Core.Option.{some}
use netpoll.Base.Lists.{length, get_elem?, set, take}

module _ {ℓ} {A : Type ℓ} where
  pub get_elem?-last : (xs : List A) (x : A) → get_elem? (xs ++ (x ∷ [])) (length xs) ≡ some x
  get_elem?-last [] x = refl
  get_elem?-last (y ∷ xs) x = get_elem?-last xs x

  pub set-last : (xs : List A) (x y : A) → set (xs ++ (x ∷ [])) (length xs) y ≡ xs ++ (y ∷ [])
  set-last [] x y = refl
  set-last (z ∷ xs) x y = ap (◌∷◌ z) (set-last xs x y)

  pub take-last : (xs : List A) (x : A) → take (suc (length xs)) (xs ++ (x ∷ [])) ≡ xs ++ (x ∷ [])
  take-last [] x = refl
  take-last (y ∷ xs) x = ap (◌∷◌ y) (take-last xs x)
