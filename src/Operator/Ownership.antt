-- ===== src/Operator/Ownership.antt =====
-- fd_operator_cache.go: who owns an operator, and what a well-formed cache is.
use netpoll.Base.{
  ℕ, zero, suc, ◌<◌, ◌≡◌, refl, sym, ap, ◌∙◌, ◌≢◌, Option, none, some, List, [], ◌∷◌, ◌++◌, arith,
  All, length, get_elem?, set, All-append,
}
use netpoll.Operator.{FdOperator, OperatorCache}

-- In the chain of `first`, in `freelist`, or handed out.
pub data Owner : Type 0 where
  chained freeing taken : Owner

abbrev pub OwnedBy : Owner → List Owner → List ℕ → Type 0
OwnedBy o owners = All (λ i. get_elem? owners i ≡ some o)

abbrev pub Distinct : List ℕ → Type 0
Distinct [] = Unit {0}
Distinct (x ∷ xs) = All (λ y. y ≢ x) xs × Distinct xs

-- `xs` are the operators of the chain, in order.
abbrev pub Linked : List FdOperator → Option ℕ → List ℕ → Type 0
Linked ops first [] = first ≡ none
Linked ops first (x ∷ xs) =
    (first ≡ some x) × (op : FdOperator) × (get_elem? ops x ≡ some op) × Linked ops op.next xs

pub record IsChained (c : OperatorCache) (owners : List Owner) : Type 0 where
  pub size : length owners ≡ length c.cache
  pub chain : List ℕ
  pub linked : Linked c.cache c.first chain
  pub owned : OwnedBy chained owners chain
  pub once : Distinct chain

pub record IsCache (c : OperatorCache) (owners : List Owner) : Type 0 where
  pub links : IsChained c owners
  pub in_freelist : OwnedBy freeing owners c.freelist
  pub freed_once : Distinct c.freelist

-- The owners of operators that a refill adds, and of those that `free` gives back.
abbrev pub chaineds : ℕ → List Owner
chaineds zero = []
chaineds (suc n) = chained ∷ chaineds n

abbrev pub give_back : List ℕ → List Owner → List Owner
give_back [] owners = owners
give_back (i ∷ is) owners = give_back is (set owners i chained)

module _ {ℓ} {A : Type ℓ} where
  pub get_elem?-append :
      (xs ys : List A) (i : ℕ) {v : A} → get_elem? xs i ≡ some v → get_elem? (xs ++ ys) i ≡ some v
  get_elem?-append [] ys i h = cc
  get_elem?-append (x ∷ xs) ys zero h = h
  get_elem?-append (x ∷ xs) ys (suc i) h = get_elem?-append xs ys i h

  pub get_elem?-set_other :
      (xs : List A) (i j : ℕ) (v : A) → j ≢ i → get_elem? (set xs i v) j ≡ get_elem? xs j
  get_elem?-set_other [] i j v h = refl
  get_elem?-set_other (x ∷ xs) zero zero v h = absurd (h refl)
  get_elem?-set_other (x ∷ xs) zero (suc j) v h = refl
  get_elem?-set_other (x ∷ xs) (suc i) zero v h = refl
  get_elem?-set_other (x ∷ xs) (suc i) (suc j) v h =
      get_elem?-set_other xs i j v (λ e. h (ap suc e))

  pub get_elem?-lt : (xs : List A) (i : ℕ) {v : A} → get_elem? xs i ≡ some v → i < length xs
  get_elem?-lt [] i h = cc
  get_elem?-lt (x ∷ xs) zero h = omega arith
  get_elem?-lt (x ∷ xs) (suc i) h = omega (arith, get_elem?-lt xs i h)

pub All-map : {P Q : ℕ → Type 0} (xs : List ℕ) → ((i : ℕ) → P i → Q i) → All P xs → All Q xs
All-map [] f h = tt
All-map (x ∷ xs) f h = (f x h.0, All-map xs f h.1)

pub All-zip :
    {P Q R : ℕ → Type 0} (xs : List ℕ)
    → ((i : ℕ) → P i → Q i → R i)
    → All P xs
    → All Q xs
    → All R xs
All-zip [] f h k = tt
All-zip (x ∷ xs) f h k = (f x h.0 k.0, All-zip xs f h.1 k.1)

-- An operator of one owner is none of another's.
pub OwnedBy-differs :
    (owners : List Owner) (o : Owner) (xs : List ℕ) (i : ℕ) {o' : Owner}
    → (o ≢ o')
    → get_elem? owners i ≡ some o'
    → OwnedBy o owners xs
    → All (λ y. y ≢ i) xs
OwnedBy-differs owners o xs i differ at h =
    All-map xs (λ y e same. differ (some-injective (sym e ∙ ap (get_elem? owners) same ∙ at))) h
  where
    some-injective : {x y : Owner} → some x ≡ some y → x ≡ y
    some-injective e = cc

-- A change of another operator leaves the owner of these.
pub OwnedBy-set :
    (owners : List Owner) (o v : Owner) (xs : List ℕ) (i : ℕ)
    → All (λ y. y ≢ i) xs
    → OwnedBy o owners xs
    → OwnedBy o (set owners i v) xs
OwnedBy-set owners o v xs i = All-zip xs (λ y differ e. get_elem?-set_other owners i y v differ ∙ e)

pub OwnedBy-append :
    (owners more : List Owner) (o : Owner) (xs : List ℕ)
    → OwnedBy o owners xs
    → OwnedBy o (owners ++ more) xs
OwnedBy-append owners more o xs = All-map xs (λ i e. get_elem?-append owners more i e)

pub Linked-set :
    (ops : List FdOperator) (first : Option ℕ) (xs : List ℕ) (i : ℕ) (op : FdOperator)
    → All (λ y. y ≢ i) xs
    → Linked ops first xs
    → Linked (set ops i op) first xs
Linked-set ops first [] i op differ h = h
Linked-set ops first (x ∷ xs) i op differ h = (
  h.0,
  h.1,
  get_elem?-set_other ops i x op differ.0 ∙ h.2,
  Linked-set ops h.1.next xs i op differ.1 h.3,
)

pub Linked-append :
    (ops more : List FdOperator) (first : Option ℕ) (xs : List ℕ)
    → Linked ops first xs
    → Linked (ops ++ more) first xs
Linked-append ops more first [] h = h
Linked-append ops more first (x ∷ xs) h =
    (h.0, h.1, get_elem?-append ops more x h.2, Linked-append ops more h.1.next xs h.3)

pub Distinct-snoc :
    (xs : List ℕ) (i : ℕ) → Distinct xs → All (λ y. y ≢ i) xs → Distinct (xs ++ (i ∷ []))
Distinct-snoc [] i h k = (tt, tt)
Distinct-snoc (x ∷ xs) i h k =
    (All-append (λ y. y ≢ x) xs (i ∷ []) h.0 ((λ e. k.0 (sym e)), tt), Distinct-snoc xs i h.1 k.1)
