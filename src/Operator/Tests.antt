-- ===== src/Operator/Tests.antt =====
-- An operator cache of fd_operator_cache.go with two operators.
use netpoll.Base.{ℕ, ◌≡◌, refl, none, some, List, [], ◌∷◌, ◌++◌, get_elem?, set}
use netpoll.Operator.{FdOperator, OperatorCache, new_operator_cache, add_op, add_ops, pop, alloc}
use netpoll.Operator.Ownership.{Owner, chained, taken, IsCache, chaineds}
use netpoll.Operator.Cycle.{alloc-IsCache}

abbrev fresh : FdOperator
fresh = record { fd = 0; detached = 0; next = none; state = 0 }

abbrev working : FdOperator
working = record { fd = 7; detached = 1; next = some 0; state = 1 }

-- The second operator is handed out.
abbrev busy : OperatorCache
busy = record { first = some 0; cache = fresh ∷ working ∷ []; freelist = [] }

abbrev busy_owners : List Owner
busy_owners = chained ∷ taken ∷ []

busy-IsCache : IsCache busy busy_owners
busy-IsCache = record {
  links = record {
    size = refl;
    chain = 0 ∷ [];
    linked = (refl, fresh, refl, refl);
    owned = (refl, tt);
    once = (tt, tt);
  };
  in_freelist = tt;
  freed_once = tt;
}

-- And here it waits to be freed.
abbrev waiting : OperatorCache
waiting = record { first = some 0; cache = fresh ∷ working ∷ []; freelist = 1 ∷ [] }

alloc_twice :
    pop (add_ops 2 new_operator_cache)
    ≡ some (
      1,
      record { first = some 0; cache = fresh ∷ record fresh { next = some 0 } ∷ []; freelist = [] },
    )
unfolding pop add_ops add_op new_operator_cache
alloc_twice = refl

alloc-IsCache_example :
    (i : ℕ) × (c' : OperatorCache) × (k : ℕ) × (alloc 20 busy ≡ some (i, c'))
    × (get_elem? (busy_owners ++ chaineds k) i ≡ some chained)
    × IsCache c' (set (busy_owners ++ chaineds k) i taken)
alloc-IsCache_example = alloc-IsCache 20 busy busy_owners busy-IsCache
