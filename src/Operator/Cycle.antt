-- ===== src/Operator/Cycle.antt =====
-- fd_operator_cache.go: `alloc`, `freeable` and `free` keep the cache well formed, and hand out no
-- operator twice.
use netpoll.Base.{
  ℕ, zero, suc, ◌<◌, ◌≡◌, refl, sym, ◌∙◌, ◌≢◌, inl, inr, Option, none, some, List, [], ◌∷◌, ◌++◌,
  append-nil, append_assoc, arith, ◌==◌, Bool-cases, All, length, get_elem?, set, length-append,
  length-set, get_elem?-set_self, All-append, get_elem?-last,
}
use netpoll.Operator.{
  FdOperator, OperatorCache, reset, unused, add_op, add_ops, refill, pop, refilled, alloc, freeable,
  new_operator_cache,
}
use netpoll.Operator.Ownership.{
  Owner, chained, freeing, taken, OwnedBy, Distinct, Linked, IsCache, chaineds, get_elem?-lt,
  All-map, OwnedBy-differs, OwnedBy-set, OwnedBy-append, Linked-set, Linked-append, Distinct-snoc,
}

pub new_operator_cache-IsCache : IsCache new_operator_cache []
unfolding new_operator_cache
new_operator_cache-IsCache = record {
  links = record { size = refl; chain = []; linked = refl; owned = tt; once = tt };
  in_freelist = tt;
  freed_once = tt;
}

add_op-IsCache :
    (c : OperatorCache) (owners : List Owner)
    → IsCache c owners
    → IsCache (add_op c) (owners ++ (chained ∷ []))
unfolding add_op
add_op-IsCache c owners v =
    let links = v.links in
    record {
      links = record {
        size = omega (
          arith,
          links.size,
          length-append owners (chained ∷ []),
          length-append c.cache (new ∷ []),
        );
        chain = length c.cache ∷ links.chain;
        linked = (
          refl,
          new,
          get_elem?-last c.cache new,
          Linked-append c.cache (new ∷ []) c.first links.chain links.linked,
        );
        owned = (
          rw (← links.size) (get_elem?-last owners chained),
          OwnedBy-append owners (chained ∷ []) chained links.chain links.owned,
        );
        once = (
          All-map links.chain
              (λ i e same. absurd (omega (arith, get_elem?-lt owners i e, links.size, same)))
              links.owned,
          links.once,
        );
      };
      in_freelist = OwnedBy-append owners (chained ∷ []) freeing c.freelist v.in_freelist;
      freed_once = v.freed_once;
    }
  where
    new : FdOperator
    new = record { fd = 0; detached = 0; next = c.first; state = 0 }

add_ops-IsCache :
    (n : ℕ) (c : OperatorCache) (owners : List Owner)
    → IsCache c owners
    → IsCache (add_ops n c) (owners ++ chaineds n)
unfolding add_ops
add_ops-IsCache zero c owners v = rw (append-nil owners) v
add_ops-IsCache (suc n) c owners v =
    rw (← append_assoc owners (chained ∷ []) (chaineds n))
      (add_ops-IsCache n (add_op c) (owners ++ (chained ∷ [])) (add_op-IsCache c owners v))

-- After a refill the chain is not empty.
add_ops-first :
    (n : ℕ) (c : OperatorCache) {j : ℕ}
    → c.first ≡ some j
    → (i : ℕ) × ((add_ops n c).first ≡ some i)
unfolding add_ops add_op
add_ops-first zero c {j} e = (j, e)
add_ops-first (suc n) c e = add_ops-first n (add_op c) refl

add_ops-some : (n : ℕ) (c : OperatorCache) → 0 < n → (i : ℕ) × ((add_ops n c).first ≡ some i)
unfolding add_ops add_op
add_ops-some zero c p = absurd (omega arith)
add_ops-some (suc n) c p = add_ops-first n (add_op c) refl

pop_chain :
    (c : OperatorCache) (owners : List Owner) (i : ℕ) (xs : List ℕ)
    → c.first ≡ some i
    → Linked c.cache c.first xs
    → OwnedBy chained owners xs
    → Distinct xs
    → IsCache c owners
    → (c' : OperatorCache) × (pop c ≡ some (i, c'))
      × (get_elem? owners i ≡ some chained)
      × IsCache c' (set owners i taken)
unfolding pop
pop_chain c owners i [] e linked owned once v = cc
pop_chain c owners i (x ∷ xs) e (head, op, at, rest) owned once v =
    let same : x ≡ i = cc in
    let at_i : get_elem? c.cache i ≡ some op = rw (← same) at in
    let owned_i : get_elem? owners i ≡ some chained = rw (← same) owned.0 in
    let others : All (λ y. y ≢ i) xs = rw (← same) once.0 in
    let freeing_others =
      OwnedBy-differs owners freeing c.freelist i (λ d. cc) owned_i v.in_freelist in
    (
      record c { first = op.next },
      rw (e, at_i),
      owned_i,
      record {
        links = record {
          size = length-set owners i taken ∙ v.links.size;
          chain = xs;
          linked = rest;
          owned = OwnedBy-set owners chained taken xs i others owned.1;
          once = once.1;
        };
        in_freelist = OwnedBy-set owners freeing taken c.freelist i freeing_others v.in_freelist;
        freed_once = v.freed_once;
      },
    )

refilled_lem :
    (first : Option ℕ) (per_block : ℕ) (c : OperatorCache) (owners : List Owner)
    → c.first ≡ first
    → IsCache c owners
    → (i : ℕ) × (k : ℕ) × ((refilled first per_block c).first ≡ some i)
      × IsCache (refilled first per_block c) (owners ++ chaineds k)
unfolding refilled
refilled_lem none per_block c owners e v =
    let n = refill per_block in
    let (i, first) = add_ops-some n c (ground arith) in (i, n, first, add_ops-IsCache n c owners v)
refilled_lem (some i) per_block c owners e v = (i, 0, e, rw (append-nil owners) v)

-- `alloc` returns an operator that is neither handed out nor waiting to be freed: one of the chain,
-- or one of those that it adds to an empty chain. From then on that one is handed out, the others
-- keep their owners, and the cache stays well formed. No call of `alloc` fails. The cache satisfies
-- `IsCache`.
pub alloc-IsCache :
    (per_block : ℕ) (c : OperatorCache) (owners : List Owner)
    → IsCache c owners
    → (i : ℕ) × (c' : OperatorCache) × (k : ℕ) × (alloc per_block c ≡ some (i, c'))
      × (get_elem? (owners ++ chaineds k) i ≡ some chained)
      × IsCache c' (set (owners ++ chaineds k) i taken)
unfolding alloc
alloc-IsCache per_block c owners v =
    let (i, k, e, w) = refilled_lem c.first per_block c owners refl v in
    let x =
      pop_chain (refilled c.first per_block c) (owners ++ chaineds k) i w.links.chain e
        w.links.linked w.links.owned w.links.once w in
    (i, x.0, k, x.1, x.2, x.3)

unused_lem : (op : FdOperator) → op.state < 2 → unused op ≡ some (record op { state = 0 })
unfolding unused
unused_lem op low = elim (Bool-cases (op.state == 1)) [
  | inl one ↦ rw one
  | inr other ↦ let idle : op.state ≡ 0 = ground arith in rw (other, idle) refl
]

-- `freeable` takes back an operator that is handed out and not being worked on: it is reset, and
-- waits in `freelist`, where it is once. The cache satisfies `IsCache`.
pub freeable-IsCache :
    (i : ℕ) (c : OperatorCache) (owners : List Owner) (op : FdOperator)
    → IsCache c owners
    → get_elem? owners i ≡ some taken
    → get_elem? c.cache i ≡ some op
    → op.state < 2
    → (c' : OperatorCache) × (freeable i c ≡ some c')
      × (get_elem? c'.cache i ≡ some (record op { fd = 0; detached = 0; state = 0 }))
      × IsCache c' (set owners i freeing)
unfolding freeable reset
freeable-IsCache i c owners op v owner at low =
    let cleared : FdOperator = record op { fd = 0; detached = 0; state = 0 } in
    let links = v.links in
    let chain_others = OwnedBy-differs owners chained links.chain i (λ d. cc) owner links.owned in
    let free_others = OwnedBy-differs owners freeing c.freelist i (λ d. cc) owner v.in_freelist in
    let inside : i < length c.cache = get_elem?-lt c.cache i at in
    (
      record c { cache = set c.cache i cleared; freelist = c.freelist ++ (i ∷ []) },
      rw (at, unused_lem op low),
      get_elem?-set_self c.cache i cleared inside,
      record {
        links = record {
          size = length-set owners i freeing ∙ links.size ∙ sym (length-set c.cache i cleared);
          chain = links.chain;
          linked = Linked-set c.cache c.first links.chain i cleared chain_others links.linked;
          owned = OwnedBy-set owners chained freeing links.chain i chain_others links.owned;
          once = links.once;
        };
        in_freelist =
            All-append (λ y. get_elem? (set owners i freeing) y ≡ some freeing) c.freelist (i ∷ [])
              (OwnedBy-set owners freeing freeing c.freelist i free_others v.in_freelist)
              (get_elem?-set_self owners i freeing (get_elem?-lt owners i owner), tt);
        freed_once = Distinct-snoc c.freelist i v.freed_once free_others;
      },
    )
