-- ===== src/Tests/Pool.antt =====
-- A mempool on a cache that forgets nothing.
use kolme.Prelude.{
  ◌&&◌, ◌||◌, not, ℕ, ◌≡◌, refl, true, false, Option, none, some, List, [], ◌∷◌, ok, is_ok, is_some,
  arith, inl, inr, ◌==◌, if◌then◌else◌, Bool-cases,
}
use kolme.Prelude.Int.{ℤ}
use kolme.Mempool.{LruCache, IsCache, MempoolState, in_block, block_tx, add}
use kolme.Mempool.Exclusion.{
  Call, proposes, lands, gossips, calls, IsExclusive, calls-IsExclusive, add_accepts,
}
use kolme.Tests.Transactions.{signed}
use kolme.Tests.Blocks.{fifth}

abbrev Entries : Type 0 → Type 0
Entries V = List (ℕ × V)

abbrev find : {V : Type 0} → ℕ → Entries V → Option V
find k [] = none
find k ((j, v) ∷ c) = if j == k then some v else find k c

abbrev forget : {V : Type 0} → ℕ → Entries V → Entries V
forget k [] = []
forget k ((j, v) ∷ c) = if j == k then forget k c else (j, v) ∷ forget k c

abbrev change : {V : Type 0} → ℕ → (V → V) → Entries V → Entries V
change k f [] = []
change k f ((j, v) ∷ c) = (j, if j == k then f v else v) ∷ change k f c

abbrev values : {V : Type 0} → Entries V → List V
values [] = []
values ((j, v) ∷ c) = v ∷ values c

abbrev last : {V : Type 0} → Entries V → Option V
last [] = none
last ((j, v) ∷ []) = some v
last (x ∷ y ∷ c) = last (y ∷ c)

abbrev large_cache : LruCache Entries
large_cache = record {
  contains = λ k c. is_some (find k c);
  get = λ k c. (find k c, c);
  put = λ k v c. (k, v) ∷ forget k c;
  pop = λ k c. (find k c, forget k c);
  modify = change;
  peek_lru = last;
  entries = values;
}

find-forget : {V : Type 0} (k : ℕ) (c : Entries V) → is_some (find k (forget k c)) ≡ false
find-forget k [] = refl
find-forget k ((j, v) ∷ c) = ground (arith, find-forget k c)

forget-find :
    {V : Type 0} (j k : ℕ) (c : Entries V)
    → is_some (find j (forget k c)) ≡ true
    → is_some (find j c) ≡ true
forget-find j k [] h = h
forget-find j k ((i, v) ∷ c) h = ground (arith, forget-find j k c)

find-change :
    {V : Type 0} (j k : ℕ) (f : V → V) (c : Entries V)
    → is_some (find j (change k f c)) ≡ is_some (find j c)
find-change j k f [] = refl
find-change j k f ((i, v) ∷ c) = ground (arith, find-change j k f c)

large_cache-IsCache : IsCache large_cache
large_cache-IsCache = record {
  contains-get = λ j k c. refl;
  get-contains = λ k c. refl;
  contains-put = λ k v c. ground arith;
  put-contains = λ j k v c h. elim (Bool-cases (k == j)) [
    | inl e ↦ inl (ground (arith, e))
    | inr e ↦ inr (forget-find j k c (ground (arith, e, h)))
  ];
  contains-pop = λ k c. find-forget k c;
  pop-contains = λ j k c h. forget-find j k c h;
  contains-modify = λ j k f c. find-change j k f c;
}

abbrev empty : MempoolState Entries ℤ ℕ
empty = record { txs = []; blocked = [] }

empty-IsExclusive : IsExclusive large_cache (λ text. text) empty
unfolding IsExclusive
empty-IsExclusive key = refl

-- A transaction is proposed, noted, lands in a block, and is proposed again.
abbrev history : List (Call ℤ ℕ)
history = proposes signed ∷ gossips 5 77 ∷ lands fifth ∷ proposes signed ∷ []

calls-IsExclusive_example :
    IsExclusive large_cache (λ text. text) (calls large_cache (λ text. text) history empty)
calls-IsExclusive_example =
    calls-IsExclusive large_cache (λ text. text) large_cache-IsCache history empty empty-IsExclusive

abbrev landed : MempoolState Entries ℤ ℕ
landed = (block_tx large_cache (λ text. text) 77 (in_block fifth) empty).1

add_accepts_example :
    (is_ok (add large_cache (λ text. text) signed landed).0
      ≡ (not (large_cache.contains 77 landed.blocked) && not (large_cache.contains 77 landed.txs)))
    × (large_cache.contains 77 (add large_cache (λ text. text) signed landed).1.txs ≡ (
        is_ok (add large_cache (λ text. text) signed landed).0
        || large_cache.contains 77 landed.txs))
    × (large_cache.contains 5 (add large_cache (λ text. text) signed landed).1.blocked
        ≡ large_cache.contains 5 landed.blocked)
add_accepts_example = add_accepts large_cache (λ text. text) large_cache-IsCache signed landed 5

proposed : (add large_cache (λ text. text) signed empty).0 ≡ ok tt
unfolding add
proposed = refl
