-- ===== src/BTreeMap/Ext.antt =====
-- Two maps in order that read alike are equal.
use kolme.Prelude.{ℕ, ◌≡◌, refl, sym, subst, ◌∙◌, [], ◌∷◌, arith}
use mathlib.Core.Path.{ap₂}
use kolme.BTreeMap.{BTreeMap, get}
use kolme.BTreeMap.Order.{IsAbove, IsSorted, get-IsAbove, IsAbove-lt}

module _ {V : Type 0} where
  -- A map with an entry does not read as the empty one.
  not_empty : (k : ℕ) (w : V) (n : BTreeMap V) → get k [] ≡ get k ((k, w) ∷ n) → ⊥
  unfolding get
  not_empty k w n h = ground arith

  -- The heads agree.
  same_head :
      (j k : ℕ) (v w : V) (m n : BTreeMap V)
      → IsAbove j m
      → IsAbove k n
      → ((i : ℕ) → get i ((j, v) ∷ m) ≡ get i ((k, w) ∷ n))
      → (j ≡ k) × (v ≡ w)
  unfolding get
  same_head j k v w m n a b h = ground (
    arith,
    h j,
    h k,
    get-IsAbove j k n b,
    get-IsAbove k j m a,
    IsAbove-lt j k n,
    IsAbove-lt k j m,
  )

  same_tail :
      (k : ℕ) (v : V) (m n : BTreeMap V)
      → IsAbove k m
      → IsAbove k n
      → ((i : ℕ) → get i ((k, v) ∷ m) ≡ get i ((k, v) ∷ n))
      → (i : ℕ) → get i m ≡ get i n
  unfolding get
  same_tail k v m n a b h i = ground (arith, h i, get-IsAbove i k m a, get-IsAbove i k n b)

  pub map_ext : (m n : BTreeMap V) → IsSorted m → IsSorted n → ((i : ℕ) → get i m ≡ get i n) → m ≡ n
  map_ext [] [] s t h = refl
  map_ext [] ((k, w) ∷ n) s t h = absurd (not_empty k w n (h k))
  map_ext ((j, v) ∷ m) [] s t h = absurd (not_empty j v m (sym (h j)))
  map_ext ((j, v) ∷ m) ((k, w) ∷ n) s t h =
      let (keys, values) = same_head j k v w m n s.0 t.0 h in
      let below : IsAbove k m = subst (λ i. IsAbove i m) keys s.0 in
      let same : (i : ℕ) → get i ((k, w) ∷ m) ≡ get i ((k, w) ∷ n) =
        λ i. ap₂ (λ x y. get i ((x, y) ∷ m)) (sym keys) (sym values) ∙ h i in
      let tails = map_ext m n s.1 t.1 (same_tail k w m n below t.0 same) in cc (keys, values, tails)
