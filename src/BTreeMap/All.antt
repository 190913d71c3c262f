-- ===== src/BTreeMap/All.antt =====
-- A predicate on every value of a map, and on every entry.
use kolme.Prelude.{ℕ, ==_refl, refl, ◌≡◌, some, [], ◌∷◌, arith}
use kolme.BTreeMap.{BTreeMap, get, insert, remove}
use kolme.BTreeMap.Order.{IsAbove, IsSorted, get-IsAbove}

module _ {ℓ κ} {V : Type ℓ} (P : V → Type κ) where
  abbrev pub All : BTreeMap V → Type κ
  All [] = Unit
  All ((k, v) ∷ m) = P v × All m

  pub All-get : (k : ℕ) (v : V) (m : BTreeMap V) → All m → get k m ≡ some v → P v
  unfolding get
  All-get k v [] a e = cc
  All-get k v ((j, w) ∷ m) a e = ground (arith, All-get k v m a.1)

  pub All-insert : (k : ℕ) (v : V) (m : BTreeMap V) → P v → All m → All (insert k v m)
  unfolding insert
  All-insert k v [] p a = (p, tt)
  All-insert k v ((j, w) ∷ m) p a = ground (arith, All-insert k v m p a.1)

  pub All-remove : (k : ℕ) (m : BTreeMap V) → All m → All (remove k m)
  unfolding remove
  All-remove k [] a = tt
  All-remove k ((j, w) ∷ m) a = ground (arith, All-remove k m a.1)

module _ {ℓ κ} {V : Type ℓ} (P : ℕ → V → Type κ) where
  abbrev pub AllEntries : BTreeMap V → Type κ
  AllEntries [] = Unit
  AllEntries ((k, v) ∷ m) = P k v × AllEntries m

  get-cons_self : (k : ℕ) (v : V) (m : BTreeMap V) → get k ((k, v) ∷ m) ≡ some v
  unfolding get
  get-cons_self k v m = rw (==_refl k) refl

  get-cons_above :
      (k j : ℕ) (v w : V) (m : BTreeMap V)
      → IsAbove k m
      → get j m ≡ some w
      → get j ((k, v) ∷ m) ≡ some w
  unfolding get
  get-cons_above k j v w m a e = ground (arith, get-IsAbove k k m a)

  -- What holds of all that can be read holds of every entry.
  pub AllEntries-of_get :
      (m : BTreeMap V) → IsSorted m → ((k : ℕ) (v : V) → get k m ≡ some v → P k v) → AllEntries m
  AllEntries-of_get [] s h = tt
  AllEntries-of_get ((k, v) ∷ m) s h = (
    h k v (get-cons_self k v m),
    AllEntries-of_get m s.1 (λ j w e. h j w (get-cons_above k j v w m s.0 e)),
  )
