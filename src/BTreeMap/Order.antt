-- ===== src/BTreeMap/Order.antt =====
-- The order of the keys.
use kolme.Prelude.{ℕ, suc, ◌<◌, ◌≡◌, refl, none, [], ◌∷◌, arith, ◌==◌, if◌then◌else◌}
use kolme.BTreeMap.{BTreeMap, get, insert, remove}

module _ {ℓ} {V : Type ℓ} where
  -- Every key of `m` is above `k`.
  abbrev pub IsAbove : ℕ → BTreeMap V → Type 0
  IsAbove k [] = Unit
  IsAbove k ((j, v) ∷ m) = (k < j) × IsAbove k m

  abbrev pub IsSorted : BTreeMap V → Type 0
  IsSorted [] = Unit
  IsSorted ((k, v) ∷ m) = IsAbove k m × IsSorted m

  IsAbove-insert :
      (b k : ℕ) (v : V) (m : BTreeMap V) → b < k → IsAbove b m → IsAbove b (insert k v m)
  unfolding insert
  IsAbove-insert b k v [] h a = (h, tt)
  IsAbove-insert b k v ((j, w) ∷ m) h a = ground (arith, IsAbove-insert b k v m h)

  pub IsAbove-lt : (b c : ℕ) (m : BTreeMap V) → b < c → IsAbove c m → IsAbove b m
  IsAbove-lt b c [] h a = tt
  IsAbove-lt b c ((j, w) ∷ m) h a = (omega arith, IsAbove-lt b c m h a.1)

  IsAbove-remove : (b k : ℕ) (m : BTreeMap V) → IsAbove b m → IsAbove b (remove k m)
  unfolding remove
  IsAbove-remove b k [] a = tt
  IsAbove-remove b k ((j, w) ∷ m) a = ground (arith, IsAbove-remove b k m a.1)

  pub get-IsAbove : (k b : ℕ) (m : BTreeMap V) → IsAbove b m → k < suc b → get k m ≡ none
  unfolding get
  get-IsAbove k b [] a h = refl
  get-IsAbove k b ((j, w) ∷ m) a h = ground (arith, get-IsAbove k b m a.1 h)

  pub insert-IsSorted : (k : ℕ) (v : V) (m : BTreeMap V) → IsSorted m → IsSorted (insert k v m)
  unfolding insert
  insert-IsSorted k v [] s = (tt, tt)
  insert-IsSorted k v ((j, w) ∷ m) s =
      ground (arith, insert-IsSorted k v m s.1, IsAbove-insert j k v m, IsAbove-lt k j m)

  pub remove-IsSorted : (k : ℕ) (m : BTreeMap V) → IsSorted m → IsSorted (remove k m)
  unfolding remove
  remove-IsSorted k [] s = tt
  remove-IsSorted k ((j, w) ∷ m) s =
      ground (arith, remove-IsSorted k m s.1, IsAbove-remove j k m s.0)

  pub get-remove :
      (j k : ℕ) (m : BTreeMap V)
      → IsSorted m
      → get j (remove k m) ≡ (if j == k then none else get j m)
  unfolding get remove
  get-remove j k [] s = ground arith
  get-remove j k ((i, w) ∷ m) s = ground (arith, get-remove j k m s.1, get-IsAbove j i m s.0)
