-- ===== src/BTreeMap/Length.antt =====
-- The number of entries after `insert` and `remove`.
use kolme.Prelude.{ℕ, suc, ◌≡◌, refl, [], ◌∷◌, arith, if◌then◌else◌, length}
use kolme.BTreeMap.{BTreeMap, get, contains_key, insert, remove}
use kolme.BTreeMap.Order.{IsSorted, get-IsAbove}

module _ {ℓ} {V : Type ℓ} where
  pub length-insert :
      (k : ℕ) (v : V) (m : BTreeMap V)
      → IsSorted m
      → length (insert k v m) ≡ (if contains_key k m then length m else suc (length m))
  unfolding insert contains_key get
  length-insert k v [] s = refl
  length-insert k v ((j, w) ∷ m) s = ground (arith, length-insert k v m s.1, get-IsAbove k j m s.0)

  pub length-remove :
      (k : ℕ) (m : BTreeMap V)
      → length m ≡ (if contains_key k m then suc (length (remove k m)) else length (remove k m))
  unfolding remove contains_key get
  length-remove k [] = refl
  length-remove k ((j, w) ∷ m) = ground (arith, length-remove k m)
