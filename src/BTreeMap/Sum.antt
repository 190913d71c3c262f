-- ===== src/BTreeMap/Sum.antt =====
-- The sum of an integer over the values of a map.
use kolme.Prelude.{ℕ, ◌≡◌, Option, none, some, [], ◌∷◌}
use kolme.Prelude.Int.{ℤ, pos, ◌+ℤ◌, int_laws}
use kolme.BTreeMap.{BTreeMap, get, insert}
use kolme.BTreeMap.Order.{IsSorted, get-IsAbove}

module _ {ℓ} {V : Type ℓ} (f : V → ℤ) where
  abbrev at : Option V → ℤ
  at none = pos 0
  at (some v) = f v

  pub sum : BTreeMap V → ℤ
  sum [] = pos 0
  sum ((k, v) ∷ m) = f v +ℤ sum m

  -- A write changes the sum by the difference of the values at its key.
  pub sum-insert :
      (k : ℕ) (v : V) (m : BTreeMap V)
      → IsSorted m
      → sum (insert k v m) +ℤ at (get k m) ≡ sum m +ℤ f v
  unfolding sum insert get
  sum-insert k v [] s = omega int_laws
  sum-insert k v ((j, w) ∷ m) s = grind (int_laws, sum-insert k v m s.1, get-IsAbove k j m s.0)
