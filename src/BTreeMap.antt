-- ===== src/BTreeMap.antt =====
-- `BTreeMap<K, V>`, `BTreeSet<K>` and the view of a `MerkleMap<K, V>` that its callers have: the
-- entries in the order of their keys. A key is the number by which it is compared.
pub mod Laws
pub mod Order
pub mod All
pub mod Sum
pub mod Last
pub mod Ext
pub mod Length
use Prim.Native.Nat.Ordering.{lt, eq, gt}
use kolme.Prelude.{
  ℕ, compare, Bool, true, false, Option, none, some, List, [], ◌∷◌, ◌==◌, if◌then◌else◌, is_some,
}

abbrev pub BTreeMap {ℓ} : Type ℓ → Type ℓ
BTreeMap V = List (ℕ × V)

module _ {ℓ} {V : Type ℓ} where
  -- `get` and `get_mut`
  unfoldable pub get : ℕ → BTreeMap V → Option V
  get k [] = none
  get k ((j, v) ∷ m) = if k == j then some v else get k m

  unfoldable pub contains_key : ℕ → BTreeMap V → Bool
  unfolding get
  contains_key k m = is_some (get k m)

  unfoldable pub insert : ℕ → V → BTreeMap V → BTreeMap V
  insert k v [] = (k, v) ∷ []
  insert k v ((j, w) ∷ m) = elim (compare k j) [
    | lt ↦ (k, v) ∷ (j, w) ∷ m
    | eq ↦ (k, v) ∷ m
    | gt ↦ (j, w) ∷ insert k v m
  ]

  unfoldable pub remove : ℕ → BTreeMap V → BTreeMap V
  remove k [] = []
  remove k ((j, w) ∷ m) = if k == j then m else (j, w) ∷ remove k m

  -- The key of the last entry, `iter().next_back()`.
  unfoldable pub last_key : BTreeMap V → Option ℕ
  last_key [] = none
  last_key ((j, w) ∷ m) = elim (last_key m) [ none ↦ some j | some k ↦ some k ]

-- `BTreeSet<K>` is a map to the unit, as in the standard library.
abbrev pub BTreeSet : Type 0
BTreeSet = BTreeMap (Unit {0})
