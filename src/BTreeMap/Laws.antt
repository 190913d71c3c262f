-- ===== src/BTreeMap/Laws.antt =====
-- What `get` and `contains_key` read after `insert` and `remove`.
use kolme.Prelude.{ℕ, ◌≡◌, refl, true, false, none, some, [], ◌∷◌, arith, ◌==◌, if◌then◌else◌}
use kolme.BTreeMap.{BTreeMap, get, contains_key, insert, remove}
use kolme.BTreeMap.Order.{IsSorted, get-remove}

pub contains_key-nil {ℓ} : (V : Type ℓ) (k : ℕ) → contains_key {V = V} k [] ≡ false
unfolding contains_key
contains_key-nil V k = refl

pub get-nil {ℓ} : (V : Type ℓ) (k : ℕ) → get {V = V} k [] ≡ none
unfolding get
get-nil V k = refl

module _ {ℓ} {V : Type ℓ} where
  pub get-insert :
      (j k : ℕ) (v : V) (m : BTreeMap V)
      → get j (insert k v m) ≡ (if j == k then some v else get j m)
  unfolding get insert
  get-insert j k v [] = refl
  get-insert j k v ((i, w) ∷ m) = ground (arith, get-insert j k v m)

  pub contains_key-insert :
      (j k : ℕ) (v : V) (m : BTreeMap V)
      → contains_key j (insert k v m) ≡ (if j == k then true else contains_key j m)
  unfolding contains_key
  contains_key-insert j k v m = ground (arith, get-insert j k v m)

  pub contains_key-remove :
      (j k : ℕ) (m : BTreeMap V)
      → IsSorted m
      → contains_key j (remove k m) ≡ (if j == k then false else contains_key j m)
  unfolding contains_key
  contains_key-remove j k m s = ground (arith, get-remove j k m s)
