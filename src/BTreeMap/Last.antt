-- ===== src/BTreeMap/Last.antt =====
-- The last key of a map, and keys up to a bound.
use kolme.Prelude.{ℕ, ◌<◌, ◌≤◌, ◌≡◌, none, some, [], ◌∷◌, arith, refl}
use kolme.BTreeMap.{BTreeMap, get, insert, last_key}
use kolme.BTreeMap.Order.{IsAbove, IsSorted}

module _ {ℓ} {V : Type ℓ} where
  -- Every key of `m` is at most `k`.
  abbrev pub IsAtMost : ℕ → BTreeMap V → Type 0
  IsAtMost k [] = Unit
  IsAtMost k ((j, v) ∷ m) = (j ≤ k) × IsAtMost k m

  last_key-IsAbove : (b h : ℕ) (m : BTreeMap V) → IsAbove b m → last_key m ≡ some h → b < h
  unfolding last_key
  last_key-IsAbove b h [] a e = cc
  last_key-IsAbove b h ((j, w) ∷ m) a e = ground (arith, last_key-IsAbove b h m a.1)

  pub last_key-none : (k : ℕ) (m : BTreeMap V) → last_key m ≡ none → get k m ≡ none
  unfolding last_key get
  last_key-none k [] e = refl
  last_key-none k ((j, w) ∷ m) e = ground arith

  -- Beyond the last key there is no entry.
  pub get-last_key :
      (k h : ℕ) (m : BTreeMap V) → IsSorted m → last_key m ≡ some h → h < k → get k m ≡ none
  unfolding last_key get
  get-last_key k h [] s e l = refl
  get-last_key k h ((j, w) ∷ m) s e l =
      ground (arith, get-last_key k h m s.1, last_key-IsAbove j h m s.0, last_key-none k m)

  last_key-at_most : (k : ℕ) (m : BTreeMap V) → IsAbove k m → IsAtMost k m → last_key m ≡ none
  unfolding last_key
  last_key-at_most k [] a b = refl
  last_key-at_most k ((j, w) ∷ m) a b = absurd (omega arith)

  -- An entry at or beyond every key is the last.
  pub last_key-insert :
      (k : ℕ) (v : V) (m : BTreeMap V)
      → IsSorted m
      → IsAtMost k m
      → last_key (insert k v m) ≡ some k
  unfolding last_key insert
  last_key-insert k v [] s a = refl
  last_key-insert k v ((j, w) ∷ m) s a =
      ground (arith, last_key-insert k v m s.1 a.1, last_key-at_most k m)
