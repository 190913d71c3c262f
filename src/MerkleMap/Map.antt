-- ===== src/MerkleMap/Map.antt =====
-- packages/merkle-map/src/impls/merkle_map.rs: `MerkleMap`, and the map it stands for.
use kolme.Prelude.{ℕ, suc, Bool, Option, none, some, [], is_some}
use kolme.MerkleMap.{MerkleKey, Node, leaf, node_get}
use kolme.MerkleMap.Insert.{node_insert}
use kolme.MerkleMap.Remove.{node_remove}

-- The trait `ToMerkleKey`.
pub record ToMerkleKey (K : Type 0) : Type 0 where
  pub to_merkle_key : K → MerkleKey

pub record MerkleMap (K V : Type 0) : Type 0 where
  pub root : Node K V

abbrev pub new : {K V : Type 0} → MerkleMap K V
new = record { root = leaf [] }

module _ {K V : Type 0} (keys : ToMerkleKey K) where
  -- `n` bounds the nibbles of a key.
  unfoldable pub insert : ℕ → K → V → MerkleMap K V → Option (MerkleMap K V × Option (K × V))
  unfolding node_insert
  insert n key value self =
      elim (node_insert (suc n) 0
        (record { key_bytes = keys.to_merkle_key key; key = key; value = value }) self.root) [
          | none ↦ none
          | some (node, v) ↦ some (record { root = node }, v)
        ]

  unfoldable pub get : K → MerkleMap K V → Option V
  unfolding node_get
  get key self = elim (node_get 0 (keys.to_merkle_key key) self.root) [
    | none ↦ none
    | some entry ↦ some entry.value
  ]

  abbrev contains_key : K → MerkleMap K V → Bool
  contains_key key self = is_some (get key self)

  unfoldable pub remove : K → MerkleMap K V → MerkleMap K V × Option (K × V)
  unfolding node_remove
  remove key self =
      let (node, v) = node_remove 0 (keys.to_merkle_key key) self.root in
      (record { root = node }, v)
