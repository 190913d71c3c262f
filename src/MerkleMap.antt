-- ===== src/MerkleMap.antt =====
-- packages/merkle-map/src: the base16 tree behind `MerkleMap`, with `LeafContents` of
-- impls/leaf_contents.rs, `TreeContents` of impls/tree_contents.rs, `Node` of impls/node.rs and
-- `MerkleKey` of types/key_bytes.rs. Locks and cached hashes are left out.
pub mod Insert
pub mod Remove
pub mod Keys
pub mod Leaf
pub mod Sorting
pub mod Shape
pub mod Insertion
pub mod Splitting
pub mod Lookups
pub mod Draining
pub mod Collapse
pub mod Removal
pub mod Map
pub mod Refinement
use kolme.Prelude.{
  ℕ, zero, suc, ◌+◌, ◌-◌, ◌/◌, ◌%◌, Bool, true, false, ◌&&◌, not, Option, none, some, List, [], ◌∷◌,
  ◌++◌, ◌==◌, ltb, leb, length, if◌then◌else◌, is_some, u16_mod,
}

-- The bytes of a key.
abbrev MerkleKey : Type 0
MerkleKey = List ℕ

unfoldable pub key_eq : MerkleKey → MerkleKey → Bool
key_eq [] [] = true
key_eq (b ∷ k) (c ∷ j) = b == c && key_eq k j
key_eq _ _ = false

-- The derived `Ord`, by bytes: is the first key at most the second?
unfoldable pub key_le : MerkleKey → MerkleKey → Bool
key_le [] j = true
key_le (b ∷ k) [] = false
key_le (b ∷ k) (c ∷ j) = if b == c then key_le k j else ltb b c

-- `self.0.get(i)`
unfoldable byte_at : ℕ → MerkleKey → Option ℕ
byte_at i [] = none
byte_at zero (b ∷ k) = some b
byte_at (suc i) (b ∷ k) = byte_at i k

-- A depth is a `u16`, which wraps around in a release build.
abbrev pub next_depth : ℕ → ℕ
next_depth depth = (depth + 1) % u16_mod

unfoldable pub get_index_for_depth : ℕ → MerkleKey → Option ℕ
unfolding byte_at
get_index_for_depth depth k = elim (byte_at (depth / 2) k) [
  | none ↦ none
  | some byte ↦ some (if depth % 2 == 0 then byte / 16 else byte % 16)
]

pub record LeafEntry (K V : Type 0) : Type 0 where
  pub key_bytes : MerkleKey
  pub key : K
  pub value : V

-- The array of branches is a function of the index, read at 0 to 15; `Slot` is its `Option<Node>`.
mutual
  pub data Node (K V : Type 0) : Type 0 where
    leaf : List (LeafEntry K V) → Node K V
    -- len, leaf, branches
    tree : ℕ → Option (LeafEntry K V) → (ℕ → Slot K V) → Node K V

  pub data Slot (K V : Type 0) : Type 0 where
    vacant : Slot K V
    filled : Node K V → Slot K V

module _ {K V : Type 0} where
  -- `LeafContents::get`
  unfoldable leaf_get : MerkleKey → List (LeafEntry K V) → Option (LeafEntry K V)
  leaf_get k [] = none
  leaf_get k (e ∷ es) = if key_eq e.key_bytes k then some e else leaf_get k es

  -- `Node::get` and `TreeContents::get`
  unfoldable mutual
    node_get : ℕ → MerkleKey → Node K V → Option (LeafEntry K V)
    node_get depth k (leaf es) = leaf_get k es
    node_get depth k (tree len entry branches) = elim (get_index_for_depth depth k) [
      | none ↦ entry
      | some i ↦ slot_get (next_depth depth) k (branches i)
    ]

    slot_get : ℕ → MerkleKey → Slot K V → Option (LeafEntry K V)
    slot_get depth k vacant = none
    slot_get depth k (filled n) = node_get depth k n

  -- What the methods return of an old entry.
  abbrev pair_of : LeafEntry K V → K × V
  pair_of e = (e.key, e.value)

  -- `TreeContents::new`, and a write to `branches[index]`.
  abbrev no_branches : ℕ → Slot K V
  no_branches i = vacant

  abbrev set_branch : ℕ → Slot K V → (ℕ → Slot K V) → ℕ → Slot K V
  set_branch index slot branches i = if i == index then slot else branches i

  -- `branch_slot.take().unwrap_or_default()`
  abbrev node_in : Slot K V → Node K V
  node_in vacant = leaf []
  node_in (filled n) = n
