-- ===== src/MerkleMap/Remove.antt =====
-- packages/merkle-map/src/impls: `remove` and `drain_entries_to` of `LeafContents`, `TreeContents`
-- and `Node`.
use kolme.Prelude.{
  previous, ℕ, zero, suc, ◌+◌, Bool, true, false, Option, none, some, List, [], ◌∷◌, ◌++◌, leb,
  if◌then◌else◌,
}
use kolme.MerkleMap.{
  next_depth, MerkleKey, LeafEntry, Node, Slot, leaf, tree, vacant, filled, key_eq,
  get_index_for_depth, pair_of, set_branch,
}

-- The indices of the 16 branches from `i` on.
abbrev pub indices_from : ℕ → ℕ → List ℕ
indices_from zero i = []
indices_from (suc n) i = i ∷ indices_from n (i + 1)

unfoldable pub concat_over : {A : Type 0} → (ℕ → List A) → List ℕ → List A
concat_over f [] = []
concat_over f (i ∷ is) = f i ++ concat_over f is

module _ {K V : Type 0} where
  abbrev pub entry_list : Option (LeafEntry K V) → List (LeafEntry K V)
  entry_list none = []
  entry_list (some e) = e ∷ []

  -- `drain_entries_to`: the entry of the tree itself, then the branches in order.
  unfoldable mutual
    pub node_entries : Node K V → List (LeafEntry K V)
    node_entries (leaf es) = es
    node_entries (tree len entry branches) =
        entry_list entry ++ concat_over (λ i. slot_entries (branches i)) (indices_from 16 0)

    pub slot_entries : Slot K V → List (LeafEntry K V)
    slot_entries vacant = []
    slot_entries (filled n) = node_entries n

  -- `LeafContents::remove`: the entries without the one of that key, and that entry.
  unfoldable pub leaf_remove :
      MerkleKey → List (LeafEntry K V) → Option (List (LeafEntry K V) × LeafEntry K V)
  leaf_remove k [] = none
  leaf_remove k (e ∷ es) =
      let rest = leaf_remove k es in
      if key_eq e.key_bytes k
      then some (es, e)
      else elim rest [ none ↦ none | some (es', old) ↦ some (e ∷ es', old) ]

  -- `Node::is_empty`; a tree has entries.
  abbrev is_empty : Node K V → Bool
  is_empty (leaf []) = true
  is_empty (leaf (e ∷ es)) = false
  is_empty (tree len entry branches) = false

  -- A tree with 16 entries or fewer becomes a leaf.
  unfoldable pub into_node_after_removal : ℕ → Option (LeafEntry K V) → (ℕ → Slot K V) → Node K V
  unfolding node_entries
  into_node_after_removal len entry branches =
      if leb len 16 then leaf (node_entries (tree len entry branches)) else tree len entry branches

  -- `if !branch.is_empty() { self.branches[index] = Some(branch) }`, the slot being taken
  abbrev pub slot_of : Node K V → Slot K V
  slot_of n = if is_empty n then vacant else filled n

  -- The part of `TreeContents::remove` after the call on the branch.
  unfoldable pub put_back :
      ℕ
      → Option (LeafEntry K V)
      → (ℕ → Slot K V)
      → ℕ
      → Node K V × Option (K × V)
      → Node K V × Option (K × V)
  unfolding into_node_after_removal
  put_back len entry branches index (branch, none) =
      (tree len entry (set_branch index (slot_of branch) branches), none)
  put_back len entry branches index (branch, some v) = (
    into_node_after_removal (previous len) entry (set_branch index (slot_of branch) branches),
    some v,
  )

  -- `Node::remove` and `TreeContents::remove`.
  unfoldable mutual
    unfolding put_back into_node_after_removal leaf_remove

    pub node_remove : ℕ → MerkleKey → Node K V → Node K V × Option (K × V)
    node_remove depth k (leaf es) = elim (leaf_remove k es) [
      | none ↦ (leaf es, none)
      | some (es', old) ↦ (leaf es', some (pair_of old))
    ]
    node_remove depth k (tree len entry branches) = elim (get_index_for_depth depth k) [
      | none ↦ elim entry [
        | none ↦ (tree len none branches, none)
        | some e ↦
            if key_eq e.key_bytes k
            then (into_node_after_removal (previous len) none branches, some (pair_of e))
            else (tree len (some e) branches, none)
      ]
      | some index ↦
          slot_remove (next_depth depth) k (branches index) (tree len entry branches)
            (put_back len entry branches index)
    ]

    -- The branch, if it is there; `unchanged` is the tree without one.
    pub slot_remove :
        ℕ
        → MerkleKey
        → Slot K V
        → Node K V
        → (Node K V × Option (K × V) → Node K V × Option (K × V))
        → Node K V × Option (K × V)
    slot_remove depth k vacant unchanged back = (unchanged, none)
    slot_remove depth k (filled n) unchanged back = back (node_remove depth k n)
