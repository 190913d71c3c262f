-- ===== src/MerkleMap/Insert.antt =====
-- packages/merkle-map/src/impls: `insert` of `LeafContents`, `TreeContents` and `Node`. The three
-- call each other down the tree, on fuel: each call is one nibble further in the keys.
use kolme.Prelude.{
  next, ℕ, zero, suc, Option, none, some, List, [], ◌∷◌, ◌++◌, ltb, length, if◌then◌else◌, is_some,
}
use kolme.MerkleMap.{
  next_depth, LeafEntry, Node, Slot, leaf, tree, filled, key_eq, key_le, get_index_for_depth,
  pair_of, no_branches, set_branch, node_in,
}

-- The result of an insertion: the node, and the pair that was replaced. `none` is a failed
-- `assert!`, or the end of the fuel.
abbrev pub Inserting : Type 0 → Type 0 → Type 0
Inserting K V = Option (Node K V × Option (K × V))

module _ {K V : Type 0} where
  -- The loop of `LeafContents::insert` that looks for an entry with the same key: the entries with
  -- the new one in its place, and the old one.
  unfoldable pub leaf_replace :
      LeafEntry K V → List (LeafEntry K V) → Option (List (LeafEntry K V) × LeafEntry K V)
  leaf_replace entry [] = none
  leaf_replace entry (e ∷ es) =
      let rest = leaf_replace entry es in
      if key_eq e.key_bytes entry.key_bytes
      then some (entry ∷ es, e)
      else elim rest [ none ↦ none | some (es', old) ↦ some (e ∷ es', old) ]

  -- `sort_by` on the keys, which is stable.
  unfoldable pub place : LeafEntry K V → List (LeafEntry K V) → List (LeafEntry K V)
  place entry [] = entry ∷ []
  place entry (e ∷ es) =
      if key_le entry.key_bytes e.key_bytes then entry ∷ e ∷ es else e ∷ place entry es

  unfoldable pub sort : List (LeafEntry K V) → List (LeafEntry K V)
  unfolding place
  sort [] = []
  sort (e ∷ es) = place e (sort es)

  -- `TreeContents::insert`, by the insertion at the next depth.
  unfoldable pub tree_insert :
      (LeafEntry K V → Node K V → Inserting K V)
      → ℕ
      → LeafEntry K V
      → ℕ
      → Option (LeafEntry K V)
      → (ℕ → Slot K V)
      → Inserting K V
  tree_insert insert_below depth entry len old branches =
      elim (get_index_for_depth depth entry.key_bytes) [
        | none ↦ elim old [
          | none ↦ some (tree (next len) (some entry) branches, none)
          | some e ↦ some (tree len (some entry) branches, some (pair_of e))
        ]
        | some index ↦ elim (insert_below entry (node_in (branches index))) [
          | none ↦ none
          | some (branch, v) ↦ some (
            tree (if is_some v then len else next len) old
                (set_branch index (filled branch) branches),
            v,
          )
        ]
      ]

  abbrev insert_in :
      (LeafEntry K V → Node K V → Inserting K V) → ℕ → LeafEntry K V → Node K V → Inserting K V
  insert_in insert_below depth entry (leaf es) = none
  insert_in insert_below depth entry (tree len old branches) =
      tree_insert insert_below depth entry len old branches

  -- `into_iter().for_each(..)` of the split: each entry has to be new.
  unfoldable pub insert_all :
      (LeafEntry K V → Node K V → Inserting K V)
      → ℕ
      → List (LeafEntry K V)
      → Node K V
      → Option (Node K V)
  unfolding tree_insert
  insert_all insert_below depth [] n = some n
  insert_all insert_below depth (e ∷ es) n = elim (insert_in insert_below depth e n) [
    | none ↦ none
    | some (n', some v) ↦ none
    | some (n', none) ↦ insert_all insert_below depth es n'
  ]

  -- `Node::insert` and `LeafContents::insert`. A leaf takes 16 entries; the next one splits it.
  unfoldable pub node_insert : ℕ → ℕ → LeafEntry K V → Node K V → Inserting K V
  unfolding leaf_replace sort tree_insert insert_all
  node_insert zero depth entry n = none
  node_insert (suc fuel) depth entry (tree len old branches) =
      tree_insert (node_insert fuel (next_depth depth)) depth entry len old branches
  node_insert (suc fuel) depth entry (leaf es) = elim (leaf_replace entry es) [
    | some (es', old) ↦ some (leaf es', some (pair_of old))
    | none ↦
        if ltb (length es) 16
        then some (leaf (sort (es ++ entry ∷ [])), none)
        else elim (tree_insert (node_insert fuel (next_depth depth)) depth entry 0 none
            no_branches) [
              | none ↦ none
              | some (n, v) ↦ elim (insert_all (node_insert fuel (next_depth depth)) depth es n) [
                | none ↦ none
                | some n' ↦ some (n', none)
              ]
            ]
  ]
