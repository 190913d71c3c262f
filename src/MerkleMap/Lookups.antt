-- ===== src/MerkleMap/Lookups.antt =====
-- `insert` of `LeafContents`, `TreeContents` and `Node` against a map from keys to entries.
use kolme.Prelude.{
  ℕ, zero, suc, ◌+◌, ◌≡◌, refl, none, some, Option, List, [], ◌∷◌, ◌++◌, arith, inl, inr, ap, sym,
  ◌∙◌, if◌then◌else◌, Bool-cases, Option-cases, ltb, length, subst,
}
use kolme.MerkleMap.{
  next_depth, MerkleKey, LeafEntry, Node, leaf, tree, key_eq, get_index_for_depth, leaf_get,
  node_get, pair_of, no_branches,
}
use kolme.MerkleMap.Insert.{Inserting, tree_insert, insert_all, node_insert, leaf_replace, sort}
use kolme.MerkleMap.Keys.{eq_of_key_eq}
use kolme.MerkleMap.Leaf.{
  AllKeys, leaf_replace-none, leaf_replace_old, leaf_replace_get, leaf_replace_all,
  leaf_replace-IsDistinct,
}
use kolme.MerkleMap.Sorting.{
  sort_get, sort_all, sort-IsDistinct, push_get, push_all, push-IsDistinct,
}
use kolme.MerkleMap.Shape.{IsPath, Under, Under-IsPath, Fits, next_depth-suc}
use kolme.MerkleMap.Insertion.{IsInserted, IsRight, old_pair, tree_insert-IsInserted}
use kolme.MerkleMap.Splitting.{
  GivesTree, AreInserted, tree_insert-GivesTree, insert_all-AreInserted, still_new,
}

shifted : (d f n : ℕ) → n ≡ d + 1 → d + suc f ≡ n + f
shifted d f n e = omega (arith, e)

new_tree-Fits :
    (K V : Type 0) (d : ℕ) (P : MerkleKey → Type 0)
    → Fits {K = K} {V = V} d P (tree 0 none no_branches)
unfolding Fits
new_tree-Fits K V d P = (tt, λ i. tt)

module _ {K V : Type 0} where
  -- The three cases of a leaf: the key is there, there is room, and the split.
  replaced-IsInserted :
      (d : ℕ) (P : MerkleKey → Type 0) (e old : LeafEntry K V) (es es' : List (LeafEntry K V))
      → P e.key_bytes
      → Fits d P (leaf es)
      → leaf_replace e es ≡ some (es', old)
      → IsInserted d P e (leaf es) (some (leaf es', some (pair_of old)))
  unfolding Fits node_get
  replaced-IsInserted d P e old es es' p fits h = (
    (leaf_replace_all e old P es es' p fits.0 h, leaf_replace-IsDistinct e old es es' fits.1 h),
    (λ k q. leaf_replace_get e old es es' k h),
    ap old_pair (sym (leaf_replace_old e old es es' h)),
  )

  pushed-IsInserted :
      (d : ℕ) (P : MerkleKey → Type 0) (e : LeafEntry K V) (es : List (LeafEntry K V))
      → P e.key_bytes
      → Fits d P (leaf es)
      → leaf_get e.key_bytes es ≡ none
      → IsInserted d P e (leaf es) (some (leaf (sort (es ++ e ∷ [])), none))
  unfolding Fits node_get
  pushed-IsInserted d P e es p fits h =
      let distinct = push-IsDistinct e es h fits.1 in
      (
        (
          sort_all P (es ++ e ∷ []) (push_all P e es p fits.0),
          sort-IsDistinct (es ++ e ∷ []) distinct,
        ),
        (λ k q. sort_get (es ++ e ∷ []) k distinct ∙ push_get e es k h),
        ap old_pair (sym h),
      )

  abbrev new_tree : Node K V
  new_tree = tree 0 none no_branches

  new_tree_get : (d : ℕ) (k : MerkleKey) → node_get d k new_tree ≡ none
  unfolding node_get
  new_tree_get d k = ground (arith, Option-cases (get_index_for_depth d k))

  all_new : (d : ℕ) (es : List (LeafEntry K V)) → AllKeys (λ k. node_get d k new_tree ≡ none) es
  all_new d [] = tt
  all_new d (x ∷ es) = (new_tree_get d x.key_bytes, all_new d es)

  -- What is left to do after the entry is in the new tree.
  abbrev split_rest :
      (LeafEntry K V → Node K V → Inserting K V)
      → ℕ
      → List (LeafEntry K V)
      → Inserting K V
      → Inserting K V
  split_rest insert_below d es r = elim r [
    | none ↦ none
    | some (n, v) ↦ elim (insert_all insert_below d es n) [
      | none ↦ none
      | some n' ↦ some (n', none)
    ]
  ]

  module _ (d : ℕ) (P : MerkleKey → Type 0) (path : IsPath d P)
      (insert_below : LeafEntry K V → Node K V → Inserting K V)
      (right : IsRight d P path insert_below) (e : LeafEntry K V) (es : List (LeafEntry K V)) where
    moved :
        (n : Node K V) (r : Option (Node K V))
        → leaf_get e.key_bytes es ≡ none
        → ((k : MerkleKey) → P k → node_get d k n ≡ (if key_eq e.key_bytes k then some e else none))
        → AreInserted d P path insert_below right n es r
        → IsInserted d P e (leaf es) (elim r [ none ↦ none | some n' ↦ some (n', none) ])
    unfolding node_get
    moved n none u law h = h
    moved n (some n') u law h = (
      h.0,
      (λ k p.
          ground
            (arith, h.1 k p, law k p, u, Option-cases (leaf_get k es), eq_of_key_eq e.key_bytes k)),
      ap old_pair (sym u),
    )

    split-IsInserted :
        (r : Inserting K V)
        → Fits d P (leaf es)
        → leaf_get e.key_bytes es ≡ none
        → IsInserted d P e new_tree r
        → GivesTree r
        → IsInserted d P e (leaf es) (split_rest insert_below d es r)
    unfolding Fits
    split-IsInserted none fits u h t = h
    split-IsInserted (some (n, v)) fits u h t =
        moved n (insert_all insert_below d es n) u
          (λ k p. ground (arith, h.1 k p, new_tree_get d k))
          (insert_all-AreInserted d P path insert_below right es n t h.0 fits.0 fits.1
            (still_new d P path insert_below right e new_tree n es u h.1 fits.0 (all_new d es)))

  abbrev leaf_insert :
      (LeafEntry K V → Node K V → Inserting K V)
      → ℕ
      → LeafEntry K V
      → List (LeafEntry K V)
      → Option (List (LeafEntry K V) × LeafEntry K V)
      → Inserting K V
  leaf_insert insert_below d e es (some (es', old)) = some (leaf es', some (pair_of old))
  leaf_insert insert_below d e es none =
      if ltb (length es) 16
      then some (leaf (sort (es ++ e ∷ [])), none)
      else split_rest insert_below d es (tree_insert insert_below d e 0 none no_branches)

  by_replace :
      (fuel d : ℕ) (e : LeafEntry K V) (es : List (LeafEntry K V))
      → node_insert (suc fuel) d e (leaf es)
        ≡ leaf_insert (node_insert fuel (next_depth d)) d e es (leaf_replace e es)
  unfolding node_insert
  by_replace fuel d e es = refl

  leaf_insert-IsInserted :
      (d : ℕ) (P : MerkleKey → Type 0) (path : IsPath d P)
      (insert_below : LeafEntry K V → Node K V → Inserting K V)
      (right : IsRight d P path insert_below) (e : LeafEntry K V) (es : List (LeafEntry K V))
      (r : Option (List (LeafEntry K V) × LeafEntry K V))
      → P e.key_bytes
      → Fits d P (leaf es)
      → leaf_replace e es ≡ r
      → IsInserted d P e (leaf es) (leaf_insert insert_below d e es r)
  leaf_insert-IsInserted d P path insert_below right e es (some (es', old)) p fits h =
      replaced-IsInserted d P e old es es' p fits h
  leaf_insert-IsInserted d P path insert_below right e es none p fits h =
      let new = leaf_replace-none e es h in
      elim (Bool-cases (ltb (length es) 16)) [
        | inl eq ↦
            subst (λ b. IsInserted d P e (leaf es) (if b then small else large)) (sym eq)
              (pushed-IsInserted d P e es p fits new)
        | inr eq ↦
            subst (λ b. IsInserted d P e (leaf es) (if b then small else large)) (sym eq)
              (split-IsInserted d P path insert_below right e es
                (tree_insert insert_below d e 0 none no_branches) fits new
                (tree_insert-IsInserted d P path insert_below right e 0 none no_branches p
                  (new_tree-Fits K V d P))
                (tree_insert-GivesTree insert_below d e 0 none no_branches))
      ]
    where
      small : Inserting K V
      small = some (leaf (sort (es ++ e ∷ [])), none)

      large : Inserting K V
      large = split_rest insert_below d es (tree_insert insert_below d e 0 none no_branches)

  node_insert_by :
      (fuel d : ℕ) (P : MerkleKey → Type 0) (path : IsPath d P)
      → IsRight {K = K} {V = V} d P path (node_insert fuel (next_depth d))
      → (e : LeafEntry K V) (n : Node K V) → P e.key_bytes
      → Fits d P n
      → IsInserted d P e n (node_insert (suc fuel) d e n)
  unfolding node_insert
  node_insert_by fuel d P path right e (leaf es) p h =
      subst (IsInserted d P e (leaf es)) (sym (by_replace fuel d e es)) (
        leaf_insert-IsInserted d P path (node_insert fuel (next_depth d)) right e es
          (leaf_replace e es) p h refl)
  node_insert_by fuel d P path right e (tree len old branches) p h =
      tree_insert-IsInserted d P path (node_insert fuel (next_depth d)) right e len old branches p h

  -- With one unit of fuel for each nibble that is left, an insertion returns and is right.
  pub node_insert-IsInserted :
      (fuel d : ℕ) (P : MerkleKey → Type 0)
      → IsPath d P
      → ((k : MerkleKey) → P k → get_index_for_depth (d + fuel) k ≡ none)
      → (e : LeafEntry K V) (n : Node K V) → P e.key_bytes
      → Fits d P n
      → IsInserted d P e n (node_insert (suc fuel) d e n)
  node_insert-IsInserted zero d P path bound =
      node_insert_by zero d P path
        (λ e i u n f. absurd (ground (arith, u.1, bound e.key_bytes u.0)))
  node_insert-IsInserted (suc f) d P path bound = node_insert_by (suc f) d P path (λ e i u n.
      node_insert-IsInserted f (next_depth d) (Under d i P) (Under-IsPath d i P path)
        (λ k v.
          subst (λ x. get_index_for_depth x k ≡ none)
            (shifted d f (next_depth d) (next_depth-suc d i P k path v)) (bound k v.0))
        e n u)
