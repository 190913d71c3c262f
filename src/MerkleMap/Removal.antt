-- ===== src/MerkleMap/Removal.antt =====
-- `remove` of `LeafContents`, `TreeContents` and `Node` against a map from keys to entries.
use kolme.Prelude.{
  previous, ℕ, ◌≡◌, refl, true, none, some, Option, List, arith, inl, inr, ap, sym, ◌∙◌,
  if◌then◌else◌, Bool-cases, Option-cases, subst, ◌==◌,
}
use kolme.MerkleMap.{
  next_depth, MerkleKey, LeafEntry, Node, Slot, leaf, tree, vacant, filled, key_eq,
  get_index_for_depth, node_get, slot_get, pair_of, set_branch,
}
use kolme.MerkleMap.Remove.{
  leaf_remove, into_node_after_removal, slot_of, put_back, node_remove, slot_remove,
}
use kolme.MerkleMap.Keys.{key_eq_refl, eq_of_key_eq}
use kolme.MerkleMap.Shape.{IsPath, Under, Under-IsPath, path_end, Fits, FitsSlot}
use kolme.MerkleMap.Insertion.{set_branch-FitsSlot, old_pair, node_get_end, node_get_branch}
use kolme.MerkleMap.Collapse.{
  IsRemoved, unchanged-IsRemoved, leaf_remove-IsRemoved, collapse-IsSame, same-IsRemoved,
  slot_of-FitsSlot, slot_get-slot_of,
}

module _ {K V : Type 0} where
  module _ (d : ℕ) (P : MerkleKey → Type 0) (path : IsPath d P) (k : MerkleKey) where
    -- The key ends at this tree.
    end_gone :
        (len len' : ℕ) (e : LeafEntry K V) (branches : ℕ → Slot K V) (j : MerkleKey)
        → P k
        → P j
        → get_index_for_depth d k ≡ none
        → node_get d j (tree len' none branches)
          ≡ (if key_eq k j then none else node_get d j (tree len (some e) branches))
    unfolding node_get
    end_gone len len' e branches j p q f = elim (Option-cases (get_index_for_depth d j)) [
      | inl g ↦
          let same = path_end d P k j path p q f g in ground (arith, f, g, same, key_eq_refl j)
      | inr (i, g) ↦ ground (arith, f, g, eq_of_key_eq k j)
    ]

    -- The key goes on to the branch `i`.
    branch_gone :
        (len len' i : ℕ) (entry : Option (LeafEntry K V)) (branches : ℕ → Slot K V) (s : Slot K V)
        (j : MerkleKey)
        → P j
        → get_index_for_depth d k ≡ some i
        → ((x : MerkleKey)
            → Under d i P x
            → slot_get (next_depth d) x s
              ≡ (if key_eq k x then none else slot_get (next_depth d) x (branches i)))
        → node_get d j (tree len' entry (set_branch i s branches))
          ≡ (if key_eq k j then none else node_get d j (tree len entry branches))
    unfolding node_get
    branch_gone len len' i entry branches s j q f h =
        elim (Option-cases (get_index_for_depth d j)) [
          | inl g ↦ ground (arith, f, g, eq_of_key_eq k j)
          | inr (x, g) ↦ elim (Bool-cases (x == i)) [
            | inr ne ↦ ground (arith, f, g, ne, eq_of_key_eq k j)
            | inl eq ↦
                let same : x ≡ i = ground (arith, eq) in
                ground (arith, f, g, eq, same, h j (q, g ∙ ap some same))
          ]
        ]

    branch-IsRemoved :
        (len len' i : ℕ) (entry : Option (LeafEntry K V)) (branches : ℕ → Slot K V) (n b : Node K V)
        (v : Option (K × V))
        → get_index_for_depth d k ≡ some i
        → branches i ≡ filled n
        → Fits d P (tree len entry branches)
        → IsRemoved (next_depth d) (Under d i P) k n (b, v)
        → IsRemoved d P k
            (tree len entry branches)
            (tree len' entry (set_branch i (slot_of b) branches), v)
    unfolding Fits node_get slot_get
    branch-IsRemoved len len' i entry branches n b v f at fits h = (
      (
        fits.0,
        set_branch-FitsSlot d P path i (slot_of b) branches
            (slot_of-FitsSlot (next_depth d) (Under d i P) b h.0) fits.1,
      ),
      (λ j p. branch_gone len len' i entry branches (slot_of b) j p f (λ x u.
          slot_get-slot_of (next_depth d) x b
          ∙ h.1 x u
          ∙ ap (λ s. if key_eq k x then none else s) (ap (slot_get (next_depth d) x) (sym at)))),
      h.2
          ∙ ap old_pair (
              ap (slot_get (next_depth d) k) (sym at)
              ∙ sym (node_get_branch d len i k entry branches f)),
    )

    put_back-IsRemoved :
        (len i : ℕ) (entry : Option (LeafEntry K V)) (branches : ℕ → Slot K V) (n : Node K V)
        (r : Node K V × Option (K × V))
        → get_index_for_depth d k ≡ some i
        → branches i ≡ filled n
        → Fits d P (tree len entry branches)
        → IsRemoved (next_depth d) (Under d i P) k n r
        → IsRemoved d P k (tree len entry branches) (put_back len entry branches i r)
    unfolding put_back
    put_back-IsRemoved len i entry branches n (b, none) f at fits h =
        branch-IsRemoved len len i entry branches n b none f at fits h
    put_back-IsRemoved len i entry branches n (b, some v) f at fits h =
        let put = branch-IsRemoved len (previous len) i entry branches n b (some v) f at fits h in
        same-IsRemoved d P k (tree len entry branches)
          (tree (previous len) entry (set_branch i (slot_of b) branches))
          (into_node_after_removal (previous len) entry (set_branch i (slot_of b) branches))
          (some v)
          (collapse-IsSame d P (previous len) entry (set_branch i (slot_of b) branches) path put.0)
          put

    -- The entry of the tree itself.
    end-IsRemoved :
        (len : ℕ) (entry : Option (LeafEntry K V)) (branches : ℕ → Slot K V)
        → P k
        → get_index_for_depth d k ≡ none
        → Fits d P (tree len entry branches)
        → IsRemoved d P k (tree len entry branches) (elim entry [
          | none ↦ (tree len none branches, none)
          | some e ↦
              if key_eq e.key_bytes k
              then (into_node_after_removal (previous len) none branches, some (pair_of e))
              else (tree len (some e) branches, none)
        ])
    unfolding Fits
    end-IsRemoved len none branches p f fits =
        unchanged-IsRemoved d P k (tree len none branches) fits
          (node_get_end d len k none branches f)
    end-IsRemoved len (some e) branches p f fits =
        let same = path_end d P e.key_bytes k path fits.0.0 p fits.0.1 f in
        let found : key_eq e.key_bytes k ≡ true =
          ap (key_eq e.key_bytes) (sym same) ∙ key_eq_refl e.key_bytes in
        subst
          (λ b. IsRemoved d P k (tree len (some e) branches) (
            if b
            then (into_node_after_removal (previous len) none branches, some (pair_of e))
            else (tree len (some e) branches, none)))
          (sym found)
          (same-IsRemoved d P k (tree len (some e) branches) (tree (previous len) none branches)
            (into_node_after_removal (previous len) none branches) (some (pair_of e))
            (collapse-IsSame d P (previous len) none branches path (tt, fits.1))
            (
              (tt, fits.1),
              (λ j q. end_gone len (previous len) e branches j p q f),
              ap old_pair (sym (node_get_end d len k (some e) branches f)),
            ))

  vacant_get : (d : ℕ) (k : MerkleKey) → slot_get {K = K} {V = V} d k vacant ≡ none
  unfolding slot_get
  vacant_get d k = refl

  abbrev remove_at :
      ℕ
      → MerkleKey
      → ℕ
      → Option (LeafEntry K V)
      → (ℕ → Slot K V)
      → Option ℕ
      → Node K V × Option (K × V)
  remove_at d k len entry branches none = elim entry [
    | none ↦ (tree len none branches, none)
    | some e ↦
        if key_eq e.key_bytes k
        then (into_node_after_removal (previous len) none branches, some (pair_of e))
        else (tree len (some e) branches, none)
  ]
  remove_at d k len entry branches (some i) =
      slot_remove (next_depth d) k (branches i) (tree len entry branches)
        (put_back len entry branches i)

  by_index :
      (d : ℕ) (k : MerkleKey) (len : ℕ) (entry : Option (LeafEntry K V)) (branches : ℕ → Slot K V)
      → node_remove d k (tree len entry branches)
        ≡ remove_at d k len entry branches (get_index_for_depth d k)
  unfolding node_remove
  by_index d k len entry branches = refl

  by_leaf :
      (d : ℕ) (k : MerkleKey) (es : List (LeafEntry K V))
      → node_remove d k (leaf es) ≡ (elim (leaf_remove k es) [
        | none ↦ (leaf es, none)
        | some (es', old) ↦ (leaf es', some (pair_of old))
      ])
  unfolding node_remove
  by_leaf d k es = refl

  -- A removal from a branch, given the one below it.
  abbrev SlotIsRemoved : ℕ → (MerkleKey → Type 0) → MerkleKey → Slot K V → Type 0
  SlotIsRemoved d P k vacant = Unit
  SlotIsRemoved d P k (filled n) = IsRemoved d P k n (node_remove d k n)

  tree_remove-IsRemoved :
      (d : ℕ) (P : MerkleKey → Type 0) (path : IsPath d P) (k : MerkleKey) (len : ℕ)
      (entry : Option (LeafEntry K V)) (branches : ℕ → Slot K V)
      → P k
      → Fits d P (tree len entry branches)
      → ((i : ℕ) → Under d i P k → SlotIsRemoved (next_depth d) (Under d i P) k (branches i))
      → (x : Option ℕ) → get_index_for_depth d k ≡ x
      → IsRemoved d P k (tree len entry branches) (remove_at d k len entry branches x)
  unfolding node_remove
  tree_remove-IsRemoved d P path k len entry branches p fits below none f =
      end-IsRemoved d P path k len entry branches p f fits
  tree_remove-IsRemoved d P path k len entry branches p fits below (some i) f =
      at (branches i) refl (below i (p, f))
    where
      at :
          (s : Slot K V)
          → branches i ≡ s
          → SlotIsRemoved (next_depth d) (Under d i P) k s
          → IsRemoved d P k (tree len entry branches) (
              slot_remove
                (next_depth d)
                k
                s
                (tree len entry branches)
                (put_back len entry branches i))
      at vacant g h = unchanged-IsRemoved d P k (tree len entry branches) fits (
          node_get_branch d len i k entry branches f
          ∙ ap (slot_get (next_depth d) k) g
          ∙ vacant_get (next_depth d) k)
      at (filled n) g h =
          put_back-IsRemoved d P path k len i entry branches n (node_remove (next_depth d) k n) f g
            fits h

  mutual
    unfolding Fits

    pub node_remove-IsRemoved :
        (d : ℕ) (P : MerkleKey → Type 0) (k : MerkleKey) (n : Node K V)
        → IsPath d P
        → P k
        → Fits d P n
        → IsRemoved d P k n (node_remove d k n)
    node_remove-IsRemoved d P k (leaf es) path p fits =
        subst (IsRemoved d P k (leaf es)) (sym (by_leaf d k es))
          (leaf_remove-IsRemoved d P k es (leaf_remove k es) fits refl)
    node_remove-IsRemoved d P k (tree len entry branches) path p fits =
        subst (IsRemoved d P k (tree len entry branches)) (sym (by_index d k len entry branches)) (
          tree_remove-IsRemoved d P path k len entry branches p fits
            (λ i u.
              slot_removed (next_depth d) (Under d i P) k (branches i) (Under-IsPath d i P path) u
                (fits.1 i))
            (get_index_for_depth d k) refl)

    slot_removed :
        (d : ℕ) (P : MerkleKey → Type 0) (k : MerkleKey) (s : Slot K V)
        → IsPath d P
        → P k
        → FitsSlot d P s
        → SlotIsRemoved d P k s
    slot_removed d P k vacant path p fits = tt
    slot_removed d P k (filled n) path p fits = node_remove-IsRemoved d P k n path p fits
