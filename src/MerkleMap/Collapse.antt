-- ===== src/MerkleMap/Collapse.antt =====
-- The parts of a removal that do not descend: leaves, the collapse of a small tree, and branches that
-- have become empty.
use kolme.Prelude.{
  ℕ, ◌≡◌, refl, none, some, Option, List, [], ◌∷◌, arith, inl, inr, ap, sym, ◌∙◌, if◌then◌else◌,
  Bool-cases, subst, leb,
}
use kolme.MerkleMap.{
  MerkleKey, LeafEntry, Node, Slot, leaf, tree, key_eq, leaf_get, node_get, slot_get, pair_of,
}
use kolme.MerkleMap.Remove.{node_entries, leaf_remove, into_node_after_removal, slot_of}
use kolme.MerkleMap.Keys.{eq_of_key_eq}
use kolme.MerkleMap.Leaf.{
  leaf_remove-none, leaf_remove_old, leaf_remove_get, leaf_remove_all, leaf_remove-IsDistinct,
}
use kolme.MerkleMap.Shape.{IsPath, Fits, FitsSlot}
use kolme.MerkleMap.Insertion.{old_pair}
use kolme.MerkleMap.Draining.{node-IsDrained}

module _ {K V : Type 0} where
  -- The shape is kept, the key finds nothing any more and every other key finds what it found
  -- before, and the old pair under the key is returned.
  abbrev pub IsRemoved :
      ℕ → (MerkleKey → Type 0) → MerkleKey → Node K V → Node K V × Option (K × V) → Type 0
  IsRemoved d P k n (n', v) =
      Fits d P n'
      × ((j : MerkleKey) → P j → node_get d j n' ≡ (if key_eq k j then none else node_get d j n))
      × (v ≡ old_pair (node_get d k n))

  -- A key that is not there is not there after its removal.
  pub unchanged-IsRemoved :
      (d : ℕ) (P : MerkleKey → Type 0) (k : MerkleKey) (n : Node K V)
      → Fits d P n
      → node_get d k n ≡ none
      → IsRemoved d P k n (n, none)
  unchanged-IsRemoved d P k n fits h =
      (fits, (λ j p. ground (arith, h, eq_of_key_eq k j)), ap old_pair (sym h))

  pub leaf_remove-IsRemoved :
      (d : ℕ) (P : MerkleKey → Type 0) (k : MerkleKey) (es : List (LeafEntry K V))
      (r : Option (List (LeafEntry K V) × LeafEntry K V))
      → Fits d P (leaf es)
      → leaf_remove k es ≡ r
      → IsRemoved d P k
          (leaf es)
          (elim r [ none ↦ (leaf es, none) | some (es', old) ↦ (leaf es', some (pair_of old)) ])
  unfolding Fits node_get
  leaf_remove-IsRemoved d P k es none fits h =
      unchanged-IsRemoved d P k (leaf es) fits (leaf_remove-none k es h)
  leaf_remove-IsRemoved d P k es (some (es', old)) fits h = (
    (leaf_remove_all k old P es es' fits.0 h, leaf_remove-IsDistinct k old es es' fits.1 h),
    (λ j p. leaf_remove_get k old es es' j fits.1 h),
    ap old_pair (sym (leaf_remove_old k old es es' h)),
  )

  -- The collapse of a small tree into a leaf does not change the lookups.
  abbrev IsSame : ℕ → (MerkleKey → Type 0) → Node K V → Node K V → Type 0
  IsSame d P n n' = Fits d P n' × ((j : MerkleKey) → P j → node_get d j n' ≡ node_get d j n)

  as_leaf :
      (d : ℕ) (P : MerkleKey → Type 0) (n : Node K V)
      → IsPath d P
      → Fits d P n
      → IsSame d P n (leaf (node_entries n))
  unfolding Fits node_get
  as_leaf d P n path fits = let all = node-IsDrained d P n path fits in ((all.0, all.1), all.2)

  pub collapse-IsSame :
      (d : ℕ) (P : MerkleKey → Type 0) (len : ℕ) (entry : Option (LeafEntry K V))
      (branches : ℕ → Slot K V)
      → IsPath d P
      → Fits d P (tree len entry branches)
      → IsSame d P (tree len entry branches) (into_node_after_removal len entry branches)
  unfolding into_node_after_removal
  collapse-IsSame d P len entry branches path fits = elim (Bool-cases (leb len 16)) [
    | inl eq ↦ subst (λ b. IsSame d P whole (if b then small else whole)) (sym eq) small-IsSame
    | inr eq ↦
        subst (λ b. IsSame d P whole (if b then small else whole)) (sym eq) (fits, λ j p. refl)
  ]
    where
      whole : Node K V
      whole = tree len entry branches

      small : Node K V
      small = leaf (node_entries whole)

      small-IsSame : IsSame d P whole small
      small-IsSame = as_leaf d P whole path fits

  -- One tree with the same lookups in place of another.
  pub same-IsRemoved :
      (d : ℕ) (P : MerkleKey → Type 0) (k : MerkleKey) (n n' n'' : Node K V) (v : Option (K × V))
      → IsSame d P n' n''
      → IsRemoved d P k n (n', v)
      → IsRemoved d P k n (n'', v)
  same-IsRemoved d P k n n' n'' v same h = (same.0, (λ j p. same.1 j p ∙ h.1 j p), h.2)

  -- An empty branch is dropped.
  pub slot_of-FitsSlot :
      (d : ℕ) (P : MerkleKey → Type 0) (n : Node K V) → Fits d P n → FitsSlot d P (slot_of n)
  unfolding Fits
  slot_of-FitsSlot d P (leaf []) h = tt
  slot_of-FitsSlot d P (leaf (e ∷ es)) h = h
  slot_of-FitsSlot d P (tree len entry branches) h = h

  pub slot_get-slot_of :
      (d : ℕ) (k : MerkleKey) (n : Node K V) → slot_get d k (slot_of n) ≡ node_get d k n
  unfolding node_get leaf_get
  slot_get-slot_of d k (leaf []) = refl
  slot_get-slot_of d k (leaf (e ∷ es)) = refl
  slot_get-slot_of d k (tree len entry branches) = refl
