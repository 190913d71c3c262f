-- ===== src/MerkleMap/Shape.antt =====
-- The shape of a tree: an entry stands where the nibbles of its key lead.
use kolme.Prelude.{
  ◌*◌, length, u16_mod, subst, ℕ, ◌+◌, ◌<◌, ◌≡◌, ◌⊎◌, refl, none, some, Option, arith, inl, inr,
}
use kolme.MerkleMap.{
  next_depth, MerkleKey, LeafEntry, Node, Slot, leaf, tree, vacant, filled, get_index_for_depth,
  leaf_get, node_get, slot_get, node_in,
}
use kolme.MerkleMap.Keys.{index_inside, key_of_path, AreBytes}
use kolme.MerkleMap.Leaf.{AllKeys, IsDistinct}

-- The keys that `P` admits have one path down to the depth `d`.
pub record IsPath (d : ℕ) (P : MerkleKey → Type 0) : Type 0 where
  pub agree :
      (k j : MerkleKey)
      → P k
      → P j
      → (i : ℕ) → i < d
      → get_index_for_depth i k ≡ get_index_for_depth i j
  pub bytes : (k : MerkleKey) → P k → AreBytes k
  -- no depth in a key goes out of a `u16`
  pub short : (k : MerkleKey) → P k → 2 * length k < u16_mod

-- The keys among them that go on to the branch `i`.
abbrev pub Under : ℕ → ℕ → (MerkleKey → Type 0) → MerkleKey → Type 0
Under d i P k = P k × (get_index_for_depth d k ≡ some i)

-- Where a key goes on, the depth does not wrap around.
pub next_depth-suc :
    (d i : ℕ) (P : MerkleKey → Type 0) (k : MerkleKey)
    → IsPath d P
    → Under d i P k
    → next_depth d ≡ d + 1
next_depth-suc d i P k path u =
    let inside = index_inside d i k u.1 in omega (arith, inside, path.short k u.0)

below : (d i : ℕ) → i < d + 1 → (i < d) ⊎ (i ≡ d)
below d i h = ground (arith, h)

pub Under-IsPath :
    (d i : ℕ) (P : MerkleKey → Type 0) → IsPath d P → IsPath (next_depth d) (Under d i P)
Under-IsPath d i P path = record {
  agree = λ k j p q m h. elim (below d m (subst (λ x. m < x) (next_depth-suc d i P k path p) h)) [
    | inl less ↦ path.agree k j p.0 q.0 m less
    | inr same ↦ ground (arith, same, p.1, q.1)
  ];
  bytes = λ k p. path.bytes k p.0;
  short = λ k p. path.short k p.0;
}

-- Keys that end where the path does are one key.
pub path_end :
    (d : ℕ) (P : MerkleKey → Type 0) (k j : MerkleKey)
    → IsPath d P
    → P k
    → P j
    → get_index_for_depth d k ≡ none
    → get_index_for_depth d j ≡ none
    → k ≡ j
path_end d P k j path p q e f = key_of_path d k j (path.agree k j p q) e f

module _ {K V : Type 0} where
  -- The entry of a tree itself has a key that ends there.
  abbrev pub IsEnd : ℕ → (MerkleKey → Type 0) → Option (LeafEntry K V) → Type 0
  IsEnd d P none = Unit
  IsEnd d P (some e) = P e.key_bytes × (get_index_for_depth d e.key_bytes ≡ none)

  unfoldable mutual
    pub Fits : ℕ → (MerkleKey → Type 0) → Node K V → Type 0
    Fits d P (leaf es) = AllKeys P es × IsDistinct es
    Fits d P (tree len entry branches) =
        IsEnd d P entry × ((i : ℕ) → FitsSlot (next_depth d) (Under d i P) (branches i))

    pub FitsSlot : ℕ → (MerkleKey → Type 0) → Slot K V → Type 0
    FitsSlot d P vacant = Unit
    FitsSlot d P (filled n) = Fits d P n

  -- `unwrap_or_default` of a branch.
  pub node_in-Fits :
      (d : ℕ) (P : MerkleKey → Type 0) (s : Slot K V) → FitsSlot d P s → Fits d P (node_in s)
  unfolding Fits
  node_in-Fits d P vacant h = (tt, tt)
  node_in-Fits d P (filled n) h = h

  pub node_get-node_in :
      (d : ℕ) (k : MerkleKey) (s : Slot K V) → node_get d k (node_in s) ≡ slot_get d k s
  unfolding node_get leaf_get
  node_get-node_in d k vacant = refl
  node_get-node_in d k (filled n) = refl
