-- ===== src/MerkleMap/Splitting.antt =====
-- A full leaf that takes one more entry becomes a tree with the same lookups.
use kolme.Prelude.{ℕ, ◌≡◌, refl, none, some, Option, List, [], ◌∷◌, arith, if◌then◌else◌}
use kolme.MerkleMap.{MerkleKey, LeafEntry, Node, Slot, leaf, tree, key_eq, leaf_get, node_get}
use kolme.MerkleMap.Insert.{Inserting, tree_insert, insert_all}
use kolme.MerkleMap.Keys.{key_eq_refl, eq_of_key_eq}
use kolme.MerkleMap.Leaf.{AllKeys, IsDistinct}
use kolme.MerkleMap.Shape.{IsPath, Fits}
use kolme.MerkleMap.Insertion.{IsInserted, IsRight, tree_insert-IsInserted}

module _ {K V : Type 0} where
  abbrev IsTree : Node K V → Type 0
  IsTree (leaf es) = ⊥
  IsTree (tree len old branches) = Unit

  abbrev pub GivesTree : Inserting K V → Type 0
  GivesTree none = Unit
  GivesTree (some (n, v)) = IsTree n

  pub tree_insert-GivesTree :
      (insert_below : LeafEntry K V → Node K V → Inserting K V) (d : ℕ) (e : LeafEntry K V)
      (len : ℕ) (old : Option (LeafEntry K V)) (branches : ℕ → Slot K V)
      → GivesTree (tree_insert insert_below d e len old branches)
  unfolding tree_insert
  tree_insert-GivesTree insert_below d e len old branches = ground arith

  module _ (d : ℕ) (P : MerkleKey → Type 0) (path : IsPath d P)
      (insert_below : LeafEntry K V → Node K V → Inserting K V)
      (right : IsRight d P path insert_below) where
    -- The entries that a split moves into the tree: new ones, each.
    abbrev NewTo : Node K V → List (LeafEntry K V) → Type 0
    NewTo n = AllKeys (λ k. node_get d k n ≡ none)

    pub still_new :
        (e : LeafEntry K V) (n n' : Node K V) (es : List (LeafEntry K V))
        → leaf_get e.key_bytes es ≡ none
        → ((k : MerkleKey)
            → P k
            → node_get d k n' ≡ (if key_eq e.key_bytes k then some e else node_get d k n))
        → AllKeys P es
        → NewTo n es
        → NewTo n' es
    unfolding leaf_get
    still_new e n n' [] h law a new = tt
    still_new e n n' (x ∷ es) h law a new = (
      ground (
        arith,
        law x.key_bytes a.0,
        new.0,
        eq_of_key_eq e.key_bytes x.key_bytes,
        key_eq_refl x.key_bytes,
      ),
      still_new e n n' es (ground arith) law a.1 new.1,
    )

    abbrev pub AreInserted : Node K V → List (LeafEntry K V) → Option (Node K V) → Type 0
    AreInserted n es none = ⊥
    AreInserted n es (some n') =
        Fits d P n'
        × ((k : MerkleKey)
            → P k
            → node_get d k n' ≡ (elim (leaf_get k es) [ none ↦ node_get d k n | some e ↦ some e ]))

    -- One more entry in front.
    one_more :
        (e : LeafEntry K V) (es : List (LeafEntry K V)) (n n' : Node K V) (r : Option (Node K V))
        → leaf_get e.key_bytes es ≡ none
        → ((k : MerkleKey)
            → P k
            → node_get d k n' ≡ (if key_eq e.key_bytes k then some e else node_get d k n))
        → AreInserted n' es r
        → AreInserted n (e ∷ es) r
    unfolding leaf_get
    one_more e es n n' none u law h = h
    one_more e es n n' (some n'') u law h =
        (h.0, λ k p. ground (arith, h.1 k p, law k p, u, eq_of_key_eq e.key_bytes k))

    pub insert_all-AreInserted :
        (es : List (LeafEntry K V)) (n : Node K V)
        → IsTree n
        → Fits d P n
        → AllKeys P es
        → IsDistinct es
        → NewTo n es
        → AreInserted n es (insert_all insert_below d es n)
    unfolding insert_all leaf_get
    insert_all-AreInserted [] n t f a u new = (f, λ k p. refl)
    insert_all-AreInserted (e ∷ es) (leaf xs) t f a u new = absurd t
    insert_all-AreInserted (e ∷ es) (tree len old branches) t f a u new =
        go (λ n' t' f' new'. insert_all-AreInserted es n' t' f' a.1 u.1 new')
          (tree_insert insert_below d e len old branches)
          (tree_insert-IsInserted d P path insert_below right e len old branches a.0 f)
          (tree_insert-GivesTree insert_below d e len old branches)
      where
        go :
            ((n' : Node K V)
              → IsTree n'
              → Fits d P n'
              → NewTo n' es
              → AreInserted n' es (insert_all insert_below d es n'))
            → (r : Inserting K V) → IsInserted d P e (tree len old branches) r
            → GivesTree r
            → AreInserted (tree len old branches) (e ∷ es) (elim r [
              | none ↦ none
              | some (n', some v) ↦ none
              | some (n', none) ↦ insert_all insert_below d es n'
            ])
        go rest none h t = h
        go rest (some (n', some v)) h t = absurd (ground (arith, h.2, new.0))
        go rest (some (n', none)) h t =
            one_more e es (tree len old branches) n' (insert_all insert_below d es n') u.0 h.1
              (rest n' t h.0 (still_new e (tree len old branches) n' es u.0 h.1 a.1 new.1))
