-- ===== src/MerkleMap/Insertion.antt =====
-- What an insertion does to the lookups, on every key, and that it returns.
use kolme.Prelude.{
  next, ℕ, ◌≡◌, refl, none, some, Option, arith, inl, inr, ap, sym, ◌∙◌, if◌then◌else◌, Bool-cases,
  Option-cases, is_some, ◌==◌, subst,
}
use kolme.MerkleMap.{
  next_depth, MerkleKey, LeafEntry, Node, Slot, tree, filled, key_eq, get_index_for_depth, node_get,
  slot_get, node_in, pair_of, set_branch,
}
use kolme.MerkleMap.Insert.{Inserting, tree_insert}
use kolme.MerkleMap.Keys.{key_eq_refl, eq_of_key_eq}
use kolme.MerkleMap.Shape.{IsPath, Under, path_end, Fits, FitsSlot, node_in-Fits, node_get-node_in}

module _ {K V : Type 0} where
  abbrev pub old_pair : Option (LeafEntry K V) → Option (K × V)
  old_pair none = none
  old_pair (some e) = some (pair_of e)

  -- The insertion has returned: the shape is kept, the entry is found under its key and every other
  -- key finds what it found before, and the old pair under the key is returned.
  abbrev pub IsInserted :
      ℕ → (MerkleKey → Type 0) → LeafEntry K V → Node K V → Inserting K V → Type 0
  IsInserted d P e n none = ⊥
  IsInserted d P e n (some (n', v)) =
      Fits d P n'
      × ((k : MerkleKey)
          → P k
          → node_get d k n' ≡ (if key_eq e.key_bytes k then some e else node_get d k n))
      × (v ≡ old_pair (node_get d e.key_bytes n))

  -- Where a key ends, and where it goes on.
  pub node_get_end :
      (d len : ℕ) (k : MerkleKey) (o : Option (LeafEntry K V)) (branches : ℕ → Slot K V)
      → get_index_for_depth d k ≡ none
      → node_get d k (tree len o branches) ≡ o
  unfolding node_get
  node_get_end d len k o branches f = ground (arith, f)

  pub node_get_branch :
      (d len i : ℕ) (k : MerkleKey) (o : Option (LeafEntry K V)) (branches : ℕ → Slot K V)
      → get_index_for_depth d k ≡ some i
      → node_get d k (tree len o branches) ≡ slot_get (next_depth d) k (branches i)
  unfolding node_get
  node_get_branch d len i k o branches f = ground (arith, f)

  -- `tree_insert`, the index of the key being known.
  abbrev insert_at :
      (LeafEntry K V → Node K V → Inserting K V)
      → LeafEntry K V
      → ℕ
      → Option (LeafEntry K V)
      → (ℕ → Slot K V)
      → Option ℕ
      → Inserting K V
  insert_at insert_below e len old branches none = elim old [
    | none ↦ some (tree (next len) (some e) branches, none)
    | some x ↦ some (tree len (some e) branches, some (pair_of x))
  ]
  insert_at insert_below e len old branches (some i) =
      elim (insert_below e (node_in (branches i))) [
        | none ↦ none
        | some (branch, v) ↦ some (
          tree (if is_some v then len else next len) old (set_branch i (filled branch) branches),
          v,
        )
      ]

  module _ (d : ℕ) (P : MerkleKey → Type 0) (path : IsPath d P) where
    -- The entry ends at this tree.
    end_get :
        (e : LeafEntry K V) (len len' : ℕ) (old : Option (LeafEntry K V)) (branches : ℕ → Slot K V)
        (k : MerkleKey)
        → P e.key_bytes
        → P k
        → get_index_for_depth d e.key_bytes ≡ none
        → node_get d k (tree len' (some e) branches)
          ≡ (if key_eq e.key_bytes k then some e else node_get d k (tree len old branches))
    unfolding node_get
    end_get e len len' old branches k p q f = elim (Option-cases (get_index_for_depth d k)) [
      | inl g ↦
          let same = path_end d P e.key_bytes k path p q f g in
          ground (arith, f, g, same, key_eq_refl k)
      | inr (i, g) ↦ ground (arith, f, g, eq_of_key_eq e.key_bytes k)
    ]

    -- The entry goes on to the branch `i`.
    branch_get :
        (e : LeafEntry K V) (len len' i : ℕ) (old : Option (LeafEntry K V))
        (branches : ℕ → Slot K V) (n : Node K V) (k : MerkleKey)
        → P k
        → get_index_for_depth d e.key_bytes ≡ some i
        → ((j : MerkleKey)
            → Under d i P j
            → node_get (next_depth d) j n ≡ (
                if key_eq e.key_bytes j
                then some e
                else node_get (next_depth d) j (node_in (branches i))))
        → node_get d k (tree len' old (set_branch i (filled n) branches))
          ≡ (if key_eq e.key_bytes k then some e else node_get d k (tree len old branches))
    unfolding node_get
    branch_get e len len' i old branches n k q f h = elim (Option-cases (get_index_for_depth d k)) [
      | inl g ↦ ground (arith, f, g, eq_of_key_eq e.key_bytes k)
      | inr (j, g) ↦ elim (Bool-cases (j == i)) [
        | inr ne ↦ ground (arith, f, g, ne, eq_of_key_eq e.key_bytes k)
        | inl eq ↦
            let same : j ≡ i = ground (arith, eq) in
            ground (
              arith,
              f,
              g,
              eq,
              same,
              h k (q, g ∙ ap some same),
              node_get-node_in (next_depth d) k (branches i),
            )
      ]
    ]

    -- The insertion below does what it should on the keys of its branch.
    abbrev pub IsRight : (LeafEntry K V → Node K V → Inserting K V) → Type 0
    IsRight insert_below =
        (e : LeafEntry K V) (i : ℕ)
        → Under d i P e.key_bytes
        → (n : Node K V) → Fits (next_depth d) (Under d i P) n
        → IsInserted (next_depth d) (Under d i P) e n (insert_below e n)

    pub set_branch-FitsSlot :
        (i : ℕ) (s : Slot K V) (branches : ℕ → Slot K V)
        → FitsSlot (next_depth d) (Under d i P) s
        → ((j : ℕ) → FitsSlot (next_depth d) (Under d j P) (branches j))
        → (j : ℕ) → FitsSlot (next_depth d) (Under d j P) (set_branch i s branches j)
    set_branch-FitsSlot i s branches f h j = elim (Bool-cases (j == i)) [
      | inr ne ↦ rw ne (h j)
      | inl eq ↦
          let same : i ≡ j = ground (arith, eq) in
          rw eq (subst (λ x. FitsSlot (next_depth d) (Under d x P) s) same f)
    ]

    module _ (insert_below : LeafEntry K V → Node K V → Inserting K V)
        (right : IsRight insert_below) where
      by_index :
          (e : LeafEntry K V) (len : ℕ) (old : Option (LeafEntry K V)) (branches : ℕ → Slot K V)
          → tree_insert insert_below d e len old branches
            ≡ insert_at insert_below e len old branches (get_index_for_depth d e.key_bytes)
      unfolding tree_insert
      by_index e len old branches = refl

      -- One level of the tree.
      pub tree_insert-IsInserted :
          (e : LeafEntry K V) (len : ℕ) (old : Option (LeafEntry K V)) (branches : ℕ → Slot K V)
          → P e.key_bytes
          → Fits d P (tree len old branches)
          → IsInserted d P e (tree len old branches) (tree_insert insert_below d e len old branches)
      unfolding tree_insert Fits
      tree_insert-IsInserted e len old branches p fits =
          subst (IsInserted d P e (tree len old branches)) (sym (by_index e len old branches))
            (at_index (get_index_for_depth d e.key_bytes) refl)
        where
          at_end :
              (o : Option (LeafEntry K V))
              → get_index_for_depth d e.key_bytes ≡ none
              → IsInserted d P e (tree len o branches) (elim o [
                | none ↦ some (tree (next len) (some e) branches, none)
                | some x ↦ some (tree len (some e) branches, some (pair_of x))
              ])
          at_end none f = (
            ((p, f), fits.1),
            (λ k q. end_get e len (next len) none branches k p q f),
            ap old_pair (sym (node_get_end d len e.key_bytes none branches f)),
          )
          at_end (some x) f = (
            ((p, f), fits.1),
            (λ k q. end_get e len len (some x) branches k p q f),
            ap old_pair (sym (node_get_end d len e.key_bytes (some x) branches f)),
          )

          at_branch :
              (i : ℕ)
              → get_index_for_depth d e.key_bytes ≡ some i
              → (r : Inserting K V)
              → IsInserted (next_depth d) (Under d i P) e (node_in (branches i)) r
              → IsInserted d P e (tree len old branches) (elim r [
                | none ↦ none
                | some (branch, v) ↦ some (
                  tree
                      (if is_some v then len else next len)
                      old
                      (set_branch i (filled branch) branches),
                  v,
                )
              ])
          at_branch i f none h = h
          at_branch i f (some (branch, v)) h = (
            (fits.0, set_branch-FitsSlot i (filled branch) branches h.0 fits.1),
            (λ k q.
                branch_get e len (if is_some v then len else next len) i old branches branch k q f
                  h.1),
            h.2
                ∙ ap old_pair (
                    node_get-node_in (next_depth d) e.key_bytes (branches i)
                    ∙ sym (node_get_branch d len i e.key_bytes old branches f)),
          )

          at_index :
              (x : Option ℕ)
              → get_index_for_depth d e.key_bytes ≡ x
              → IsInserted d P e
                  (tree len old branches)
                  (insert_at insert_below e len old branches x)
          at_index none f = at_end old f
          at_index (some i) f = at_branch i f (insert_below e (node_in (branches i))) (
              right e i (p, f) (node_in (branches i))
                (node_in-Fits (next_depth d) (Under d i P) (branches i) (fits.1 i)))
