-- ===== src/MerkleMap/Draining.antt =====
-- `drain_entries_to`: the entries of a tree, put in a leaf, have the same lookups.
use kolme.Prelude.{
  ℕ, zero, suc, ◌+◌, ◌≤◌, ◌<◌, ◌≡◌, ◌≢◌, ◌⊎◌, refl, none, some, Option, List, [], ◌∷◌, ◌++◌, arith,
  inl, inr, ◌∙◌, Bool-cases, Option-cases, subst,
}
use kolme.MerkleMap.{
  next_depth, MerkleKey, LeafEntry, Node, Slot, leaf, tree, vacant, filled, key_eq,
  get_index_for_depth, leaf_get, node_get, slot_get,
}
use kolme.MerkleMap.Remove.{indices_from, concat_over, entry_list, node_entries, slot_entries}
use kolme.MerkleMap.Keys.{key_eq_refl, eq_of_key_eq, index-lt}
use kolme.MerkleMap.Leaf.{AllKeys, IsDistinct}
use kolme.MerkleMap.Shape.{IsPath, Under, Under-IsPath, path_end, IsEnd, Fits, FitsSlot}

at_or_after : (m i : ℕ) → m ≤ i → (m ≡ i) ⊎ (m < i)
at_or_after m i l = ground (arith, l)

module _ {K V : Type 0} where
  all_map :
      (P Q : MerkleKey → Type 0) (es : List (LeafEntry K V))
      → ((k : MerkleKey) → P k → Q k)
      → AllKeys P es
      → AllKeys Q es
  all_map P Q [] f a = tt
  all_map P Q (e ∷ es) f a = (f e.key_bytes a.0, all_map P Q es f a.1)

  all_append :
      (P : MerkleKey → Type 0) (es xs : List (LeafEntry K V))
      → AllKeys P es
      → AllKeys P xs
      → AllKeys P (es ++ xs)
  all_append P [] xs a b = b
  all_append P (e ∷ es) xs a b = (a.0, all_append P es xs a.1 b)

  append_get :
      (k : MerkleKey) (es xs : List (LeafEntry K V))
      → leaf_get k (es ++ xs) ≡ (elim (leaf_get k es) [ none ↦ leaf_get k xs | some e ↦ some e ])
  unfolding leaf_get
  append_get k [] xs = refl
  append_get k (e ∷ es) xs = ground (arith, append_get k es xs)

  append-IsDistinct :
      (es xs : List (LeafEntry K V))
      → IsDistinct es
      → IsDistinct xs
      → AllKeys (λ k. leaf_get k xs ≡ none) es
      → IsDistinct (es ++ xs)
  append-IsDistinct [] xs a b h = b
  append-IsDistinct (e ∷ es) xs a b h =
      (ground (arith, append_get e.key_bytes es xs, a.0, h.0), append-IsDistinct es xs a.1 b h.1)

  -- A key that the entries cannot have is not found.
  no_entry :
      (Q : MerkleKey → Type 0) (k : MerkleKey) (es : List (LeafEntry K V))
      → AllKeys Q es
      → (Q k → ⊥)
      → leaf_get k es ≡ none
  unfolding leaf_get
  no_entry Q k [] a h = refl
  no_entry Q k (e ∷ es) a h = elim (Bool-cases (key_eq e.key_bytes k)) [
    | inl eq ↦ absurd (h (subst Q (eq_of_key_eq e.key_bytes k eq) a.0))
    | inr ne ↦ ground (arith, ne, no_entry Q k es a.1 h)
  ]

  module _ (f : ℕ → List (LeafEntry K V)) where
    absent :
        (n m : ℕ) (k : MerkleKey)
        → ((i : ℕ) → m ≤ i → leaf_get k (f i) ≡ none)
        → leaf_get k (concat_over f (indices_from n m)) ≡ none
    unfolding concat_over leaf_get
    absent zero m k h = refl
    absent (suc n) m k h = ground (
      arith,
      append_get k (f m) (concat_over f (indices_from n (m + 1))),
      h m (omega arith),
      absent n (m + 1) k (λ i l. h i (omega (arith, l))),
    )

    present :
        (n m i : ℕ) (k : MerkleKey)
        → m ≤ i
        → i < m + n
        → ((j : ℕ) → j ≢ i → leaf_get k (f j) ≡ none)
        → leaf_get k (concat_over f (indices_from n m)) ≡ leaf_get k (f i)
    unfolding concat_over
    present zero m i k l u h = absurd (omega (arith, l, u))
    present (suc n) m i k l u h = elim (at_or_after m i l) [
      | inl eq ↦ ground (
        arith,
        eq,
        append_get k (f m) (concat_over f (indices_from n (m + 1))),
        absent n (m + 1) k (λ j a. h j (λ e. omega (arith, a, e, eq))),
        Option-cases (leaf_get k (f m)),
      )
      | inr after ↦ ground (
        arith,
        append_get k (f m) (concat_over f (indices_from n (m + 1))),
        h m (λ e. omega (arith, e, after)),
        present n (m + 1) i k (omega (arith, after)) (omega (arith, u)) h,
      )
    ]

    concat_all :
        (P : MerkleKey → Type 0) (is : List ℕ)
        → ((i : ℕ) → AllKeys P (f i))
        → AllKeys P (concat_over f is)
    unfolding concat_over
    concat_all P [] a = tt
    concat_all P (i ∷ is) a = all_append P (f i) (concat_over f is) (a i) (concat_all P is a)

    -- The lists of different branches share no key.
    concat-IsDistinct :
        (d n m : ℕ)
        → ((i : ℕ) → AllKeys (λ k. get_index_for_depth d k ≡ some i) (f i))
        → ((i : ℕ) → IsDistinct (f i))
        → IsDistinct (concat_over f (indices_from n m))
    unfolding concat_over
    concat-IsDistinct d zero m a u = tt
    concat-IsDistinct d (suc n) m a u =
        append-IsDistinct (f m) (concat_over f (indices_from n (m + 1))) (u m)
          (concat-IsDistinct d n (m + 1) a u)
          (all_map (λ k. get_index_for_depth d k ≡ some m)
            (λ k. leaf_get k (concat_over f (indices_from n (m + 1))) ≡ none) (f m) apart (a m))
      where
        apart :
            (k : MerkleKey)
            → get_index_for_depth d k ≡ some m
            → leaf_get k (concat_over f (indices_from n (m + 1))) ≡ none
        apart k g = absent n (m + 1) k (λ i l.
            no_entry (λ j. get_index_for_depth d j ≡ some i) k (f i) (a i)
              (λ h. ground (arith, g, h, l)))

  -- The list holds what the node holds on the keys that `P` admits.
  abbrev IsDrained :
      (MerkleKey → Type 0) → (MerkleKey → Option (LeafEntry K V)) → List (LeafEntry K V) → Type 0
  IsDrained P get es =
      AllKeys P es × IsDistinct es × ((k : MerkleKey) → P k → leaf_get k es ≡ get k)

  entry_drained :
      (d : ℕ) (P : MerkleKey → Type 0) (entry : Option (LeafEntry K V)) (k : MerkleKey)
      → IsPath d P
      → P k
      → IsEnd d P entry
      → leaf_get k (entry_list entry)
        ≡ (elim (get_index_for_depth d k) [ none ↦ entry | some i ↦ none ])
  unfolding leaf_get
  entry_drained d P none k path p h = ground (arith, Option-cases (get_index_for_depth d k))
  entry_drained d P (some e) k path p h = elim (Option-cases (get_index_for_depth d k)) [
    | inl f ↦
        let same = path_end d P e.key_bytes k path h.0 p h.1 f in
        ground (arith, f, same, key_eq_refl k)
    | inr (i, f) ↦ ground (arith, f, h.1, eq_of_key_eq e.key_bytes k)
  ]

  module _ (d : ℕ) (P : MerkleKey → Type 0) (path : IsPath d P) (branches : ℕ → Slot K V)
      (h : (i : ℕ)
        → IsDrained
            (Under d i P)
            (λ k. slot_get (next_depth d) k (branches i))
            (slot_entries (branches i))) where
    elsewhere :
        (i : ℕ) (k : MerkleKey)
        → P k
        → get_index_for_depth d k ≢ some i
        → leaf_get k (slot_entries (branches i)) ≡ none
    elsewhere i k p ne = no_entry (Under d i P) k (slot_entries (branches i)) (h i).0 (λ u. ne u.1)

    branches_get :
        (k : MerkleKey)
        → P k
        → leaf_get k (concat_over (λ i. slot_entries (branches i)) (indices_from 16 0))
          ≡ (elim (get_index_for_depth d k) [
            | none ↦ none
            | some i ↦ slot_get (next_depth d) k (branches i)
          ])
    branches_get k p = elim (Option-cases (get_index_for_depth d k)) [
      | inl f ↦ rw f (
          absent (λ i. slot_entries (branches i)) 16 0 k
            (λ i l. elsewhere i k p (λ g. ground (arith, f, g))))
      | inr (i, f) ↦ rw f (
          present (λ j. slot_entries (branches j)) 16 0 i k (omega arith)
            (omega (arith, index-lt d i k (path.bytes k p) f))
            (λ j ne. elsewhere j k p (λ g. ne (ground (arith, f, g))))
          ∙ (h i).2 k (p, f))
    ]

    tree-IsDrained :
        (len : ℕ) (entry : Option (LeafEntry K V))
        → IsEnd d P entry
        → IsDrained P
            (λ k. node_get d k (tree len entry branches))
            (node_entries (tree len entry branches))
    unfolding node_entries node_get leaf_get
    tree-IsDrained len entry end = (
      all_append P (entry_list entry) rest (entry_all entry end) (
          concat_all (λ i. slot_entries (branches i)) P (indices_from 16 0)
            (λ i. all_map (Under d i P) P (slot_entries (branches i)) (λ k u. u.0) (h i).0)),
      append-IsDistinct (entry_list entry) rest (entry_distinct entry)
          (concat-IsDistinct (λ i. slot_entries (branches i)) d 16 0
            (λ i.
              all_map (Under d i P) (λ k. get_index_for_depth d k ≡ some i)
                (slot_entries (branches i)) (λ k u. u.1) (h i).0)
            (λ i. (h i).1))
          (entry_apart entry end),
      λ k p. ground (
        arith,
        append_get k (entry_list entry) rest,
        entry_drained d P entry k path p end,
        branches_get k p,
        Option-cases (get_index_for_depth d k),
        Option-cases entry,
      ),
    )
      where
        rest : List (LeafEntry K V)
        rest = concat_over (λ i. slot_entries (branches i)) (indices_from 16 0)

        entry_all : (o : Option (LeafEntry K V)) → IsEnd d P o → AllKeys P (entry_list o)
        entry_all none u = tt
        entry_all (some e) u = (u.0, tt)

        entry_distinct : (o : Option (LeafEntry K V)) → IsDistinct (entry_list o)
        entry_distinct none = tt
        entry_distinct (some e) = (refl, tt)

        entry_apart :
            (o : Option (LeafEntry K V))
            → IsEnd d P o
            → AllKeys (λ k. leaf_get k rest ≡ none) (entry_list o)
        entry_apart none u = tt
        entry_apart (some e) u = (ground (arith, branches_get e.key_bytes u.0, u.1), tt)

  mutual
    unfolding Fits node_entries node_get leaf_get

    pub node-IsDrained :
        (d : ℕ) (P : MerkleKey → Type 0) (n : Node K V)
        → IsPath d P
        → Fits d P n
        → IsDrained P (λ k. node_get d k n) (node_entries n)
    node-IsDrained d P (leaf es) path h = (h.0, h.1, λ k p. refl)
    node-IsDrained d P (tree len entry branches) path h =
        tree-IsDrained d P path branches
          (λ i.
            slot-IsDrained (next_depth d) (Under d i P) (branches i) (Under-IsPath d i P path)
              (h.1 i))
          len entry h.0

    slot-IsDrained :
        (d : ℕ) (P : MerkleKey → Type 0) (s : Slot K V)
        → IsPath d P
        → FitsSlot d P s
        → IsDrained P (λ k. slot_get d k s) (slot_entries s)
    slot-IsDrained d P vacant path h = (tt, tt, λ k p. refl)
    slot-IsDrained d P (filled n) path h = node-IsDrained d P n path h
