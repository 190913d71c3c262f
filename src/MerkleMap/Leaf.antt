-- ===== src/MerkleMap/Leaf.antt =====
-- The entries of a leaf as a map: what `replace`, `push`, `sort` and `remove` do to the lookups.
use kolme.Prelude.{
  ◌≡◌, refl, none, some, List, [], ◌∷◌, arith, inl, inr, if◌then◌else◌, Option-cases,
}
use kolme.MerkleMap.{MerkleKey, LeafEntry, key_eq, leaf_get}
use kolme.MerkleMap.Insert.{leaf_replace}
use kolme.MerkleMap.Remove.{leaf_remove}
use kolme.MerkleMap.Keys.{key_eq_refl, eq_of_key_eq}

module _ {K V : Type 0} where
  -- Every key satisfies `P`; no two entries have one key.
  abbrev pub AllKeys : (MerkleKey → Type 0) → List (LeafEntry K V) → Type 0
  AllKeys P [] = Unit
  AllKeys P (e ∷ es) = P e.key_bytes × AllKeys P es

  abbrev pub IsDistinct : List (LeafEntry K V) → Type 0
  IsDistinct [] = Unit
  IsDistinct (e ∷ es) = (leaf_get e.key_bytes es ≡ none) × IsDistinct es

  -- A found entry has the key that was looked up.
  leaf_get_key :
      (k : MerkleKey) (es : List (LeafEntry K V)) (e : LeafEntry K V)
      → leaf_get k es ≡ some e
      → e.key_bytes ≡ k
  unfolding leaf_get
  leaf_get_key k [] e h = absurd (ground arith)
  leaf_get_key k (x ∷ es) e h = ground (arith, leaf_get_key k es e, eq_of_key_eq x.key_bytes k)

  -- Replacement.
  pub leaf_replace-none :
      (e : LeafEntry K V) (es : List (LeafEntry K V))
      → leaf_replace e es ≡ none
      → leaf_get e.key_bytes es ≡ none
  unfolding leaf_replace leaf_get
  leaf_replace-none e [] h = refl
  leaf_replace-none e (x ∷ es) h =
      ground (arith, leaf_replace-none e es, Option-cases (leaf_replace e es))

  module _ (e old : LeafEntry K V) where
    pub leaf_replace_old :
        (es es' : List (LeafEntry K V))
        → leaf_replace e es ≡ some (es', old)
        → leaf_get e.key_bytes es ≡ some old
    unfolding leaf_replace leaf_get
    leaf_replace_old [] es' h = absurd (ground arith)
    leaf_replace_old (x ∷ es) es' h = elim (Option-cases (leaf_replace e es)) [
      | inl f ↦ ground (arith, f)
      | inr ((rest, o), f) ↦ ground (arith, f, leaf_replace_old es rest)
    ]

    pub leaf_replace_get :
        (es es' : List (LeafEntry K V)) (k : MerkleKey)
        → leaf_replace e es ≡ some (es', old)
        → leaf_get k es' ≡ (if key_eq e.key_bytes k then some e else leaf_get k es)
    unfolding leaf_replace leaf_get
    leaf_replace_get [] es' k h = absurd (ground arith)
    leaf_replace_get (x ∷ es) es' k h = elim (Option-cases (leaf_replace e es)) [
      | inl f ↦ ground (arith, f, eq_of_key_eq x.key_bytes e.key_bytes)
      | inr ((rest, o), f) ↦ ground (
        arith,
        f,
        leaf_replace_get es rest k,
        eq_of_key_eq x.key_bytes e.key_bytes,
        eq_of_key_eq x.key_bytes k,
        eq_of_key_eq e.key_bytes k,
        key_eq_refl k,
      )
    ]

    pub leaf_replace_all :
        (P : MerkleKey → Type 0) (es es' : List (LeafEntry K V))
        → P e.key_bytes
        → AllKeys P es
        → leaf_replace e es ≡ some (es', old)
        → AllKeys P es'
    unfolding leaf_replace
    leaf_replace_all P [] es' p a h = absurd (ground arith)
    leaf_replace_all P (x ∷ es) es' p a h = elim (Option-cases (leaf_replace e es)) [
      | inl f ↦ ground (arith, f)
      | inr ((rest, o), f) ↦ ground (arith, f, leaf_replace_all P es rest p a.1)
    ]

    pub leaf_replace-IsDistinct :
        (es es' : List (LeafEntry K V))
        → IsDistinct es
        → leaf_replace e es ≡ some (es', old)
        → IsDistinct es'
    unfolding leaf_replace
    leaf_replace-IsDistinct [] es' d h = absurd (ground arith)
    leaf_replace-IsDistinct (x ∷ es) es' d h = elim (Option-cases (leaf_replace e es)) [
      | inl f ↦ ground (arith, f, eq_of_key_eq x.key_bytes e.key_bytes)
      | inr ((rest, o), f) ↦ ground (
        arith,
        f,
        leaf_replace-IsDistinct es rest d.1,
        leaf_replace_get es rest x.key_bytes,
        eq_of_key_eq x.key_bytes e.key_bytes,
        eq_of_key_eq e.key_bytes x.key_bytes,
        key_eq_refl e.key_bytes,
      )
    ]

  -- Removal.
  pub leaf_remove-none :
      (k : MerkleKey) (es : List (LeafEntry K V)) → leaf_remove k es ≡ none → leaf_get k es ≡ none
  unfolding leaf_remove leaf_get
  leaf_remove-none k [] h = refl
  leaf_remove-none k (x ∷ es) h =
      ground (arith, leaf_remove-none k es, Option-cases (leaf_remove k es))

  module _ (k : MerkleKey) (old : LeafEntry K V) where
    pub leaf_remove_old :
        (es es' : List (LeafEntry K V))
        → leaf_remove k es ≡ some (es', old)
        → leaf_get k es ≡ some old
    unfolding leaf_remove leaf_get
    leaf_remove_old [] es' h = absurd (ground arith)
    leaf_remove_old (x ∷ es) es' h = elim (Option-cases (leaf_remove k es)) [
      | inl f ↦ ground (arith, f)
      | inr ((rest, o), f) ↦ ground (arith, f, leaf_remove_old es rest)
    ]

    pub leaf_remove_get :
        (es es' : List (LeafEntry K V)) (j : MerkleKey)
        → IsDistinct es
        → leaf_remove k es ≡ some (es', old)
        → leaf_get j es' ≡ (if key_eq k j then none else leaf_get j es)
    unfolding leaf_remove leaf_get
    leaf_remove_get [] es' j d h = absurd (ground arith)
    leaf_remove_get (x ∷ es) es' j d h = elim (Option-cases (leaf_remove k es)) [
      | inl f ↦ ground (arith, f, d.0, eq_of_key_eq x.key_bytes k, eq_of_key_eq k j, key_eq_refl j)
      | inr ((rest, o), f) ↦ ground (
        arith,
        f,
        d.0,
        leaf_remove_get es rest j d.1,
        eq_of_key_eq x.key_bytes k,
        eq_of_key_eq x.key_bytes j,
        eq_of_key_eq k j,
        key_eq_refl j,
      )
    ]

    pub leaf_remove_all :
        (P : MerkleKey → Type 0) (es es' : List (LeafEntry K V))
        → AllKeys P es
        → leaf_remove k es ≡ some (es', old)
        → AllKeys P es'
    unfolding leaf_remove
    leaf_remove_all P [] es' a h = absurd (ground arith)
    leaf_remove_all P (x ∷ es) es' a h = elim (Option-cases (leaf_remove k es)) [
      | inl f ↦ ground (arith, f)
      | inr ((rest, o), f) ↦ ground (arith, f, leaf_remove_all P es rest a.1)
    ]

    pub leaf_remove-IsDistinct :
        (es es' : List (LeafEntry K V))
        → IsDistinct es
        → leaf_remove k es ≡ some (es', old)
        → IsDistinct es'
    unfolding leaf_remove
    leaf_remove-IsDistinct [] es' d h = absurd (ground arith)
    leaf_remove-IsDistinct (x ∷ es) es' d h = elim (Option-cases (leaf_remove k es)) [
      | inl f ↦ ground (arith, f)
      | inr ((rest, o), f) ↦ ground (
        arith,
        f,
        leaf_remove-IsDistinct es rest d.1,
        leaf_remove_get es rest x.key_bytes d.1,
        key_eq_refl x.key_bytes,
      )
    ]
