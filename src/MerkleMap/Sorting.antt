-- ===== src/MerkleMap/Sorting.antt =====
-- The order of the entries of a leaf does not matter to the lookups.
use kolme.Prelude.{◌≡◌, refl, none, some, List, [], ◌∷◌, ◌++◌, arith, if◌then◌else◌}
use kolme.MerkleMap.{MerkleKey, LeafEntry, key_eq, leaf_get}
use kolme.MerkleMap.Insert.{place, sort}
use kolme.MerkleMap.Keys.{key_eq_refl, eq_of_key_eq}
use kolme.MerkleMap.Leaf.{AllKeys, IsDistinct}

module _ {K V : Type 0} where
  place_get :
      (x : LeafEntry K V) (es : List (LeafEntry K V)) (k : MerkleKey)
      → leaf_get x.key_bytes es ≡ none
      → leaf_get k (place x es) ≡ (if key_eq x.key_bytes k then some x else leaf_get k es)
  unfolding place leaf_get
  place_get x [] k h = refl
  place_get x (e ∷ es) k h = ground (
    arith,
    place_get x es k,
    eq_of_key_eq e.key_bytes k,
    eq_of_key_eq x.key_bytes k,
    key_eq_refl k,
  )

  place_all :
      (P : MerkleKey → Type 0) (x : LeafEntry K V) (es : List (LeafEntry K V))
      → P x.key_bytes
      → AllKeys P es
      → AllKeys P (place x es)
  unfolding place
  place_all P x [] p a = (p, tt)
  place_all P x (e ∷ es) p a = ground (arith, place_all P x es p a.1)

  place-IsDistinct :
      (x : LeafEntry K V) (es : List (LeafEntry K V))
      → leaf_get x.key_bytes es ≡ none
      → IsDistinct es
      → IsDistinct (place x es)
  unfolding place leaf_get
  place-IsDistinct x [] h d = (refl, tt)
  place-IsDistinct x (e ∷ es) h d = ground (
    arith,
    place-IsDistinct x es,
    place_get x es e.key_bytes,
    eq_of_key_eq e.key_bytes x.key_bytes,
    eq_of_key_eq x.key_bytes e.key_bytes,
    key_eq_refl x.key_bytes,
  )

  pub sort_get :
      (es : List (LeafEntry K V)) (k : MerkleKey)
      → IsDistinct es
      → leaf_get k (sort es) ≡ leaf_get k es
  unfolding sort leaf_get
  sort_get [] k d = refl
  sort_get (e ∷ es) k d =
      ground (arith, sort_get es k d.1, sort_get es e.key_bytes d.1, place_get e (sort es) k)

  pub sort_all :
      (P : MerkleKey → Type 0) (es : List (LeafEntry K V)) → AllKeys P es → AllKeys P (sort es)
  unfolding sort
  sort_all P [] a = tt
  sort_all P (e ∷ es) a = place_all P e (sort es) a.0 (sort_all P es a.1)

  pub sort-IsDistinct : (es : List (LeafEntry K V)) → IsDistinct es → IsDistinct (sort es)
  unfolding sort
  sort-IsDistinct [] d = tt
  sort-IsDistinct (e ∷ es) d =
      place-IsDistinct e (sort es) (ground (arith, sort_get es e.key_bytes d.1, d.0))
        (sort-IsDistinct es d.1)

  -- An entry pushed behind the others.
  pub push_get :
      (e : LeafEntry K V) (es : List (LeafEntry K V)) (k : MerkleKey)
      → leaf_get e.key_bytes es ≡ none
      → leaf_get k (es ++ e ∷ []) ≡ (if key_eq e.key_bytes k then some e else leaf_get k es)
  unfolding leaf_get
  push_get e [] k h = refl
  push_get e (x ∷ es) k h = ground (
    arith,
    push_get e es k,
    eq_of_key_eq x.key_bytes k,
    eq_of_key_eq e.key_bytes k,
    key_eq_refl k,
  )

  pub push_all :
      (P : MerkleKey → Type 0) (e : LeafEntry K V) (es : List (LeafEntry K V))
      → P e.key_bytes
      → AllKeys P es
      → AllKeys P (es ++ e ∷ [])
  push_all P e [] p a = (p, tt)
  push_all P e (x ∷ es) p a = (a.0, push_all P e es p a.1)

  pub push-IsDistinct :
      (e : LeafEntry K V) (es : List (LeafEntry K V))
      → leaf_get e.key_bytes es ≡ none
      → IsDistinct es
      → IsDistinct (es ++ e ∷ [])
  unfolding leaf_get
  push-IsDistinct e [] h d = (refl, tt)
  push-IsDistinct e (x ∷ es) h d = ground (
    arith,
    push-IsDistinct e es,
    push_get e es x.key_bytes,
    eq_of_key_eq x.key_bytes e.key_bytes,
    eq_of_key_eq e.key_bytes x.key_bytes,
    key_eq_refl e.key_bytes,
  )
