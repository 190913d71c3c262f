-- ===== src/MerkleMap/Refinement.antt =====
-- `MerkleMap` as a map from keys to entries: what a program that writes to it sees.
use kolme.Prelude.{
  ℕ, suc, ◌+◌, ◌*◌, ◌≤◌, ◌<◌, u16_mod, ◌≡◌, refl, none, some, Option, List, [], ◌∷◌, arith, ap, ◌∙◌,
  length, if◌then◌else◌, Option-cases,
}
use kolme.MerkleMap.{MerkleKey, LeafEntry, Node, key_eq, leaf_get, node_get, get_index_for_depth}
use kolme.MerkleMap.Insert.{Inserting, node_insert}
use kolme.MerkleMap.Remove.{node_remove}
use kolme.MerkleMap.Keys.{AreBytes, index_length}
use kolme.MerkleMap.Shape.{IsPath, Fits}
use kolme.MerkleMap.Insertion.{old_pair, IsInserted}
use kolme.MerkleMap.Lookups.{node_insert-IsInserted}
use kolme.MerkleMap.Collapse.{IsRemoved}
use kolme.MerkleMap.Removal.{node_remove-IsRemoved}
use kolme.MerkleMap.Map.{ToMerkleKey, MerkleMap, new, insert, get, remove}

-- The keys of at most `n` nibbles.
abbrev pub IsShort : ℕ → MerkleKey → Type 0
IsShort n k = AreBytes k × (2 * length k ≤ n)

short-IsPath : (n : ℕ) → n < u16_mod → IsPath 0 (IsShort n)
short-IsPath n bound = record {
  agree = λ k j p q i h. absurd (ground (arith, h));
  bytes = λ k p. p.0;
  short = λ k p. omega (arith, p.1, bound);
}

short_bound : (n : ℕ) (k : MerkleKey) → IsShort n k → get_index_for_depth (0 + n) k ≡ none
short_bound n k h = index_length (0 + n) k (ground (arith, h.1))

-- A call that writes, and what it returns.
pub data Write (K V : Type 0) : Type 0 where
  inserts : K → V → Write K V
  removes : K → Write K V

abbrev value_of : {K V : Type 0} → Option (K × V) → Option V
value_of none = none
value_of (some p) = some p.1

module _ {K V : Type 0} (keys : ToMerkleKey K) where
  abbrev write : ℕ → Write K V → MerkleMap K V → Option (MerkleMap K V × Option (K × V))
  write n (inserts key value) m = insert keys n key value m
  write n (removes key) m = some (remove keys key m)

  -- The same calls on a function from keys to what is stored under them.
  abbrev written : Write K V → (MerkleKey → Option (K × V)) → MerkleKey → Option (K × V)
  written (inserts key value) f k =
      if key_eq (keys.to_merkle_key key) k then some (key, value) else f k
  written (removes key) f k = if key_eq (keys.to_merkle_key key) k then none else f k

  abbrev key_of : Write K V → K
  key_of (inserts key value) = key
  key_of (removes key) = key

  abbrev pub write_all :
      ℕ → List (Write K V) → MerkleMap K V → Option (MerkleMap K V × List (Option (K × V)))
  write_all n [] m = some (m, [])
  write_all n (w ∷ ws) m = elim (write n w m) [
    | none ↦ none
    | some (m', v) ↦ elim (write_all n ws m') [ none ↦ none | some (m'', vs) ↦ some (m'', v ∷ vs) ]
  ]

  abbrev pub all_written :
      List (Write K V)
      → (MerkleKey → Option (K × V))
      → (MerkleKey → Option (K × V)) × List (Option (K × V))
  all_written [] f = (f, [])
  all_written (w ∷ ws) f =
      let (g, vs) = all_written ws (written w f) in (g, f (keys.to_merkle_key (key_of w)) ∷ vs)

  -- The map has the shape, and holds what `f` says.
  abbrev Holds : ℕ → (MerkleKey → Option (K × V)) → MerkleMap K V → Type 0
  Holds n f m =
      Fits 0 (IsShort n) m.root
      × ((k : MerkleKey) → IsShort n k → old_pair (node_get 0 k m.root) ≡ f k)

  abbrev Wrote :
      ℕ
      → (MerkleKey → Option (K × V))
      → Option (K × V)
      → Option (MerkleMap K V × Option (K × V))
      → Type 0
  Wrote n f v none = ⊥
  Wrote n f v (some (m, v')) = Holds n f m × (v' ≡ v)

  module _ (n : ℕ) (bound : n < u16_mod)
      (short : (key : K) → IsShort n (keys.to_merkle_key key)) where
    insert-Wrote :
        (f : MerkleKey → Option (K × V)) (key : K) (value : V) (m : MerkleMap K V)
        → Holds n f m
        → Wrote n
            (written (inserts key value) f)
            (f (keys.to_merkle_key key))
            (insert keys n key value m)
    unfolding insert
    insert-Wrote f key value m h = go (node_insert (suc n) 0 entry m.root) (
        node_insert-IsInserted n 0 (IsShort n) (short-IsPath n bound) (short_bound n) entry m.root
          (short key) h.0)
      where
        entry : LeafEntry K V
        entry = record { key_bytes = keys.to_merkle_key key; key = key; value = value }

        go :
            (r : Inserting K V)
            → IsInserted 0 (IsShort n) entry m.root r
            → Wrote n
                (written (inserts key value) f)
                (f (keys.to_merkle_key key))
                (elim r [ none ↦ none | some (node, v) ↦ some (record { root = node }, v) ])
        go none u = u
        go (some (node, v)) u = (
          (u.0, λ k s. ground (arith, u.1 k s, h.1 k s)),
          u.2 ∙ h.1 (keys.to_merkle_key key) (short key),
        )

    remove-Wrote :
        (f : MerkleKey → Option (K × V)) (key : K) (m : MerkleMap K V)
        → Holds n f m
        → Wrote n (written (removes key) f) (f (keys.to_merkle_key key)) (some (remove keys key m))
    unfolding remove
    remove-Wrote f key m h = go (node_remove 0 (keys.to_merkle_key key) m.root) (
        node_remove-IsRemoved 0 (IsShort n) (keys.to_merkle_key key) m.root (short-IsPath n bound)
          (short key) h.0)
      where
        go :
            (r : Node K V × Option (K × V))
            → IsRemoved 0 (IsShort n) (keys.to_merkle_key key) m.root r
            → Wrote n
                (written (removes key) f)
                (f (keys.to_merkle_key key))
                (some (let (node, v) = r in (record { root = node }, v)))
        go (node, v) u = (
          (u.0, λ k s. ground (arith, u.1 k s, h.1 k s)),
          u.2 ∙ h.1 (keys.to_merkle_key key) (short key),
        )

    abbrev AllWrote :
        (MerkleKey → Option (K × V)) × List (Option (K × V))
        → Option (MerkleMap K V × List (Option (K × V)))
        → Type 0
    AllWrote s none = ⊥
    AllWrote s (some (m, vs)) = Holds n s.0 m × (vs ≡ s.1)

    write-Wrote :
        (f : MerkleKey → Option (K × V)) (w : Write K V) (m : MerkleMap K V)
        → Holds n f m
        → Wrote n (written w f) (f (keys.to_merkle_key (key_of w))) (write n w m)
    write-Wrote f (inserts key value) m h = insert-Wrote f key value m h
    write-Wrote f (removes key) m h = remove-Wrote f key m h

    write_all-AllWrote :
        (ws : List (Write K V)) (f : MerkleKey → Option (K × V)) (m : MerkleMap K V)
        → Holds n f m
        → AllWrote (all_written ws f) (write_all n ws m)
    write_all-AllWrote [] f m h = (h, refl)
    write_all-AllWrote (w ∷ ws) f m h =
        first (write n w m) (write-Wrote f w m h)
          (λ m' h'. write_all-AllWrote ws (written w f) m' h')
      where
        rest :
            (v : Option (K × V)) (r : Option (MerkleMap K V × List (Option (K × V))))
            → v ≡ f (keys.to_merkle_key (key_of w))
            → AllWrote (all_written ws (written w f)) r
            → AllWrote
                (all_written (w ∷ ws) f)
                (elim r [ none ↦ none | some (m'', vs) ↦ some (m'', v ∷ vs) ])
        rest v none e u = u
        rest v (some (m'', vs)) e u =
            (u.0, ap (λ x. x ∷ vs) e ∙ ap (λ x. f (keys.to_merkle_key (key_of w)) ∷ x) u.1)

        first :
            (r : Option (MerkleMap K V × Option (K × V)))
            → Wrote n (written w f) (f (keys.to_merkle_key (key_of w))) r
            → ((m' : MerkleMap K V)
                → Holds n (written w f) m'
                → AllWrote (all_written ws (written w f)) (write_all n ws m'))
            → AllWrote (all_written (w ∷ ws) f) (elim r [
              | none ↦ none
              | some (m', v) ↦ elim (write_all n ws m') [
                | none ↦ none
                | some (m'', vs) ↦ some (m'', v ∷ vs)
              ]
            ])
        first none u go = u
        first (some (m', v)) u go = rest v (write_all n ws m') u.1 (go m' u.0)

    -- What the calls return, and what `get` finds after them.
    abbrev pub Refines :
        Option (MerkleMap K V × List (Option (K × V)))
        → (MerkleKey → Option (K × V)) × List (Option (K × V))
        → Type 0
    Refines none s = ⊥
    Refines (some (m, vs)) s =
        (vs ≡ s.1) × ((key : K) → get keys key m ≡ value_of (s.0 (keys.to_merkle_key key)))

    as_get :
        (s : (MerkleKey → Option (K × V)) × List (Option (K × V)))
        (r : Option (MerkleMap K V × List (Option (K × V))))
        → AllWrote s r
        → Refines r s
    unfolding get
    as_get s none h = h
    as_get s (some (m, vs)) h = (
      h.1,
      λ key. ground (
        arith,
        h.0.1 (keys.to_merkle_key key) (short key),
        Option-cases (node_get 0 (keys.to_merkle_key key) m.root),
      ),
    )

    -- If every key has at most `n` nibbles, with `n` below 2 ^ 16, any sequence of insertions and removals on the empty map
    -- goes through without a panic, returns at each call what a function from keys to pairs returns
    -- under the same writes, and `get` then finds under every key the value of that function.
    pub write_all-Refines :
        (ws : List (Write K V)) → Refines (write_all n ws new) (all_written ws (λ k. none))
    unfolding Fits node_get leaf_get
    write_all-Refines ws =
        as_get (all_written ws (λ k. none)) (write_all n ws new)
          (write_all-AllWrote ws (λ k. none) new ((tt, tt), λ k p. refl))
