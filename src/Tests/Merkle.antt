-- ===== src/Tests/Merkle.antt =====
-- Keys of two bytes, and enough of them to split a leaf and to collapse the tree again.
use kolme.Prelude.{
  ℕ, zero, suc, ◌≡◌, refl, some, none, Option, List, [], ◌∷◌, ◌++◌, arith, ◌+◌, ◌/◌, ◌%◌, ◌*◌,
}
use kolme.MerkleMap.{leaf, tree, key_eq, key_le, get_index_for_depth}
use kolme.MerkleMap.Map.{ToMerkleKey, MerkleMap, new, insert, remove}
use kolme.MerkleMap.Refinement.{
  Write, inserts, removes, IsShort, write_all, all_written, Refines, write_all-Refines,
}

abbrev be_bytes : ToMerkleKey ℕ
be_bytes = record { to_merkle_key = λ n. n / 256 % 256 ∷ n % 256 ∷ [] }

be_bytes-IsShort : (n : ℕ) → IsShort 4 (be_bytes.to_merkle_key n)
be_bytes-IsShort n = ((omega arith, (omega arith, tt)), omega arith)

abbrev insert_from : ℕ → ℕ → List (Write ℕ ℕ)
insert_from zero key = []
insert_from (suc n) key = inserts key (key * 7) ∷ insert_from n (key + 3)

abbrev writes : List (Write ℕ ℕ)
writes = insert_from 18 250 ++ inserts 250 1 ∷ removes 256 ∷ removes 7 ∷ removes 253 ∷ []

write_all-Refines_example :
    Refines be_bytes 4
      (omega arith)
      be_bytes-IsShort
      (write_all be_bytes 4 writes new)
      (all_written be_bytes writes (λ k. none))
write_all-Refines_example = write_all-Refines be_bytes 4 (omega arith) be_bytes-IsShort writes

-- The 18 entries are in a tree; after two removals they are in a leaf again.
abbrev root_kind : Option (MerkleMap ℕ ℕ × List (Option (ℕ × ℕ))) → ℕ
root_kind none = 0
root_kind (some (m, vs)) = elim m.root [ leaf es ↦ 1 | tree len entry branches ↦ 2 ]

split : root_kind (write_all be_bytes 4 (insert_from 18 250) new) ≡ 2
unfolding insert remove key_eq key_le get_index_for_depth
split = refl

collapsed : root_kind (write_all be_bytes 4 writes new) ≡ 1
unfolding insert remove key_eq key_le get_index_for_depth
collapsed = refl
