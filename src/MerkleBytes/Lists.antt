-- ===== src/MerkleBytes/Lists.antt =====
-- Lists of bytes: positions, slices, appending.
use kolme.Prelude.{ℕ, ◌+◌, ◌≡◌, refl, ap, some, List, [], ◌∷◌, ◌++◌, length, arith}
use kolme.MerkleBytes.{nth, take, drop}

pub append_assoc : (a b c : List ℕ) → (a ++ b) ++ c ≡ a ++ (b ++ c)
append_assoc [] b c = refl
append_assoc (x ∷ a) b c = ap (λ l. x ∷ l) (append_assoc a b c)

pub length-append : (a b : List ℕ) → length (a ++ b) ≡ length a + length b
length-append [] b = omega arith
length-append (x ∷ a) b = ground (arith, length-append a b)

pub nth_middle : (a : List ℕ) (b : ℕ) (c : List ℕ) → nth (length a) (a ++ b ∷ c) ≡ some b
nth_middle [] b c = refl
nth_middle (x ∷ a) b c = nth_middle a b c

pub drop_before : (a b : List ℕ) → drop (length a) (a ++ b) ≡ b
drop_before [] b = refl
drop_before (x ∷ a) b = drop_before a b

pub take_first : (a b : List ℕ) → take (length a) (a ++ b) ≡ a
take_first [] b = refl
take_first (x ∷ a) b = ap (λ l. x ∷ l) (take_first a b)

pub append_nil : (a : List ℕ) → a ++ [] ≡ a
append_nil [] = refl
append_nil (x ∷ a) = ap (λ l. x ∷ l) (append_nil a)
