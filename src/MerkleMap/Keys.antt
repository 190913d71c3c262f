-- ===== src/MerkleMap/Keys.antt =====
-- The nibbles of a key determine it, so they lead to its place in the tree.
use kolme.Prelude.{
  ℕ, zero, suc, ◌+◌, ◌*◌, ◌/◌, ◌%◌, ◌≤◌, ◌<◌, ◌≡◌, ◌⊎◌, refl, true, none, some, [], ◌∷◌, arith, inl,
  inr, length, ap, ◌∙◌, sym, Option-cases, Option, if◌then◌else◌, ◌==◌,
}
use kolme.MerkleMap.{MerkleKey, key_eq, byte_at, get_index_for_depth}

pub key_eq_refl : (k : MerkleKey) → key_eq k k ≡ true
unfolding key_eq
key_eq_refl [] = refl
key_eq_refl (b ∷ k) = ground (arith, key_eq_refl k)

pub eq_of_key_eq : (k j : MerkleKey) → key_eq k j ≡ true → k ≡ j
unfolding key_eq
eq_of_key_eq [] [] h = refl
eq_of_key_eq [] (c ∷ j) h = absurd (ground arith)
eq_of_key_eq (b ∷ k) [] h = absurd (ground arith)
eq_of_key_eq (b ∷ k) (c ∷ j) h = ground (arith, eq_of_key_eq k j)

-- The two nibbles of the first byte, and those of the rest.
index_high : (b : ℕ) (k : MerkleKey) → get_index_for_depth 0 (b ∷ k) ≡ some (b / 16)
unfolding get_index_for_depth byte_at
index_high b k = refl

index_low : (b : ℕ) (k : MerkleKey) → get_index_for_depth 1 (b ∷ k) ≡ some (b % 16)
unfolding get_index_for_depth byte_at
index_low b k = refl

abbrev nibble : ℕ → ℕ → MerkleKey → Option ℕ
nibble half odd k = elim (byte_at half k) [
  | none ↦ none
  | some byte ↦ some (if odd == 0 then byte / 16 else byte % 16)
]

index_rest :
    (d b : ℕ) (k : MerkleKey) → get_index_for_depth (d + 2) (b ∷ k) ≡ get_index_for_depth d k
unfolding get_index_for_depth byte_at
index_rest d b k =
    let half : (d + 2) / 2 ≡ suc (d / 2) = omega arith in
    let odd : (d + 2) % 2 ≡ d % 2 = omega arith in
    ap (λ h. nibble h ((d + 2) % 2) (b ∷ k)) half ∙ ap (λ p. nibble (suc (d / 2)) p (b ∷ k)) odd

index_nil : (d : ℕ) → get_index_for_depth d [] ≡ none
unfolding get_index_for_depth byte_at
index_nil d = refl

byte_at-none : (i j : ℕ) (k : MerkleKey) → i ≤ j → byte_at i k ≡ none → byte_at j k ≡ none
unfolding byte_at
byte_at-none i j [] h e = refl
byte_at-none zero j (b ∷ k) h e = absurd (ground arith)
byte_at-none (suc i) zero (b ∷ k) h e = absurd (omega arith)
byte_at-none (suc i) (suc j) (b ∷ k) h e = byte_at-none i j k (omega arith) e

index_none_byte :
    (d : ℕ) (k : MerkleKey) → get_index_for_depth d k ≡ none → byte_at (d / 2) k ≡ none
unfolding get_index_for_depth
index_none_byte d k e = ground arith

byte_none_index :
    (d : ℕ) (k : MerkleKey) → byte_at (d / 2) k ≡ none → get_index_for_depth d k ≡ none
unfolding get_index_for_depth
byte_none_index d k e = ground arith

-- Past its end a key has no more nibbles.
index_ends :
    (d i : ℕ) (k : MerkleKey)
    → d ≤ i
    → get_index_for_depth d k ≡ none
    → get_index_for_depth i k ≡ none
index_ends d i k h e =
    byte_none_index i k (byte_at-none (d / 2) (i / 2) k (omega arith) (index_none_byte d k e))

same_nibbles :
    (k j : MerkleKey) → ((i : ℕ) → get_index_for_depth i k ≡ get_index_for_depth i j) → k ≡ j
same_nibbles [] [] h = refl
same_nibbles [] (c ∷ j) h = absurd (ground (arith, h 0, index_nil 0, index_high c j))
same_nibbles (b ∷ k) [] h = absurd (ground (arith, h 0, index_nil 0, index_high b k))
same_nibbles (b ∷ k) (c ∷ j) h =
    let high : b / 16 ≡ c / 16 = ground (arith, h 0, index_high b k, index_high c j) in
    let low : b % 16 ≡ c % 16 = ground (arith, h 1, index_low b k, index_low c j) in
    let same : b ≡ c = omega (arith, high, low) in
    let rest = same_nibbles k j (λ i. sym (index_rest i b k) ∙ h (i + 2) ∙ index_rest i c j) in
    ground (arith, same, rest)

below_or : (d i : ℕ) → (i < d) ⊎ (d ≤ i)
below_or d i = ground arith

-- Two keys that agree up to a depth at which both end are one key.
pub key_of_path :
    (d : ℕ) (k j : MerkleKey)
    → ((i : ℕ) → i < d → get_index_for_depth i k ≡ get_index_for_depth i j)
    → get_index_for_depth d k ≡ none
    → get_index_for_depth d j ≡ none
    → k ≡ j
key_of_path d k j agree e f = same_nibbles k j at
  where
    at : (i : ℕ) → get_index_for_depth i k ≡ get_index_for_depth i j
    at i = elim (below_or d i) [
      | inl h ↦ agree i h
      | inr h ↦ index_ends d i k h e ∙ sym (index_ends d i j h f)
    ]

-- The bytes of a key are bytes.
abbrev pub AreBytes : MerkleKey → Type 0
AreBytes [] = Unit
AreBytes (b ∷ k) = (b < 256) × AreBytes k

byte_at-lt : (i b : ℕ) (k : MerkleKey) → AreBytes k → byte_at i k ≡ some b → b < 256
unfolding byte_at
byte_at-lt i b [] h e = absurd (ground arith)
byte_at-lt zero b (c ∷ k) h e = ground (arith, h.0)
byte_at-lt (suc i) b (c ∷ k) h e = byte_at-lt i b k h.1 e

pub index-lt : (d i : ℕ) (k : MerkleKey) → AreBytes k → get_index_for_depth d k ≡ some i → i < 16
unfolding get_index_for_depth
index-lt d i k h e = elim (Option-cases (byte_at (d / 2) k)) [
  | inl f ↦ absurd (ground (arith, f))
  | inr (b, f) ↦ ground (arith, f, byte_at-lt (d / 2) b k h f)
]

-- A key of `n` bytes ends at depth 2 * n.
byte_at-length : (k : MerkleKey) (i : ℕ) → length k ≤ i → byte_at i k ≡ none
unfolding byte_at
byte_at-length [] i h = refl
byte_at-length (b ∷ k) zero h = absurd (omega arith)
byte_at-length (b ∷ k) (suc i) h = byte_at-length k i (omega arith)

pub index_length : (d : ℕ) (k : MerkleKey) → 2 * length k ≤ d → get_index_for_depth d k ≡ none
index_length d k h = byte_none_index d k (byte_at-length k (d / 2) (omega arith))

pub index_inside : (d i : ℕ) (k : MerkleKey) → get_index_for_depth d k ≡ some i → d < 2 * length k
index_inside d i k e = ground (arith, e, index_length d k)
