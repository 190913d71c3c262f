-- ===== src/MerkleBytes.antt =====
-- packages/merkle-map/src/merkle_serializer.rs and merkle_deserializer.rs: the bytes that a value is
-- written to and read from. `usize` has 64 bits. The buffer of a serializer is the state of the
-- `store` functions, the payload and the position that of the `load` functions.
pub mod Lists
pub mod Varint
pub mod Limits
use kolme.Prelude.{
  ℕ, zero, suc, ◌+◌, ◌-◌, ◌*◌, ◌/◌, ◌%◌, ◌^◌, Bool, true, false, Option, none, some, List, [], ◌∷◌,
  ◌++◌, Result, ok, err, Action, ◌>>=◌, ◌>>◌, lift, ensure, ◌==◌, ltb, leb, if◌then◌else◌, length,
  u64_mod, not,
}

pub data MerkleSerialError : Type 0 where
  insufficient_input : MerkleSerialError
  usize_overflow : MerkleSerialError
  too_much_input : MerkleSerialError
  -- The slice `[self.pos..end]` with an end before its start.
  panic : MerkleSerialError

-- `MerkleSerializer`
abbrev store_byte : ℕ → List ℕ → List ℕ
store_byte byte buff = buff ++ byte ∷ []

abbrev store_raw_bytes : List ℕ → List ℕ → List ℕ
store_raw_bytes bytes buff = buff ++ bytes

-- The first loop of `store_usize`: the chunks of 7 bits, the lowest first. A chunk for which the
-- array has no room is a panic, which is none.
unfoldable chunks : ℕ → ℕ → Option (List ℕ)
chunks zero value = if value == 0 then some [] else none
chunks (suc room) value =
    let rest = chunks room (value / 2 ^ 7) in
    if value == 0
    then some []
    else elim rest [ none ↦ none | some higher ↦ some (value % 2 ^ 7 ∷ higher) ]

-- The second loop, from the last chunk down; `chunk | 0x80` sets a bit that a chunk does not have.
unfoldable store_high : List ℕ → List ℕ → List ℕ
store_high [] buff = buff
store_high (chunk ∷ higher) buff = store_byte (chunk + 128) (store_high higher buff)

-- Both loops; the array has room for 10 chunks.
unfoldable pub store_usize : ℕ → List ℕ → Option (List ℕ)
unfolding chunks store_high
store_usize value buff = elim (chunks 10 value) [
  | none ↦ none
  | some [] ↦ some (store_byte 0 buff)
  | some (chunk ∷ higher) ↦ some (store_byte chunk (store_high higher buff))
]

unfoldable pub store_slice : List ℕ → List ℕ → Option (List ℕ)
unfolding store_usize
store_slice bytes buff = elim (store_usize (length bytes) buff) [
  | none ↦ none
  | some stored ↦ some (store_raw_bytes bytes stored)
]

pub record MerkleDeserializer : Type 0 where
  pub payload : List ℕ
  pub pos : ℕ

abbrev Load : Type 0 → Type 0
Load = Action MerkleDeserializer MerkleSerialError

abbrev nth : ℕ → List ℕ → Option ℕ
nth i [] = none
nth zero (b ∷ bs) = some b
nth (suc i) (b ∷ bs) = nth i bs

unfoldable peek_byte : MerkleDeserializer → Result MerkleSerialError ℕ
peek_byte self = elim (nth self.pos self.payload) [
  | none ↦ err insufficient_input
  | some byte ↦ ok byte
]

unfoldable pop_byte : Load ℕ
unfolding peek_byte
pop_byte self = elim (peek_byte self) [
  | err e ↦ (err e, self)
  | ok byte ↦ (ok byte, record { payload = self.payload; pos = self.pos + 1 })
]

abbrev pub take : ℕ → List ℕ → List ℕ
take zero bs = []
take (suc n) [] = []
take (suc n) (b ∷ bs) = b ∷ take n bs

abbrev pub drop : ℕ → List ℕ → List ℕ
drop zero bs = bs
drop (suc n) [] = []
drop (suc n) (b ∷ bs) = drop n bs

-- The sum wraps around, as in a release build.
unfoldable pub load_raw_bytes : ℕ → Load (List ℕ)
load_raw_bytes len self =
    let end = (self.pos + len) % u64_mod in
    if ltb (length self.payload) end
    then (err insufficient_input, self)
    else if ltb end self.pos
    then (err panic, self)
    else (
      ok (take (end - self.pos) (drop self.pos self.payload)),
      record { payload = self.payload; pos = end },
    )

-- The loop of `load_usize`, on fuel: each round takes a byte. `rest` is the next round.
unfoldable load_step : (ℕ → Load ℕ) → ℕ → ℕ → Load ℕ
load_step rest value byte self =
    if ltb ((u64_mod - 1) / 2 ^ 7) value
    then (err usize_overflow, self)
    else if byte / 128 % 2 == 0
    then (ok (value * 2 ^ 7 + byte % 128), self)
    else rest (value * 2 ^ 7 + byte % 128) self

unfoldable pub load_loop : ℕ → ℕ → Load ℕ
unfolding pop_byte load_step
load_loop zero value self = (err insufficient_input, self)
load_loop (suc fuel) value self = (pop_byte >>= load_step (load_loop fuel) value) self

unfoldable pub load_usize : Load ℕ
unfolding load_loop
load_usize self = load_loop (length self.payload + 1) 0 self

unfoldable pub load_bytes : Load (List ℕ)
unfolding load_usize load_raw_bytes
load_bytes = load_usize >>= load_raw_bytes

-- `finish` of the deserializer.
unfoldable finish : MerkleDeserializer → Result MerkleSerialError (List ℕ)
finish self = if length self.payload == self.pos then ok self.payload else err too_much_input
