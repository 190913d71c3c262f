-- ===== src/Tests/Bytes.antt =====
-- Numbers and slices written to a buffer and read back, and a length that is too large.
use kolme.Prelude.{
  some, none, ◌^◌, ℕ, ◌<◌, ◌≡◌, refl, List, [], ◌∷◌, ◌++◌, ok, err, arith, ◌+◌, ◌-◌, u64_mod,
  length, if◌then◌else◌, leb, ltb,
}
use kolme.MerkleBytes.{
  MerkleDeserializer, insufficient_input, panic, usize_overflow, store_usize, store_slice,
  load_usize, load_bytes, load_loop, load_raw_bytes, take, drop,
}
use kolme.MerkleBytes.Varint.{load_usize-store_usize, load_bytes-store_slice}
use kolme.MerkleBytes.Limits.{
  load_raw_bytes_lem, IsWithin, load_usize-IsWithin, load_loop_enough, IsAdded, length-store_usize,
}

abbrev written : List ℕ
written = 9 ∷ 130 ∷ 44 ∷ []

stored : store_usize 300 (9 ∷ []) ≡ some written
unfolding store_usize
stored = refl

load_usize-store_usize_example :
    (buff' : List ℕ) × (store_usize 300 (9 ∷ []) ≡ some buff')
    × (load_usize (record { payload = buff' ++ 7 ∷ []; pos = 1 })
        ≡ (ok 300, record { payload = buff' ++ 7 ∷ []; pos = length buff' }))
load_usize-store_usize_example = load_usize-store_usize 300 (9 ∷ []) (7 ∷ []) (omega arith)

abbrev text : List ℕ
text = 104 ∷ 105 ∷ []

text_fits : (after : List ℕ) → store_slice text (9 ∷ []) ≡ some after → length after < u64_mod
unfolding store_slice
text_fits after e = ground (arith, e)

load_bytes-store_slice_example :
    (buff' : List ℕ) × (store_slice text (9 ∷ []) ≡ some buff')
    × (load_bytes (record { payload = buff' ++ 7 ∷ []; pos = 1 })
        ≡ (ok text, record { payload = buff' ++ 7 ∷ []; pos = length buff' }))
load_bytes-store_slice_example =
    load_bytes-store_slice text (9 ∷ []) (7 ∷ []) (omega arith) text_fits

-- The length 2 ^ 64 - 1, which a peer may send: ten bytes, and a byte behind them.
abbrev huge : MerkleDeserializer
huge = record {
  payload = 129 ∷ 255 ∷ 255 ∷ 255 ∷ 255 ∷ 255 ∷ 255 ∷ 255 ∷ 255 ∷ 127 ∷ 0 ∷ [];
  pos = 0;
}

huge_stored :
    store_usize (u64_mod - 1) []
    ≡ some (129 ∷ 255 ∷ 255 ∷ 255 ∷ 255 ∷ 255 ∷ 255 ∷ 255 ∷ 255 ∷ 127 ∷ [])
unfolding store_usize
huge_stored = refl

-- A number of 71 bits, which a `usize` cannot hold, would not fit the array.
too_large : store_usize (2 ^ 70) [] ≡ none
unfolding store_usize
too_large = refl

huge_panics : (load_bytes huge).0 ≡ err panic
unfolding load_bytes
huge_panics = refl

abbrev at_end : MerkleDeserializer
at_end = record { payload = 1 ∷ 2 ∷ 3 ∷ []; pos = 2 }

load_raw_bytes_example : load_raw_bytes (u64_mod - 1) at_end ≡ (
    if leb (2 + (u64_mod - 1)) 3
    then (
      ok (take (2 + (u64_mod - 1) - 2) (drop 2 (1 ∷ 2 ∷ 3 ∷ []))),
      record { payload = 1 ∷ 2 ∷ 3 ∷ []; pos = 2 + (u64_mod - 1) },
    )
    else if ltb (2 + (u64_mod - 1)) u64_mod
    then (err insufficient_input, at_end)
    else (err panic, at_end))
load_raw_bytes_example =
    load_raw_bytes_lem (u64_mod - 1) at_end (omega arith) (omega arith) (omega arith)

load_usize-IsWithin_example : IsWithin huge (load_usize huge)
load_usize-IsWithin_example = load_usize-IsWithin huge (omega arith)

length-store_usize_example :
    (buff' : List ℕ) × (store_usize 300 (9 ∷ []) ≡ some buff') × IsAdded (9 ∷ []) buff'
length-store_usize_example = length-store_usize 300 (9 ∷ []) (omega arith)

load_loop_enough_example : load_loop (2 + 5) 0 at_end ≡ load_loop 2 0 at_end
load_loop_enough_example = load_loop_enough 2 5 0 at_end (omega arith) (omega arith)

-- A value of 65 bits.
overflowed :
    (load_usize (record {
      payload = 130 ∷ 128 ∷ 128 ∷ 128 ∷ 128 ∷ 128 ∷ 128 ∷ 128 ∷ 128 ∷ 0 ∷ [];
      pos = 0;
    })).0
    ≡ err usize_overflow
unfolding load_usize
overflowed = refl
