-- ===== src/MerkleBytes/Varint.antt =====
-- What `store_usize` and `store_slice` write, `load_usize` and `load_bytes` read back.
use kolme.Prelude.{
  ◌%◌, ◌==◌, if◌then◌else◌, some, ℕ, zero, suc, ◌+◌, ◌-◌, ◌*◌, ◌/◌, ◌^◌, ◌≤◌, ◌<◌, ◌≡◌, refl, sym,
  ap, ◌∙◌, List, [], ◌∷◌, ◌++◌, ok, length, u64_mod, arith,
}
use kolme.MerkleBytes.{
  MerkleDeserializer, chunks, store_high, store_usize, store_slice, peek_byte, pop_byte,
  load_raw_bytes, load_step, load_loop, load_usize, load_bytes,
}
use kolme.MerkleBytes.Lists.{
  append_assoc, length-append, nth_middle, drop_before, take_first, append_nil,
}

-- A deserializer that has read `done` and has `rest` before it.
abbrev between : List ℕ → List ℕ → MerkleDeserializer
between done rest = record { payload = done ++ rest; pos = length done }

pop_next :
    (done : List ℕ) (b : ℕ) (rest : List ℕ)
    → pop_byte (between done (b ∷ rest)) ≡ (ok b, between (done ++ b ∷ []) rest)
unfolding pop_byte peek_byte
pop_next done b rest =
    ground
      (arith, nth_middle done b rest, append_assoc done (b ∷ []) rest, length-append done (b ∷ []))

-- The value of the chunks.
abbrev sum_of : List ℕ → ℕ
sum_of [] = 0
sum_of (c ∷ cs) = c + 128 * sum_of cs

abbrev AreChunks : List ℕ → Type 0
AreChunks [] = Unit
AreChunks (c ∷ cs) = (c < 128) × AreChunks cs

-- The digits of a number to the base 128, as many as there is room for.
abbrev digits : ℕ → ℕ → List ℕ
digits zero v = []
digits (suc room) v = let rest = digits room (v / 128) in if v == 0 then [] else v % 128 ∷ rest

-- A number that has no more digits than there is room for does not panic.
chunks-digits : (room v : ℕ) → v < 128 ^ room → chunks room v ≡ some (digits room v)
unfolding chunks
chunks-digits zero v h = ground arith
chunks-digits (suc room) v h = ground (arith, chunks-digits room (v / 128) (grind arith))

sum_of-digits : (room v : ℕ) → v < 128 ^ room → sum_of (digits room v) ≡ v
sum_of-digits zero v h = ground arith
sum_of-digits (suc room) v h = ground (arith, sum_of-digits room (v / 128) (grind arith))

digits-AreChunks : (room v : ℕ) → AreChunks (digits room v)
digits-AreChunks zero v = tt
digits-AreChunks (suc room) v = ground (arith, digits-AreChunks room (v / 128))

-- The bytes of the higher chunks, behind a buffer.
abbrev high : List ℕ → List ℕ
high [] = []
high (c ∷ cs) = high cs ++ (c + 128) ∷ []

length-high : (cs : List ℕ) → length (high cs) ≡ length cs
length-high [] = refl
length-high (c ∷ cs) = ground (arith, length-append (high cs) ((c + 128) ∷ []), length-high cs)

store_high-high : (cs buff : List ℕ) → store_high cs buff ≡ buff ++ high cs
unfolding store_high
store_high-high [] buff = sym (append_nil buff)
store_high-high (c ∷ cs) buff =
    ap (λ l. l ++ (c + 128) ∷ []) (store_high-high cs buff)
    ∙ append_assoc buff (high cs) ((c + 128) ∷ [])

-- One round, on a byte with the continuation bit and on one without.
module _ (fuel v c : ℕ) (done rest : List ℕ) where
  next_byte :
      (b : ℕ)
      → load_loop (suc fuel) v (between done (b ∷ rest))
        ≡ load_step (load_loop fuel) v b (between (done ++ b ∷ []) rest)
  unfolding load_loop
  next_byte b = ground (arith, pop_next done b rest)

  goes_on :
      c < 128
      → v < 2 ^ 57
      → load_loop (suc fuel) v (between done ((c + 128) ∷ rest))
        ≡ load_loop fuel (c + 128 * v) (between (done ++ (c + 128) ∷ []) rest)
  unfolding load_step
  goes_on h u = next_byte (c + 128) ∙ ground arith

  ends :
      c < 128
      → v < 2 ^ 57
      → load_loop (suc fuel) v (between done (c ∷ rest))
        ≡ (ok (c + 128 * v), between (done ++ c ∷ []) rest)
  unfolding load_step
  ends h u = next_byte c ∙ ground arith

load_high :
    (cs done rest : List ℕ) (fuel : ℕ)
    → AreChunks cs
    → sum_of cs < 2 ^ 57
    → load_loop (length cs + fuel) 0 (between done (high cs ++ rest))
      ≡ load_loop fuel (sum_of cs) (between (done ++ high cs) rest)
load_high [] done rest fuel a h =
    ap (λ f. load_loop f 0 (between done rest)) plain
    ∙ ap (λ l. load_loop fuel 0 (between l rest)) (sym (append_nil done))
  where
    plain : 0 + fuel ≡ fuel
    plain = omega arith
load_high (c ∷ cs) done rest fuel a h =
    ap (λ l. load_loop (suc (length cs) + fuel) 0 (between done l))
      (append_assoc (high cs) ((c + 128) ∷ []) rest)
    ∙ ap (λ f. load_loop f 0 (between done (high cs ++ (c + 128) ∷ rest))) shift
    ∙ load_high cs done ((c + 128) ∷ rest) (suc fuel) a.1 (omega (arith, h))
    ∙ goes_on fuel (sum_of cs) c (done ++ high cs) rest a.0 (omega (arith, h))
    ∙ ap (λ l. load_loop fuel (c + 128 * sum_of cs) (between l rest))
        (append_assoc done (high cs) ((c + 128) ∷ []))
  where
    shift : suc (length cs) + fuel ≡ length cs + suc fuel
    shift = omega arith

-- The bytes that `store_usize` adds.
usize_bytes : ℕ → List ℕ
usize_bytes v = elim (digits 10 v) [ [] ↦ 0 ∷ [] | c ∷ cs ↦ high cs ++ c ∷ [] ]

store_usize-bytes :
    (v : ℕ) (buff : List ℕ) → v < u64_mod → store_usize v buff ≡ some (buff ++ usize_bytes v)
unfolding store_usize usize_bytes
store_usize-bytes v buff h =
    rw (store_usize, chunks-digits 10 v (ground (arith, h))) (go (digits 10 v))
  where
    go :
        (cs : List ℕ)
        → (elim cs [ [] ↦ some (buff ++ 0 ∷ []) | c ∷ cs ↦ some (store_high cs buff ++ c ∷ []) ])
          ≡ some (buff ++ (elim cs [ [] ↦ 0 ∷ [] | c ∷ cs ↦ high cs ++ c ∷ [] ]))
    go [] = refl
    go (c ∷ cs) =
        ap (λ l. some (l ++ c ∷ [])) (store_high-high cs buff)
        ∙ ap some (append_assoc buff (high cs) (c ∷ []))

-- The array has room for any number of 64 bits.
pub store_usize_returns :
    (v : ℕ) (buff : List ℕ) → v < u64_mod → (buff' : List ℕ) × (store_usize v buff ≡ some buff')
store_usize_returns v buff h = (buff ++ usize_bytes v, store_usize-bytes v buff h)

load_chunks :
    (cs done rest : List ℕ) (c fuel : ℕ)
    → AreChunks (c ∷ cs)
    → c + 128 * sum_of cs < u64_mod
    → load_loop (length cs + suc fuel) 0 (between done ((high cs ++ c ∷ []) ++ rest))
      ≡ (ok (c + 128 * sum_of cs), between (done ++ (high cs ++ c ∷ [])) rest)
load_chunks cs done rest c fuel a h =
    ap (λ l. load_loop (length cs + suc fuel) 0 (between done l))
      (append_assoc (high cs) (c ∷ []) rest)
    ∙ load_high cs done (c ∷ rest) (suc fuel) a.1 (omega (arith, h))
    ∙ ends fuel (sum_of cs) c (done ++ high cs) rest a.0 (omega (arith, h))
    ∙ ap (λ l. (ok (c + 128 * sum_of cs), between l rest)) (append_assoc done (high cs) (c ∷ []))

enough : (n m : ℕ) → n ≤ m → (f : ℕ) × (m + 1 ≡ n + suc f)
enough n m h = (m - n, omega (arith, h))

-- The loop has one unit of fuel for each byte of the payload, and more.
load_chunks_all :
    (cs done rest : List ℕ) (c v : ℕ)
    → AreChunks (c ∷ cs)
    → c + 128 * sum_of cs ≡ v
    → v < u64_mod
    → load_loop
        (length (done ++ ((high cs ++ c ∷ []) ++ rest)) + 1)
        0
        (between done ((high cs ++ c ∷ []) ++ rest))
      ≡ (ok v, between (done ++ (high cs ++ c ∷ [])) rest)
load_chunks_all cs done rest c v a e h =
    let whole = (high cs ++ c ∷ []) ++ rest in
    let (f, eq) = enough (length cs) (length (done ++ whole)) room in
    ap (λ n. load_loop n 0 (between done whole)) eq
    ∙ load_chunks cs done rest c f a (ground (arith, e, h))
    ∙ ap (λ x. (ok x, between (done ++ (high cs ++ c ∷ [])) rest)) e
  where
    room : length cs ≤ length (done ++ ((high cs ++ c ∷ []) ++ rest))
    room = ground (
      arith,
      length-append done ((high cs ++ c ∷ []) ++ rest),
      length-append (high cs ++ c ∷ []) rest,
      length-append (high cs) (c ∷ []),
      length-high cs,
    )

load_usize_bytes :
    (v : ℕ) (done rest : List ℕ)
    → v < u64_mod
    → load_usize (between done (usize_bytes v ++ rest))
      ≡ (ok v, between (done ++ usize_bytes v) rest)
unfolding load_usize usize_bytes
load_usize_bytes v done rest h =
    go (digits 10 v) (sum_of-digits 10 v (ground (arith, h))) (digits-AreChunks 10 v)
  where
    bytes : List ℕ → List ℕ
    bytes cs = elim cs [ [] ↦ 0 ∷ [] | c ∷ cs ↦ high cs ++ c ∷ [] ]

    go :
        (cs : List ℕ)
        → sum_of cs ≡ v
        → AreChunks cs
        → load_loop (length (done ++ (bytes cs ++ rest)) + 1) 0 (between done (bytes cs ++ rest))
          ≡ (ok v, between (done ++ bytes cs) rest)
    go [] e a = load_chunks_all [] done rest 0 v (ground arith, tt) e h
    go (c ∷ cs) e a = load_chunks_all cs done rest c v a e h

-- `store_usize` writes any number below 2 ^ 64 behind a buffer without a panic, and `load_usize` reads
-- it back from there and stops behind it, whatever follows.
pub load_usize-store_usize :
    (v : ℕ) (buff rest : List ℕ)
    → v < u64_mod
    → (buff' : List ℕ) × (store_usize v buff ≡ some buff')
      × (load_usize (record { payload = buff' ++ rest; pos = length buff })
          ≡ (ok v, record { payload = buff' ++ rest; pos = length buff' }))
load_usize-store_usize v buff rest h = (
  buff ++ usize_bytes v,
  store_usize-bytes v buff h,
  ap (λ l. load_usize (record { payload = l; pos = length buff }))
        (append_assoc buff (usize_bytes v) rest)
      ∙ load_usize_bytes v buff rest h,
)

load_raw_between :
    (bytes done rest : List ℕ)
    → length done + length bytes < u64_mod
    → load_raw_bytes (length bytes) (between done (bytes ++ rest))
      ≡ (ok bytes, between (done ++ bytes) rest)
unfolding load_raw_bytes
load_raw_between bytes done rest h = ground (
  arith,
  length-append done (bytes ++ rest),
  length-append bytes rest,
  length-append done bytes,
  append_assoc done bytes rest,
  drop_before done (bytes ++ rest),
  take_first bytes rest,
)

-- If the slice is shorter than 2 ^ 64, and so is the buffer after `store_slice`, then `store_slice`
-- does not panic, and `load_bytes` from the position where the slice was written gives the slice and
-- stops behind it, whatever follows.
pub load_bytes-store_slice :
    (bytes buff rest : List ℕ)
    → length bytes < u64_mod
    → ((after : List ℕ) → store_slice bytes buff ≡ some after → length after < u64_mod)
    → (buff' : List ℕ) × (store_slice bytes buff ≡ some buff')
      × (load_bytes (record { payload = buff' ++ rest; pos = length buff })
          ≡ (ok bytes, record { payload = buff' ++ rest; pos = length buff' }))
unfolding load_bytes store_slice
load_bytes-store_slice bytes buff rest short h =
    let (before, written, first) =
      load_usize-store_usize (length bytes) buff (bytes ++ rest) short in
    let whole : store_slice bytes buff ≡ some (before ++ bytes) = ground (arith, written) in
    let fits : length before + length bytes < u64_mod =
      ground (arith, length-append before bytes, h (before ++ bytes) whole) in
    let second = load_raw_between bytes before rest fits in
    (before ++ bytes, whole, ground (arith, first, second, append_assoc before bytes rest))
