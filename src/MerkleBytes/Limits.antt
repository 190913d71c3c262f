-- ===== src/MerkleBytes/Limits.antt =====
-- The limits of the loads: machine words, positions, and what a load does at the end of the payload.
use kolme.Prelude.{
  Option, none, some, Option-cases, u64_mod, inl, inr, ℕ, zero, suc, ◌+◌, ◌-◌, ◌*◌, ◌/◌, ◌%◌, ◌^◌,
  ◌≤◌, ◌<◌, ◌≡◌, refl, sym, ap, ◌∙◌, some, List, [], ◌∷◌, Result, ok, err, ltb, leb, if◌then◌else◌,
  length, u64_mod, arith, inl, inr, Option-cases, if_elim, ◌⊎◌, subst, ◌==◌,
}
use kolme.MerkleBytes.{
  MerkleDeserializer, MerkleSerialError, insufficient_input, panic, chunks, store_high, store_usize,
  nth, peek_byte, pop_byte, take, drop, load_raw_bytes, load_step, load_loop, load_usize, Load,
}
use kolme.MerkleBytes.Varint.{store_usize_returns}
use kolme.MerkleBytes.Lists.{length-append}

-- The bytes between two positions.
abbrev slice : ℕ → ℕ → List ℕ → List ℕ
slice start end bytes = take (end - start) (drop start bytes)

-- From a position in a payload shorter than 2 ^ 64, a load of `len` bytes, `len` below 2 ^ 64, gives
-- the bytes and moves behind them if there are so many; if not, it fails with `insufficient_input`
-- where the end is below 2 ^ 64 and panics where it is not, and does not move.
pub load_raw_bytes_lem :
    (len : ℕ) (self : MerkleDeserializer)
    → len < u64_mod
    → self.pos ≤ length self.payload
    → length self.payload < u64_mod
    → load_raw_bytes len self ≡ (
        if leb (self.pos + len) (length self.payload)
        then (
          ok (slice self.pos (self.pos + len) self.payload),
          record { payload = self.payload; pos = self.pos + len },
        )
        else if ltb (self.pos + len) u64_mod
        then (err insufficient_input, self)
        else (err panic, self))
unfolding load_raw_bytes
load_raw_bytes_lem len self h p l = ground arith

nth_lt : (i b : ℕ) (bs : List ℕ) → nth i bs ≡ some b → i < length bs
nth_lt i b [] h = absurd (ground arith)
nth_lt zero b (x ∷ bs) h = omega arith
nth_lt (suc i) b (x ∷ bs) h = let r = nth_lt i b bs h in omega (arith, r)

abbrev Loaded : Type 0
Loaded = Result MerkleSerialError ℕ × MerkleDeserializer

-- A value that is read fits a word and takes a byte at least.
abbrev IsWord : ℕ → Loaded → Type 0
IsWord start (err e, self) = Unit
IsWord start (ok v, self) = (v < u64_mod) × (start < self.pos)

-- A load keeps the payload and stays in it.
abbrev pub IsWithin : MerkleDeserializer → Loaded → Type 0
IsWithin self (r, self') =
    (self'.payload ≡ self.payload)
    × (self.pos ≤ self'.pos)
    × (self'.pos ≤ length self.payload)
    × IsWord self.pos (r, self')

abbrev moved : MerkleDeserializer → MerkleDeserializer
moved self = record { payload = self.payload; pos = self.pos + 1 }

pop-cases :
    (self : MerkleDeserializer)
    → (pop_byte self ≡ (err insufficient_input, self))
      ⊎ ((b : ℕ) × (pop_byte self ≡ (ok b, moved self)) × (self.pos < length self.payload))
unfolding pop_byte peek_byte
pop-cases self = elim (Option-cases (nth self.pos self.payload)) [
  | inl f ↦ inl (ground (arith, f))
  | inr (b, f) ↦ inr (b, ground (arith, f), nth_lt self.pos b self.payload f)
]

load_step-IsWithin :
    (rest : ℕ → Load ℕ) (value b : ℕ) (self : MerkleDeserializer)
    → self.pos < length self.payload
    → ((v : ℕ) → IsWithin (moved self) (rest v (moved self)))
    → IsWithin self (load_step rest value b (moved self))
unfolding load_step
load_step-IsWithin rest value b self p h =
    if_elim (IsWithin self) (ltb ((u64_mod - 1) / 2 ^ 7) value)
      (λ large. (refl, omega arith, omega (arith, p), tt))
      (λ small.
        if_elim (IsWithin self) (b / 128 % 2 == 0)
          (λ last. (refl, omega arith, omega (arith, p), (ground (arith, small), omega arith)))
          (λ more.
            widen (rest (value * 2 ^ 7 + b % 128) (moved self)) (h (value * 2 ^ 7 + b % 128))))
  where
    widen : (r : Loaded) → IsWithin (moved self) r → IsWithin self r
    widen (err e, s) w = (w.0, omega (arith, w.1), w.2, tt)
    widen (ok v, s) w = (w.0, omega (arith, w.1), w.2, (w.3.0, omega (arith, w.1, w.3.1)))

load_loop-IsWithin :
    (fuel value : ℕ) (self : MerkleDeserializer)
    → self.pos ≤ length self.payload
    → IsWithin self (load_loop fuel value self)
unfolding load_loop
load_loop-IsWithin zero value self p = (refl, omega arith, p, tt)
load_loop-IsWithin (suc fuel) value self p = elim (pop-cases self) [
  | inl f ↦ subst after (sym f) (refl, omega arith, p, tt)
  | inr (b, f, q) ↦ subst after (sym f) (
      load_step-IsWithin (load_loop fuel) value b self q
        (λ v. load_loop-IsWithin fuel v (moved self) (omega (arith, q))))
]
  where
    after : Loaded → Type 0
    after x = IsWithin self (
        let (r, s') = x in
        elim r [ ok b ↦ load_step (load_loop fuel) value b s' | err e ↦ (err e, s') ])

-- From any position in any payload, `load_usize` keeps the payload, does not go back, does not leave
-- the payload, and where it succeeds its value is below 2 ^ 64 and it has taken a byte at least.
pub load_usize-IsWithin :
    (self : MerkleDeserializer) → self.pos ≤ length self.payload → IsWithin self (load_usize self)
unfolding load_usize
load_usize-IsWithin self p = load_loop-IsWithin (length self.payload + 1) 0 self p

-- The bytes that `store_usize` adds.
length-chunks : (room v : ℕ) (cs : List ℕ) → chunks room v ≡ some cs → length cs ≤ room
unfolding chunks
length-chunks zero v cs e = ground (arith, e)
length-chunks (suc room) v cs e = elim (Option-cases (chunks room (v / 2 ^ 7))) [
  | inl f ↦ ground (arith, e, f)
  | inr (higher, f) ↦ ground (arith, e, f, length-chunks room (v / 2 ^ 7) higher f)
]

length-store_high : (cs buff : List ℕ) → length (store_high cs buff) ≡ length buff + length cs
unfolding store_high
length-store_high [] buff = omega arith
length-store_high (c ∷ cs) buff =
    ground (arith, length-append (store_high cs buff) ((c + 128) ∷ []), length-store_high cs buff)

-- At least one byte is added, and at most 10.
abbrev pub IsAdded : List ℕ → List ℕ → Type 0
IsAdded buff buff' = (length buff < length buff') × (length buff' ≤ length buff + 10)

added :
    (v : ℕ) (buff : List ℕ) (r : Option (List ℕ))
    → chunks 10 v ≡ r
    → (buff' : List ℕ) → store_usize v buff ≡ some buff'
    → IsAdded buff buff'
unfolding store_usize
added v buff none f buff' e = absurd (ground (arith, e, f))
added v buff (some []) f buff' e = ground (arith, e, f, length-append buff (0 ∷ []))
added v buff (some (c ∷ cs)) f buff' e = ground (
  arith,
  e,
  f,
  length-append (store_high cs buff) (c ∷ []),
  length-store_high cs buff,
  length-chunks 10 v (c ∷ cs) f,
)

-- `store_usize` of a number below 2 ^ 64 does not panic, and makes the buffer longer by at least one
-- byte and at most ten.
pub length-store_usize :
    (v : ℕ) (buff : List ℕ)
    → v < u64_mod
    → (buff' : List ℕ) × (store_usize v buff ≡ some buff') × IsAdded buff buff'
length-store_usize v buff h =
    let (buff', e) = store_usize_returns v buff h in
    (buff', e, added v buff (chunks 10 v) refl buff' e)

-- The rounds that the fuel allows are enough: more fuel gives the same.
load_step_same :
    (rest rest' : ℕ → Load ℕ) (value b : ℕ) (self : MerkleDeserializer)
    → ((v : ℕ) → rest v self ≡ rest' v self)
    → load_step rest value b self ≡ load_step rest' value b self
unfolding load_step
load_step_same rest rest' value b self h = ground (arith, h (value * 2 ^ 7 + b % 128))

-- From a position in the payload, with more fuel than bytes that are left, the loop of `load_usize`
-- gives the same as with any larger fuel.
pub load_loop_enough :
    (fuel more value : ℕ) (self : MerkleDeserializer)
    → length self.payload < self.pos + fuel
    → self.pos ≤ length self.payload
    → load_loop (fuel + more) value self ≡ load_loop fuel value self
unfolding load_loop
load_loop_enough zero more value self h p = absurd (omega (arith, h, p))
load_loop_enough (suc fuel) more value self h p =
    ap (λ n. load_loop n value self) shift ∙ elim (pop-cases self) [
      | inl f ↦ subst (λ x. after (fuel + more) x ≡ after fuel x) (sym f) refl
      | inr (b, f, q) ↦
          subst (λ x. after (fuel + more) x ≡ after fuel x) (sym f)
            (load_step_same (load_loop (fuel + more)) (load_loop fuel) value b (moved self) (λ v.
              load_loop_enough fuel more v (moved self) (omega (arith, h)) (omega (arith, q))))
    ]
  where
    after : ℕ → Loaded → Loaded
    after n x =
        let (r, s') = x in
        elim r [ ok b ↦ load_step (load_loop n) value b s' | err e ↦ (err e, s') ]

    shift : suc fuel + more ≡ suc (fuel + more)
    shift = omega arith
