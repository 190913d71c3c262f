-- ===== src/Types/Decimal.antt =====
-- `rust_decimal::Decimal`, a third-party type: its operations are a parameter, and the laws that
-- the proofs about amounts use are hypotheses. A decimal stands for mantissa / 10 ^ scale with a
-- scale of at most 28, so its value is a whole number of units of 10 ^ -28.
use Prim.Native.Nat.Ordering.{lt, eq, gt}
use kolme.Prelude.{
  ℕ, suc, ◌-◌, ◌*◌, ◌^◌, Ordering, ◌≡◌, ◌↔◌, Bool, true, false, Option, none, some, ◌≢◌,
}
use kolme.Prelude.Int.{ℤ, pos, negsuc, ◌+ℤ◌, ◌-ℤ◌, ◌≤ℤ◌, ◌<ℤ◌}

pub record DecimalOps (D : Type 0) : Type 0 where
  -- `Decimal::ZERO`, which is also `Decimal::default()`
  pub zero : D
  pub is_zero : D → Bool
  pub is_sign_negative : D → Bool
  pub cmp : D → D → Ordering
  -- `checked_add` and `checked_sub`; `+=` and `-=` panic where these give `None`
  pub checked_add : D → D → Option D
  pub checked_sub : D → D → Option D
  pub mantissa : D → ℤ
  pub scale : D → ℕ
  -- `try_from_i128_with_scale` at a number that is not negative
  pub try_from_i128_with_scale : ℕ → ℕ → Option D

abbrev pub times : ℤ → ℕ → ℤ
times (pos n) k = pos (n * k)
times (negsuc n) k = negsuc (suc n * k - 1)

-- The value in units of 10 ^ -28.
unfoldable pub value : {D : Type 0} ⦃ops : DecimalOps D⦄ → D → ℤ
value ⦃ops⦄ d = times (ops.mantissa d) (10 ^ (28 - ops.scale d))

-- What the documentation of the crate says of the operations: a decimal has 96 bits of digits, and
-- comparison is by value. A sum or difference that has the value of a decimal is given as it is. Any
-- other is rounded to the digits that there are, which keeps its sign, or overflows; a difference of
-- decimals that are not negative is no larger than they are and does not overflow.
pub record IsDecimal (D : Type 0) ⦃ops : DecimalOps D⦄ : Type 0 where
  pub zero_value : value ops.zero ≡ pos 0
  pub is_zero_iff : (d : D) → (ops.is_zero d ≡ true) ↔ (value d ≡ pos 0)
  pub nonneg_of_sign : (d : D) → ops.is_sign_negative d ≡ false → pos 0 ≤ℤ value d
  pub nonpos_of_sign : (d : D) → ops.is_sign_negative d ≡ true → value d ≤ℤ pos 0
  pub lt_of_cmp : (a b : D) → ops.cmp a b ≡ lt → value a <ℤ value b
  pub eq_of_cmp : (a b : D) → ops.cmp a b ≡ eq → value a ≡ value b
  pub gt_of_cmp : (a b : D) → ops.cmp a b ≡ gt → value b <ℤ value a
  pub add_exact :
      (a b d : D)
      → value d ≡ value a +ℤ value b
      → (c : D) × (ops.checked_add a b ≡ some c) × (value c ≡ value d)
  pub sub_exact :
      (a b d : D)
      → value d ≡ value a -ℤ value b
      → (c : D) × (ops.checked_sub a b ≡ some c) × (value c ≡ value d)
  pub add_positive :
      (a b c : D)
      → pos 0 ≤ℤ value a
      → pos 0 <ℤ value b
      → ops.checked_add a b ≡ some c
      → pos 0 <ℤ value c
  pub sub_positive :
      (a b c : D)
      → pos 0 ≤ℤ value b
      → value b <ℤ value a
      → ops.checked_sub a b ≡ some c
      → pos 0 <ℤ value c
  pub sub_returns : (a b : D) → pos 0 ≤ℤ value b → value b ≤ℤ value a → ops.checked_sub a b ≢ none
