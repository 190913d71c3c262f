-- ===== src/Types/Asset.antt =====
-- `AssetConfig` of packages/kolme/src/core/types.rs: amounts on a chain are whole numbers of the
-- asset's smallest unit, and amounts in Kolme are decimals.
use Prim.Native.Nat.Ordering.{lt, eq, gt}
use kolme.Prelude.{
  ℕ, zero, suc, ◌-◌, ◌*◌, ◌/◌, ◌%◌, ◌^◌, compare, none, some, Result, ok, err, leb, if◌then◌else◌,
}
use kolme.Prelude.Int.{pos, negsuc}
use kolme.Types.Errors.{Error, could_not_convert_to_decimal, u128_too_large, to_u128_with_negative}
use kolme.Types.Decimal.{DecimalOps}

pub record AssetConfig : Type 0 where
  pub decimals : ℕ
  pub asset_id : ℕ

abbrev i128_bound : ℕ
i128_bound = 2 ^ 127

abbrev u128_mod : ℕ
u128_mod = 2 ^ 128

-- `for _ in decimals..scale { int /= 10; }`
unfoldable divide_by_tens : ℕ → ℕ → ℕ
divide_by_tens zero int = int
divide_by_tens (suc rounds) int = divide_by_tens rounds (int / 10)

-- `for _ in scale..decimals { int *= 10; }`, on a `u128` that wraps around
unfoldable multiply_by_tens : ℕ → ℕ → ℕ
multiply_by_tens zero int = int
multiply_by_tens (suc rounds) int = multiply_by_tens rounds ((int * 10) % u128_mod)

-- The match on `decimals.cmp(&scale)`.
unfoldable rescale : ℕ → ℕ → ℕ → ℕ
unfolding divide_by_tens multiply_by_tens
rescale decimals scale int = elim (compare decimals scale) [
  | lt ↦ divide_by_tens (scale - decimals) int
  | eq ↦ int
  | gt ↦ multiply_by_tens (decimals - scale) int
]

module _ {D : Type 0} ⦃ops : DecimalOps D⦄ where
  unfoldable pub to_decimal : AssetConfig → ℕ → Result (Error D) D
  to_decimal config amount =
      if leb i128_bound amount
      then err (u128_too_large amount)
      else elim (ops.try_from_i128_with_scale amount config.decimals) [
        | none ↦ err (could_not_convert_to_decimal amount config.decimals)
        | some d ↦ ok d
      ]

  unfoldable pub to_u128 : AssetConfig → D → Result (Error D) (D × ℕ)
  unfolding to_decimal rescale
  to_u128 config amount = elim (ops.mantissa amount) [
    | negsuc n ↦ err (to_u128_with_negative amount)
    | pos n ↦
        let int = rescale config.decimals (ops.scale amount) n in
        elim (to_decimal config int) [ err e ↦ err e | ok d ↦ ok (d, int) ]
  ]
