-- ===== src/Tests/Decimals.antt =====
-- Decimals for the runs: whole numbers of 10 ^ -28, which never overflow.
use kolme.Prelude.{
  sym, refl, ap, ◌∙◌, ◌↔◌, ◌*◌, ◌^◌, ◌-◌, ◌≡◌, compare, Bool, true, false, ◌==◌, some, arith, ◌+◌,
}
use mathlib.Core.Path.{ap₂}
use kolme.Prelude.Int.{
  ℤ, pos, negsuc, pos_part, neg_part, ◌+ℤ◌, ◌-ℤ◌, eq_of_parts, ◌<ℤ◌, int_laws, parts_of_eq, ◌≤ℤ◌,
}
use kolme.Types.Decimal.{DecimalOps, IsDecimal, value}

abbrev is_negative : ℤ → Bool
is_negative (pos n) = false
is_negative (negsuc n) = true

abbrev is_zero : ℤ → Bool
is_zero (pos n) = n == 0
is_zero (negsuc n) = false

instance abbrev pub whole_ops : DecimalOps ℤ
whole_ops = record {
  zero = pos 0;
  is_zero = is_zero;
  is_sign_negative = is_negative;
  cmp = λ a b. compare (pos_part a + neg_part b) (pos_part b + neg_part a);
  checked_add = λ a b. some (a +ℤ b);
  checked_sub = λ a b. some (a -ℤ b);
  mantissa = λ a. a;
  scale = λ a. 28;
  try_from_i128_with_scale = λ m s. some (pos (m * 10 ^ (28 - s)));
}

value_whole : (d : ℤ) → value d ≡ d
unfolding value
value_whole (pos n) = ap pos (omega arith)
value_whole (negsuc n) = ap negsuc (omega arith)

is_zero_whole : (d : ℤ) → (is_zero d ≡ true) ↔ (d ≡ pos 0)
is_zero_whole d = ground arith

nonneg_whole : (d : ℤ) → is_negative d ≡ false → pos 0 ≤ℤ d
nonneg_whole d h = ground arith

nonpos_whole : (d : ℤ) → is_negative d ≡ true → d ≤ℤ pos 0
nonpos_whole d h = ground arith

whole_sum : (a b d : ℤ) → value d ≡ value a +ℤ value b → value (a +ℤ b) ≡ value d
whole_sum a b d h =
    value_whole (a +ℤ b) ∙ ap₂ ◌+ℤ◌ (sym (value_whole a)) (sym (value_whole b)) ∙ sym h

whole_difference : (a b d : ℤ) → value d ≡ value a -ℤ value b → value (a -ℤ b) ≡ value d
whole_difference a b d h =
    value_whole (a -ℤ b) ∙ ap₂ ◌-ℤ◌ (sym (value_whole a)) (sym (value_whole b)) ∙ sym h

sum_positive :
    (a b c : ℤ) → pos 0 ≤ℤ value a → pos 0 <ℤ value b → some (a +ℤ b) ≡ some c → pos 0 <ℤ value c
sum_positive a b c h k e =
    let same : a +ℤ b ≡ c = ground (arith, e) in
    omega (
      int_laws,
      h,
      k,
      parts_of_eq same,
      parts_of_eq (value_whole a),
      parts_of_eq (value_whole b),
      parts_of_eq (value_whole c),
    )

difference_positive :
    (a b c : ℤ) → pos 0 ≤ℤ value b → value b <ℤ value a → some (a -ℤ b) ≡ some c → pos 0 <ℤ value c
difference_positive a b c h k e =
    let same : a -ℤ b ≡ c = ground (arith, e) in
    omega (
      int_laws,
      h,
      k,
      parts_of_eq same,
      parts_of_eq (value_whole a),
      parts_of_eq (value_whole b),
      parts_of_eq (value_whole c),
    )

pub whole-IsDecimal : IsDecimal ℤ
whole-IsDecimal = record {
  zero_value = value_whole (pos 0);
  is_zero_iff = λ d. rw (value_whole d) (is_zero_whole d);
  nonneg_of_sign = λ d. rw (value_whole d) (nonneg_whole d);
  nonpos_of_sign = λ d. rw (value_whole d) (nonpos_whole d);
  lt_of_cmp = λ a b. rw (value_whole a, value_whole b) (λ h. ground arith);
  eq_of_cmp = λ a b. rw (value_whole a, value_whole b) (λ h. eq_of_parts a b (ground arith));
  gt_of_cmp = λ a b. rw (value_whole a, value_whole b) (λ h. ground arith);
  add_exact = λ a b d h. (a +ℤ b, refl, whole_sum a b d h);
  sub_exact = λ a b d h. (a -ℤ b, refl, whole_difference a b d h);
  add_positive = sum_positive;
  sub_positive = difference_positive;
  sub_returns = λ a b h k e. cc;
}
