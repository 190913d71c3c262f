-- ===== src/Accounts/Burns.antt =====
-- What `burn` does to the balances, and when it refuses.
use Prim.Native.Nat.Ordering.{lt, eq, gt}
use kolme.Prelude.{
  ℕ, ap, ◌∙◌, sym, subst, ◌≡◌, ◌⊎◌, refl, ◌&&◌, some, arith, ◌==◌, inl, inr, if◌then◌else◌, Result,
  ok, err, Bool-cases, Option-cases, Ordering-cases,
}
use kolme.Prelude.Int.{pos, ◌-ℤ◌, ◌≤ℤ◌, ◌<ℤ◌, parts_of_eq, -ℤ_self}
use kolme.BTreeMap.{get, insert, remove}
use kolme.BTreeMap.Order.{IsSorted, remove-IsSorted}
use kolme.BTreeMap.All.{All-remove}
use kolme.Types.{Error, insufficient_balance, must_burn_positive}
use kolme.Types.Decimal.{DecimalOps, IsDecimal, value}
use kolme.Accounts.{Account, Accounts, store, get_or_default, burn, burn_from, not_positive}
use kolme.Accounts.Invariant.{
  IsValid, IsPositive, IsValidAccount, get_or_default-IsValidAccount, store-IsValid,
}
use kolme.Accounts.Balances.{
  balance_of, balance_of-store, balance_of-remove, positive_of_test, nonpos_of_test,
  store_balance-IsValid,
}

module _ {D : Type 0} ⦃ops : DecimalOps D⦄ (laws : IsDecimal D) where
  module _ (a : Accounts D) (valid : IsValid a) (id asset : ℕ) (amount : D) where
    -- How `burn` ends. It succeeds exactly with a positive amount that the balance covers: the
    -- balance falls by it, and no other balance changes. Otherwise it names the reason, the
    -- balance included, and changes nothing.
    abbrev pub Burned : Result (Error D) (Unit {0}) × Accounts D → Type 0
    Burned (ok _, a') =
        (pos 0 <ℤ value amount)
        × (value amount ≤ℤ balance_of id asset a)
        × ((j b : ℕ)
            → balance_of j b a' ≡ (
                if j == id && b == asset
                then balance_of j b a -ℤ value amount
                else balance_of j b a))
    Burned (err e, a') =
        (a' ≡ a)
        × ((value amount ≤ℤ pos 0) × (e ≡ must_burn_positive id asset amount)
            ⊎ (balance_of id asset a <ℤ value amount)
              × ((available : D) × (e ≡ insufficient_balance id asset amount available)
                  × (value available ≡ balance_of id asset a)))

    -- If the balance covers the amount, what is left is a decimal.
    abbrev pub CanBeLeft : Type 0
    CanBeLeft =
        value amount ≤ℤ balance_of id asset a
        → (d : D) × (value d ≡ balance_of id asset a -ℤ value amount)

    module _ (positive : pos 0 <ℤ value amount) (account : Account D)
        (found : get id a.accounts ≡ some account) (balance : D)
        (has : get asset account.assets ≡ some balance) where
      value-balance : value balance ≡ balance_of id asset a
      value-balance = ground (arith, found, has)

      same_account : get_or_default id a.accounts ≡ account
      same_account = rw (found, get_or_default) refl

      valid_account : IsValidAccount account
      valid_account = subst IsValidAccount same_account (get_or_default-IsValidAccount a valid id)

      -- The account with the burnt balance taken out, or with what is left of it.
      abbrev without : Account D
      without = record account { assets = remove asset account.assets }

      abbrev with_left : D → Account D
      with_left left = record account { assets = insert asset left account.assets }

      balance_of-without :
          (j b : ℕ)
          → balance_of j b (store id without a)
            ≡ (if j == id && b == asset then pos 0 else balance_of j b a)
      balance_of-without j b =
          subst
            (λ (x : Account D).
              IsSorted x.assets
              → balance_of j b (store id (record x { assets = remove asset x.assets }) a)
                ≡ (if j == id && b == asset then pos 0 else balance_of j b a))
            same_account (balance_of-remove j b id asset a) valid_account.assets_sorted

      balance_of-with_left :
          (left : D) (j b : ℕ)
          → balance_of j b (store id (with_left left) a)
            ≡ (if j == id && b == asset then value left else balance_of j b a)
      balance_of-with_left left j b =
          subst
            (λ (x : Account D).
              balance_of j b (store id (record x { assets = insert asset left x.assets }) a)
              ≡ (if j == id && b == asset then value left else balance_of j b a))
            same_account (balance_of-store j b id asset left a)

      without-IsValid : IsValid (store id without a)
      without-IsValid =
          store-IsValid a valid id without
            (record {
              assets_sorted = remove-IsSorted asset account.assets valid_account.assets_sorted;
              wallets_sorted = valid_account.wallets_sorted;
              pubkeys_sorted = valid_account.pubkeys_sorted;
              balances_positive =
                  All-remove IsPositive asset account.assets valid_account.balances_positive;
            })
            (ap (λ (x : Account D). x.pubkeys) (sym same_account))
            (ap (λ (x : Account D). x.wallets) (sym same_account))

      with_left-IsValid : (left : D) → IsPositive left → IsValid (store id (with_left left) a)
      with_left-IsValid left p =
          subst
            (λ (x : Account D).
              IsValid (store id (record x { assets = insert asset left x.assets }) a))
            same_account (store_balance-IsValid laws a valid id asset amount left p)

      after_equal :
          value balance ≡ value amount
          → (j b : ℕ)
          → balance_of j b (store id without a)
            ≡ (if j == id && b == asset then balance_of j b a -ℤ value amount else balance_of j b a)
      after_equal e j b =
          ground (arith, balance_of-without j b, value-balance, -ℤ_self (value amount))

      after_more :
          (left : D)
          → value left ≡ balance_of id asset a -ℤ value amount
          → (j b : ℕ)
          → balance_of j b (store id (with_left left) a)
            ≡ (if j == id && b == asset then balance_of j b a -ℤ value amount else balance_of j b a)
      after_more left e j b = ground (arith, balance_of-with_left left j b, e)

      burn_from-lt :
          ops.cmp balance amount ≡ lt
          → burn_from id asset amount account balance a
            ≡ (err (insufficient_balance id asset amount balance), a)
      unfolding burn_from
      burn_from-lt c = ground arith

      burn_from-eq :
          ops.cmp balance amount ≡ eq
          → burn_from id asset amount account balance a ≡ (ok tt, store id without a)
      unfolding burn_from
      burn_from-eq c = ground arith

      -- The subtraction cannot overflow, so `burn` does not panic.
      burn_from-gt :
          ops.cmp balance amount ≡ gt
          → (left : D) × (ops.checked_sub balance amount ≡ some left)
            × (burn_from id asset amount account balance a ≡ (ok tt, store id (with_left left) a))
      unfolding burn_from
      burn_from-gt c =
          let below = laws.gt_of_cmp balance amount c in
          elim (Option-cases (ops.checked_sub balance amount)) [
            | inl e ↦ absurd (laws.sub_returns balance amount (omega arith) (omega arith) e)
            | inr (left, e) ↦ (left, e, ground arith)
          ]

      -- The difference that `burn` stores is the one that is a decimal.
      left_value :
          (left d : D)
          → ops.checked_sub balance amount ≡ some left
          → value d ≡ balance_of id asset a -ℤ value amount
          → value left ≡ balance_of id asset a -ℤ value amount
      left_value left d e fits =
          let (c, f, same) =
            laws.sub_exact balance amount d
              (fits ∙ ap (λ x. x -ℤ value amount) (sym value-balance)) in
          let stored : left ≡ c = ground (arith, e, f) in ap value stored ∙ same ∙ fits

      burn_from-Burned : CanBeLeft → Burned (burn_from id asset amount account balance a)
      burn_from-Burned fits = elim (Ordering-cases (ops.cmp balance amount)) [
        | inl c ↦
            let short = laws.lt_of_cmp balance amount c in
            rw (burn_from-lt c) (
              refl,
              inr (omega (arith, short, parts_of_eq value-balance), (balance, refl, value-balance)),
            )
        | inr (inl c) ↦
            let e = laws.eq_of_cmp balance amount c in
            rw (burn_from-eq c)
              (positive, omega (arith, parts_of_eq e, parts_of_eq value-balance), after_equal e)
        | inr (inr c) ↦
            let below = laws.gt_of_cmp balance amount c in
            let covers : value amount ≤ℤ balance_of id asset a =
              omega (arith, below, parts_of_eq value-balance) in
            let (left, e, done) = burn_from-gt c in
            let (d, same) = fits covers in
            rw done (positive, covers, after_more left (left_value left d e same))
      ]

      burn_from-IsValid : IsValid (burn_from id asset amount account balance a).1
      burn_from-IsValid = elim (Ordering-cases (ops.cmp balance amount)) [
        | inl c ↦ rw (burn_from-lt c) valid
        | inr (inl c) ↦ rw (burn_from-eq c) without-IsValid
        | inr (inr c) ↦
            let below = laws.gt_of_cmp balance amount c in
            let (left, e, done) = burn_from-gt c in
            rw done (
              with_left-IsValid left
                (laws.sub_positive balance amount left (omega (arith, positive)) below e))
      ]

    -- An account or a balance that is not there holds nothing.
    missing :
        pos 0 <ℤ value amount
        → balance_of id asset a ≡ pos 0
        → Burned (err (insufficient_balance id asset amount ops.zero), a)
    missing p e =
        (refl, inr (omega (arith, parts_of_eq e), (ops.zero, refl, laws.zero_value ∙ sym e)))

    -- With the laws of `IsDecimal` and in a valid state, if what the amount leaves of a balance that covers it is a decimal: `burn`
    -- succeeds only with a positive amount that the balance covers, and then takes it from that balance
    -- and no other; it fails only with a nonpositive amount or one above the balance, with the matching
    -- error, and changes nothing.
    pub burn-Burned :
        (value amount ≤ℤ balance_of id asset a
          → (d : D) × (value d ≡ balance_of id asset a -ℤ value amount))
        → Burned (burn id asset amount a)
    unfolding burn
    burn-Burned fits = elim (Bool-cases (not_positive amount)) [
      | inl h ↦ rw h (refl, inl (nonpos_of_test laws amount h, refl))
      | inr h ↦
          let positive = positive_of_test laws amount h in
          elim (Option-cases (get id a.accounts)) [
            | inl e ↦ rw (h, e) (missing positive (ground arith))
            | inr (account, e) ↦ elim (Option-cases (get asset account.assets)) [
              | inl n ↦ rw (h, e, n) (missing positive (ground arith))
              | inr (balance, n) ↦ rw (h, e, n) (burn_from-Burned positive account e balance n fits)
            ]
          ]
    ]

    -- `burn` keeps a valid state valid, whether it succeeds or fails.
    pub burn-IsValid : IsValid (burn id asset amount a).1
    unfolding burn
    burn-IsValid = elim (Bool-cases (not_positive amount)) [
      | inl h ↦ rw h valid
      | inr h ↦
          let positive = positive_of_test laws amount h in
          elim (Option-cases (get id a.accounts)) [
            | inl e ↦ rw (h, e) valid
            | inr (account, e) ↦ elim (Option-cases (get asset account.assets)) [
              | inl n ↦ rw (h, e, n) valid
              | inr (balance, n) ↦ rw (h, e, n) (burn_from-IsValid positive account e balance n)
            ]
          ]
    ]
