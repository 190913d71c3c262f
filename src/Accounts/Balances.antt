-- ===== src/Accounts/Balances.antt =====
-- What `mint` and `burn` do to the balance of every account in every asset.
use kolme.Prelude.{
  ap, sym, ◌∙◌, ℕ, ◌≡◌, refl, true, false, ◌&&◌, Option, none, some, arith, ◌==◌, inl, inr,
  if◌then◌else◌, Result, ok, err, Bool-cases, Option-cases,
}
use kolme.Prelude.Int.{ℤ, pos, ◌+ℤ◌, ◌≤ℤ◌, ◌<ℤ◌, int_laws, eq_of_parts, parts_of_eq}
use kolme.BTreeMap.{get, insert, remove}
use kolme.BTreeMap.Laws.{get-insert, get-nil}
use kolme.BTreeMap.Order.{IsSorted, get-remove, insert-IsSorted}
use kolme.BTreeMap.All.{All-get, All-insert}
use kolme.Types.{Error, must_mint_positive}
use kolme.Types.Decimal.{DecimalOps, IsDecimal, value}
use kolme.Accounts.{Accounts, store, get_or_default, mint, not_positive}
use kolme.Accounts.Invariant.{
  IsValid, IsPositive, IsValidAccount, get_or_default-IsValidAccount, store-IsValid,
}

module _ {D : Type 0} ⦃ops : DecimalOps D⦄ where
  abbrev pub held : Option D → ℤ
  held none = pos 0
  held (some balance) = value balance

  -- The balance of an account in an asset, zero where there is none.
  abbrev pub balance_of : ℕ → ℕ → Accounts D → ℤ
  balance_of id asset a = elim (get id a.accounts) [
    | none ↦ pos 0
    | some account ↦ held (get asset account.assets)
  ]

  pub balance_of-store :
      (j b id asset : ℕ) (d : D) (a : Accounts D)
      → let account = get_or_default id a.accounts in
        balance_of j b (store id (record account { assets = insert asset d account.assets }) a)
        ≡ (if j == id && b == asset then value d else balance_of j b a)
  balance_of-store j b id asset d a =
      let account = get_or_default id a.accounts in
      ground (
        arith,
        get-insert j id (record account { assets = insert asset d account.assets }) a.accounts,
        get-insert b asset d account.assets,
        get-nil D b,
      )

  pub balance_of-remove :
      (j b id asset : ℕ) (a : Accounts D)
      → let account = get_or_default id a.accounts in
        IsSorted account.assets
        → balance_of j b (store id (record account { assets = remove asset account.assets }) a)
          ≡ (if j == id && b == asset then pos 0 else balance_of j b a)
  balance_of-remove j b id asset a s =
      let account = get_or_default id a.accounts in
      ground (
        arith,
        get-insert j id (record account { assets = remove asset account.assets }) a.accounts,
        get-remove b asset account.assets s,
        get-nil D b,
      )

  module _ (laws : IsDecimal D) where
    -- The test of `mint` and `burn` is a test of the sign of the value.
    pub positive_of_test : (d : D) → not_positive d ≡ false → pos 0 <ℤ value d
    positive_of_test d h =
        ground (arith, laws.is_zero_iff d, laws.nonneg_of_sign d, eq_of_parts (value d) (pos 0))

    pub nonpos_of_test : (d : D) → not_positive d ≡ true → value d ≤ℤ pos 0
    nonpos_of_test d h = ground (arith, laws.is_zero_iff d, laws.nonpos_of_sign d)

    module _ (a : Accounts D) (valid : IsValid a) (id asset : ℕ) (amount : D) where
      -- How `mint` ends: it succeeds with a positive amount, which the balance rises by, and no
      -- other balance changes; or it refuses the amount and changes nothing.
      abbrev pub Minted : Result (Error D) (Unit {0}) × Accounts D → Type 0
      Minted (ok _, a') =
          (pos 0 <ℤ value amount)
          × ((j b : ℕ)
              → balance_of j b a' ≡ (
                  if j == id && b == asset
                  then balance_of j b a +ℤ value amount
                  else balance_of j b a))
      Minted (err e, a') =
          (a' ≡ a) × (value amount ≤ℤ pos 0) × (e ≡ must_mint_positive id asset amount)

      -- What `mint` adds to: the balance that is there, or zero.
      abbrev old_balance : D
      old_balance = elim (get asset (get_or_default id a.accounts).assets) [
        | none ↦ ops.zero
        | some b ↦ b
      ]

      value-old_balance : value old_balance ≡ balance_of id asset a
      value-old_balance = ground (arith, laws.zero_value, get-nil D asset)

      balance_of-mint :
          (sum : D)
          → value sum ≡ balance_of id asset a +ℤ value amount
          → (j b : ℕ)
          → let account = get_or_default id a.accounts in
            balance_of j b
              (store id (record account { assets = insert asset sum account.assets }) a)
            ≡ (if j == id && b == asset then balance_of j b a +ℤ value amount else balance_of j b a)
      balance_of-mint sum e j b = ground (arith, balance_of-store j b id asset sum a, e)

      old_account-IsValidAccount : IsValidAccount (get_or_default id a.accounts)
      old_account-IsValidAccount = get_or_default-IsValidAccount a valid id

      -- No balance is negative.
      balance_of_nonneg : pos 0 ≤ℤ balance_of id asset a
      balance_of_nonneg =
          let account = get_or_default id a.accounts in
          elim (Option-cases (get asset account.assets)) [
            | inl e ↦ ground (arith, e, get-nil D asset)
            | inr (b, e) ↦ ground (
              arith,
              e,
              All-get IsPositive asset b account.assets old_account-IsValidAccount.balances_positive
                  e,
            )
          ]

      -- A positive balance may be written.
      pub store_balance-IsValid :
          (d : D)
          → IsPositive d
          → let account = get_or_default id a.accounts in
            IsValid (store id (record account { assets = insert asset d account.assets }) a)
      store_balance-IsValid d p =
          let account = get_or_default id a.accounts in
          store-IsValid a valid id _
            (record {
              assets_sorted =
                  insert-IsSorted asset d account.assets old_account-IsValidAccount.assets_sorted;
              wallets_sorted = old_account-IsValidAccount.wallets_sorted;
              pubkeys_sorted = old_account-IsValidAccount.pubkeys_sorted;
              balances_positive =
                  All-insert IsPositive asset d account.assets p
                    old_account-IsValidAccount.balances_positive;
            })
            refl refl

      -- `mint` keeps a valid state valid, whether it succeeds or fails.
      pub mint-IsValid : IsValid (mint id asset amount a).1
      unfolding mint
      mint-IsValid = elim (Bool-cases (not_positive amount)) [
        | inl h ↦ rw h valid
        | inr h ↦ elim (Option-cases (ops.checked_add old_balance amount)) [
          | inl e ↦ rw (h, e) valid
          | inr (sum, e) ↦
              rw (h, e)
                (store_balance-IsValid sum (
                  laws.add_positive old_balance amount sum
                    (omega (int_laws, balance_of_nonneg, parts_of_eq value-old_balance))
                    (positive_of_test amount h) e))
        ]
      ]

      -- With the laws of `IsDecimal` and in a valid state, if the balance and the amount make a sum that is a decimal: `mint` refuses
      -- an amount that is not positive and changes nothing; it succeeds with every other amount, the
      -- balance grows by it, and no other balance changes.
      pub mint-Minted :
          (new : D)
          → value new ≡ balance_of id asset a +ℤ value amount
          → Minted (mint id asset amount a)
      unfolding mint
      mint-Minted new fits = elim (Bool-cases (not_positive amount)) [
        | inl h ↦ ground (arith, nonpos_of_test amount h)
        | inr h ↦
            let (sum, e, same) =
              laws.add_exact old_balance amount new
                (fits ∙ ap (λ x. x +ℤ value amount) (sym value-old_balance)) in
            rw (h, e) (positive_of_test amount h, balance_of-mint sum (same ∙ fits))
      ]
