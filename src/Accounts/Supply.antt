-- ===== src/Accounts/Supply.antt =====
-- The supply of an asset, the sum of its balances over all accounts, under `mint` and `burn`.
use kolme.Prelude.{
  ℕ, ◌≡◌, subst, Ordering-cases, refl, none, some, arith, ◌==◌, inl, inr, if◌then◌else◌, Result, ok,
  err, Bool-cases, Option-cases,
}
use kolme.Prelude.Int.{ℤ, pos, +ℤ_zero, -ℤ_zero, add_change, sub_change, ◌+ℤ◌, ◌-ℤ◌}
use kolme.BTreeMap.{get}
use kolme.BTreeMap.Laws.{get-insert}
use kolme.BTreeMap.Sum.{sum, sum-insert}
use kolme.Types.{Error}
use kolme.Types.Decimal.{DecimalOps, IsDecimal, value}
use kolme.Accounts.{Account, Accounts, store, get_or_default, mint, burn, burn_from, not_positive}
use kolme.Accounts.Invariant.{IsValid}
use kolme.Accounts.Balances.{balance_of, held, Minted, mint-Minted}
use kolme.Accounts.Burns.{Burned, burn-Burned}

abbrev Outcome : Type 0 → Type 0
Outcome D = Result (Error D) (Unit {0}) × Accounts D

module _ {D : Type 0} ⦃ops : DecimalOps D⦄ where
  abbrev held_in : ℕ → Account D → ℤ
  held_in asset account = held (get asset account.assets)

  -- The sum of all balances in an asset.
  pub supply : ℕ → Accounts D → ℤ
  supply asset a = sum (held_in asset) a.accounts

  supply-store :
      (asset id : ℕ) (account : Account D) (a : Accounts D)
      → IsValid a
      → let a' = store id account a in
        supply asset a' +ℤ balance_of id asset a ≡ supply asset a +ℤ balance_of id asset a'
  unfolding supply
  supply-store asset id account a valid = ground (
    arith,
    sum-insert (held_in asset) id account a.accounts valid.accounts_sorted,
    get-insert id id account a.accounts,
  )

  -- `mint` and `burn` write one account, or fail and change nothing.
  abbrev pub Wrote : ℕ → Accounts D → Outcome D → Type 0
  Wrote id a (ok _, a') = (account : Account D) × (a' ≡ store id account a)
  Wrote id a (err _, a') = a' ≡ a

  pub mint-Wrote :
      (id asset : ℕ) (amount : D) (a : Accounts D) → Wrote id a (mint id asset amount a)
  unfolding mint
  mint-Wrote id asset amount a =
      let account = get_or_default id a.accounts in
      let balance : D = elim (get asset account.assets) [ none ↦ ops.zero | some b ↦ b ] in
      elim (Bool-cases (not_positive amount)) [
        | inl h ↦ rw (h, Wrote) refl
        | inr h ↦ elim (Option-cases (ops.checked_add balance amount)) [
          | inl e ↦ rw (h, e, Wrote) refl
          | inr (sum, e) ↦ rw (h, e, Wrote) (_, refl)
        ]
      ]

  burn_from-Wrote :
      (id asset : ℕ) (amount : D) (account : Account D) (balance : D) (a : Accounts D)
      → Wrote id a (burn_from id asset amount account balance a)
  unfolding burn_from
  burn_from-Wrote id asset amount account balance a =
      elim (Ordering-cases (ops.cmp balance amount)) [
        | inl c ↦ rw (c, burn_from, Wrote) refl
        | inr (inl c) ↦ rw (c, burn_from, Wrote) (_, refl)
        | inr (inr c) ↦ elim (Option-cases (ops.checked_sub balance amount)) [
          | inl e ↦ rw (c, e, burn_from, Wrote) refl
          | inr (left, e) ↦ rw (c, e, burn_from, Wrote) (_, refl)
        ]
      ]

  burn-Wrote : (id asset : ℕ) (amount : D) (a : Accounts D) → Wrote id a (burn id asset amount a)
  unfolding burn
  burn-Wrote id asset amount a = elim (Bool-cases (not_positive amount)) [
    | inl h ↦ rw (h, Wrote) refl
    | inr h ↦ elim (Option-cases (get id a.accounts)) [
      | inl e ↦ rw (h, e, Wrote) refl
      | inr (account, e) ↦ elim (Option-cases (get asset account.assets)) [
        | inl n ↦ rw (h, e, n, Wrote) refl
        | inr (balance, n) ↦ rw (h, e, n) (burn_from-Wrote id asset amount account balance a)
      ]
    ]
  ]

  -- So the supply changes as the balance of that account does.
  supply-Wrote :
      (asset id : ℕ) (a a' : Accounts D)
      → IsValid a
      → Wrote id a (ok tt, a')
      → supply asset a' +ℤ balance_of id asset a ≡ supply asset a +ℤ balance_of id asset a'
  supply-Wrote asset id a a' valid (account, e) = rw e (supply-store asset id account a valid)

  module _ (laws : IsDecimal D) (a a' : Accounts D) (valid : IsValid a) (id asset : ℕ)
      (amount : D) where
    -- The amount, in the asset that moves.
    abbrev pub moved : ℕ → ℤ
    moved b = if b == asset then value amount else pos 0

    -- With the laws of `IsDecimal` and in a valid state, if the new balance is a decimal, a successful
    -- `mint` raises the supply of its
    -- asset by the amount, and leaves the supply of every other asset.
    pub supply-mint :
        (new : D)
        → value new ≡ balance_of id asset a +ℤ value amount
        → mint id asset amount a ≡ (ok tt, a')
        → (b : ℕ) → supply b a' ≡ supply b a +ℤ moved b
    supply-mint new fits e b =
        let changed =
          subst (Minted laws a valid id asset amount) e
            (mint-Minted laws a valid id asset amount new fits) in
        add_change _ _ _ _ _
          (supply-Wrote b id a a' valid (subst (Wrote id a) e (mint-Wrote id asset amount a)))
          (ground (arith, changed.1 id b, +ℤ_zero (balance_of id b a)))

    -- With the laws of `IsDecimal` and in a valid state, if the new balance is a decimal, a successful
    -- `burn` lowers the supply of its
    -- asset by the amount, and leaves the supply of every other asset.
    pub supply-burn :
        (left : D)
        → value left ≡ balance_of id asset a -ℤ value amount
        → burn id asset amount a ≡ (ok tt, a')
        → (b : ℕ) → supply b a' ≡ supply b a -ℤ moved b
    supply-burn left fits e b =
        let changed =
          subst (Burned laws a valid id asset amount) e
            (burn-Burned laws a valid id asset amount (λ h. (left, fits))) in
        sub_change _ _ _ _ _
          (supply-Wrote b id a a' valid (subst (Wrote id a) e (burn-Wrote id asset amount a)))
          (ground (arith, changed.2 id b, -ℤ_zero (balance_of id b a)))
