-- ===== src/Context/Transfers.antt =====
-- What a transfer between two accounts does to the supply of every asset.
use kolme.Prelude.{
  ap, sym, ◌∙◌, arith, ==_refl, ℕ, ◌≡◌, refl, subst, ok, err, Result, ◌==◌, if◌then◌else◌,
}
use kolme.Prelude.Int.{ℤ, pos, ◌+ℤ◌, ◌-ℤ◌, int_laws, eq_of_parts, parts_of_eq}
use kolme.Types.{Error}
use kolme.Types.Decimal.{DecimalOps, IsDecimal, value}
use kolme.Accounts.{Accounts, mint, burn}
use kolme.Accounts.Invariant.{IsValid}
use kolme.Accounts.Burns.{Burned, burn-Burned, burn-IsValid}
use kolme.Accounts.Balances.{balance_of}
use kolme.Accounts.Supply.{supply, supply-mint, supply-burn}
use kolme.Context.{ExecutionContext, on_accounts}
use kolme.Context.Bank.{transfer_asset, burn_asset, mint_asset}
use kolme.Context.Ensures.{Ensures, bind-Ensures, on_accounts-Ensures}
use kolme.Context.Validity.{AccountsValid}

module _ {D : Type 0} ⦃ops : DecimalOps D⦄ (laws : IsDecimal D) where
  module _ (a : Accounts D) (valid : IsValid a) (id asset : ℕ) (amount : D) where
    -- The amount, in the asset that moves.
    abbrev part : ℕ → ℤ
    part b = if b == asset then value amount else pos 0

    -- What a burn leaves: the balance of the other side of the transfer, and the supply.
    abbrev HasBurned : ℕ → Accounts D → Type 0
    HasBurned other a' =
        IsValid a'
        × ((b : ℕ) → supply b a' ≡ supply b a -ℤ part b)
        × (balance_of other asset a' ≡ (
            if other == id
            then balance_of other asset a -ℤ value amount
            else balance_of other asset a))

    burned :
        (other : ℕ) (left : D)
        → value left ≡ balance_of id asset a -ℤ value amount
        → Ensures (HasBurned other) (burn id asset amount a)
    burned other left fits = go (burn id asset amount a) refl
      where
        go :
            (r : Result (Error D) (Unit {0}) × Accounts D)
            → burn id asset amount a ≡ r
            → Ensures (HasBurned other) r
        go (err e, a') h = tt
        go (ok _, a') h =
            let done =
              subst (Burned laws a valid id asset amount) h
                (burn-Burned laws a valid id asset amount (λ l. (left, fits))) in
            (
              subst (λ (r : Result (Error D) (Unit {0}) × Accounts D). IsValid r.1) h
                  (burn-IsValid laws a valid id asset amount),
              supply-burn laws a a' valid id asset amount left fits h,
              ground (arith, done.2 other asset, ==_refl asset),
            )

    minted :
        (new : D)
        → value new ≡ balance_of id asset a +ℤ value amount
        → Ensures (λ a'. (b : ℕ) → supply b a' ≡ supply b a +ℤ part b) (mint id asset amount a)
    minted new fits = go (mint id asset amount a) refl
      where
        go :
            (r : Result (Error D) (Unit {0}) × Accounts D)
            → mint id asset amount a ≡ r
            → Ensures (λ a'. (b : ℕ) → supply b a' ≡ supply b a +ℤ part b) r
        go (err e, a') h = tt
        go (ok _, a') h = supply-mint laws a a' valid id asset amount new fits h

  restored : (x y z m : ℤ) → y ≡ x -ℤ m → z ≡ y +ℤ m → z ≡ x
  restored x y z m e f = eq_of_parts z x (omega (int_laws, parts_of_eq e, parts_of_eq f))

  module _ {S : Type 0} (asset source dest : ℕ) (amount : D) (ctx : ExecutionContext D S)
      (valid : AccountsValid ctx) where
    abbrev SameSupply : ExecutionContext D S → Type 0
    SameSupply t =
        (b : ℕ) → supply b t.framework_state.accounts ≡ supply b ctx.framework_state.accounts

    -- The balance that the transfer adds to.
    abbrev before_credit : ℤ
    before_credit =
        if dest == source
        then balance_of dest asset ctx.framework_state.accounts -ℤ value amount
        else balance_of dest asset ctx.framework_state.accounts

    transfer_asset-SameSupply :
        (left new : D)
        → value left ≡ balance_of source asset ctx.framework_state.accounts -ℤ value amount
        → value new ≡ before_credit +ℤ value amount
        → Ensures SameSupply (transfer_asset asset source dest amount ctx)
    unfolding transfer_asset burn_asset mint_asset
    transfer_asset-SameSupply left new fits fits' =
        let Burnt : ExecutionContext D S → Type 0 = λ t.
          HasBurned ctx.framework_state.accounts valid source asset amount dest
            t.framework_state.accounts in
        bind-Ensures Burnt SameSupply (on_accounts (burn source asset amount))
          (λ _. on_accounts (mint dest asset amount)) ctx
          (on_accounts-Ensures _ Burnt (burn source asset amount) ctx
            (burned ctx.framework_state.accounts valid source asset amount dest left fits)
            (λ a h. h))
          (λ _ t h.
            on_accounts-Ensures _ SameSupply (mint dest asset amount) t
              (minted t.framework_state.accounts h.0 dest asset amount new
                (fits' ∙ ap (λ x. x +ℤ value amount) (sym h.2)))
              (λ a k b. restored _ _ _ _ (h.1 b) (k b)))

    -- With the laws of `IsDecimal` and valid accounts, if the balance that the source keeps and the balance that the destination
    -- gets are decimals, a successful transfer leaves the supply of every asset as it was, also if the
    -- source and the destination are one account.
    pub supply-transfer_asset :
        (ctx' : ExecutionContext D S) (left new : D)
        → value left ≡ balance_of source asset ctx.framework_state.accounts -ℤ value amount
        → value new ≡ before_credit +ℤ value amount
        → transfer_asset asset source dest amount ctx ≡ (ok tt, ctx')
        → (b : ℕ) → supply b ctx'.framework_state.accounts ≡ supply b ctx.framework_state.accounts
    supply-transfer_asset ctx' left new fits fits' e =
        subst (Ensures SameSupply) e (transfer_asset-SameSupply left new fits fits')
