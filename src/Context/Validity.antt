-- ===== src/Context/Validity.antt =====
-- The accounts stay well formed through every message of a transaction.
pub mod Bridge
pub mod Admin
use kolme.Prelude.{ℕ, List, [], ◌∷◌, Result, ok, err, Action, ◌==◌, not, Bool-cases, inl, inr}
use kolme.Types.{Error}
use kolme.Types.Decimal.{DecimalOps, IsDecimal}
use kolme.Accounts.{Accounts, mint, burn}
use kolme.Accounts.Keys.{
  add_pubkey_to_account_error_overlap, add_pubkey_to_account_ignore_overlap,
  remove_pubkey_from_account, add_wallet_to_account, remove_wallet_from_account,
}
use kolme.Accounts.Invariant.{IsValid}
use kolme.Accounts.Methods.{
  IsSound, add_pubkey_to_account_error_overlap-IsSound,
  add_pubkey_to_account_ignore_overlap-IsValid, remove_pubkey_from_account-IsSound,
  add_wallet_to_account-IsSound, remove_wallet_from_account-IsSound,
}
use kolme.Accounts.Balances.{mint-IsValid}
use kolme.Accounts.Burns.{burn-IsValid}
use kolme.Context.{ExecutionContext, on_accounts}
use kolme.Context.Ensures.{Ensures, bind-Ensures, on_accounts-Ensures}
use kolme.Context.Bank.{
  AuthMessage, add_public_key, remove_public_key, add_wallet, remove_wallet, auth, mint_asset,
  burn_asset, transfer_asset,
}
use kolme.Context.Ready.{add_keys}

module _ {D S : Type 0} ⦃ops : DecimalOps D⦄ where
  abbrev pub AccountsValid : ExecutionContext D S → Type 0
  AccountsValid ctx = IsValid ctx.framework_state.accounts

  -- A method of `Accounts` that keeps the invariant keeps it in the context.
  on_accounts-Sound :
      {A : Type 0} (m : Action (Accounts D) (Error D) A) (ctx : ExecutionContext D S)
      → IsSound (m ctx.framework_state.accounts)
      → Ensures AccountsValid (on_accounts m ctx)
  on_accounts-Sound m ctx h =
      on_accounts-Ensures IsValid AccountsValid m ctx (go (m ctx.framework_state.accounts) h)
        (λ a v. v)
    where
      go : {A : Type 0} (r : Result (Error D) A × Accounts D) → IsSound r → Ensures IsValid r
      go (ok _, a) v = v
      go (err _, a) v = tt

  on_accounts-Valid :
      {A : Type 0} (m : Action (Accounts D) (Error D) A) (ctx : ExecutionContext D S)
      → IsValid (m ctx.framework_state.accounts).1
      → Ensures AccountsValid (on_accounts m ctx)
  on_accounts-Valid m ctx h =
      on_accounts-Ensures IsValid AccountsValid m ctx (go (m ctx.framework_state.accounts) h)
        (λ a v. v)
    where
      go : {A : Type 0} (r : Result (Error D) A × Accounts D) → IsValid r.1 → Ensures IsValid r
      go (ok _, a) v = v
      go (err _, a) v = tt

  pub auth-Valid :
      (message : AuthMessage) (ctx : ExecutionContext D S)
      → AccountsValid ctx
      → Ensures AccountsValid (auth message ctx)
  unfolding auth
  auth-Valid (add_public_key key) ctx v =
      on_accounts-Sound (add_pubkey_to_account_error_overlap ctx.sender key) ctx
        (add_pubkey_to_account_error_overlap-IsSound _ v ctx.sender key)
  auth-Valid (remove_public_key key) ctx v = elim (Bool-cases (not (key == ctx.signing_key))) [
    | inl e ↦ rw e (
        on_accounts-Sound (remove_pubkey_from_account ctx.sender key) ctx
          (remove_pubkey_from_account-IsSound _ v ctx.sender key))
    | inr e ↦ rw e tt
  ]
  auth-Valid (add_wallet wallet) ctx v =
      on_accounts-Sound (add_wallet_to_account ctx.sender wallet) ctx
        (add_wallet_to_account-IsSound _ v ctx.sender wallet)
  auth-Valid (remove_wallet wallet) ctx v =
      on_accounts-Sound (remove_wallet_from_account ctx.sender wallet) ctx
        (remove_wallet_from_account-IsSound _ v ctx.sender wallet)

  add_keys-Valid :
      (id : ℕ) (keys : List ℕ) (ctx : ExecutionContext D S)
      → AccountsValid ctx
      → Ensures AccountsValid (add_keys id keys ctx)
  unfolding add_keys
  add_keys-Valid id [] ctx v = v
  add_keys-Valid id (key ∷ keys) ctx v =
      bind-Ensures AccountsValid AccountsValid
        (on_accounts (add_pubkey_to_account_ignore_overlap id key)) (λ _. add_keys id keys) ctx
        (on_accounts-Valid (add_pubkey_to_account_ignore_overlap id key) ctx
          (add_pubkey_to_account_ignore_overlap-IsValid _ v id key))
        (λ _ t w. add_keys-Valid id keys t w)

  module _ (laws : IsDecimal D) where
    mint_asset-Valid :
        (asset recipient : ℕ) (amount : D) (ctx : ExecutionContext D S)
        → AccountsValid ctx
        → Ensures AccountsValid (mint_asset asset recipient amount ctx)
    unfolding mint_asset
    mint_asset-Valid asset recipient amount ctx v =
        on_accounts-Valid (mint recipient asset amount) ctx
          (mint-IsValid laws _ v recipient asset amount)

    burn_asset-Valid :
        (asset owner : ℕ) (amount : D) (ctx : ExecutionContext D S)
        → AccountsValid ctx
        → Ensures AccountsValid (burn_asset asset owner amount ctx)
    unfolding burn_asset
    burn_asset-Valid asset owner amount ctx v =
        on_accounts-Valid (burn owner asset amount) ctx (burn-IsValid laws _ v owner asset amount)

    pub transfer_asset-Valid :
        (asset source dest : ℕ) (amount : D) (ctx : ExecutionContext D S)
        → AccountsValid ctx
        → Ensures AccountsValid (transfer_asset asset source dest amount ctx)
    unfolding transfer_asset
    transfer_asset-Valid asset source dest amount ctx v =
        bind-Ensures AccountsValid AccountsValid (burn_asset asset source amount)
          (λ _. mint_asset asset dest amount) ctx (burn_asset-Valid asset source amount ctx v)
          (λ _ t w. mint_asset-Valid asset dest amount t w)
