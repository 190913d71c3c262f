-- ===== src/Context/Bank.antt =====
-- packages/kolme/src/core/execute.rs: withdrawals and transfers of assets, and the bank and account
-- messages.
use kolme.Prelude.{ℕ, [], ◌∷◌, ok, Action, lift, ensure, ◌>>=◌, ◌>>◌, ◌==◌, not}
use kolme.Types.{Error, cannot_remove_signing_key}
use kolme.Types.Chain.{ExternalChain}
use kolme.Types.Decimal.{DecimalOps}
use kolme.Types.Asset.{to_u128}
use kolme.Types.Bridge
use kolme.Accounts.{mint, burn}
use kolme.Accounts.Keys.{
  add_pubkey_to_account_error_overlap, remove_pubkey_from_account, add_wallet_to_account,
  remove_wallet_from_account,
}
use kolme.State.{get_asset_config}
use kolme.Context.{ExecutionContext, ExecAction, Host, on_accounts, on_chain}
use kolme.Context.Actions.{add_action}

-- `BankMessage` and `AuthMessage` of packages/kolme/src/core/types.rs
pub data BankMessage (D : Type 0) : Type 0 where
  -- asset, destination account, amount
  transfer : ℕ → ℕ → D → BankMessage D
  -- asset, chain, destination wallet, amount
  withdraw : ℕ → ExternalChain → ℕ → D → BankMessage D

pub data AuthMessage : Type 0 where
  add_public_key remove_public_key add_wallet remove_wallet : ℕ → AuthMessage

module _ {D S : Type 0} ⦃ops : DecimalOps D⦄ where
  -- asset, recipient, amount
  unfoldable pub mint_asset : ℕ → ℕ → D → Action (ExecutionContext D S) (Error D) (Unit {0})
  mint_asset asset recipient amount = on_accounts (mint recipient asset amount)

  unfoldable pub burn_asset : ℕ → ℕ → D → Action (ExecutionContext D S) (Error D) (Unit {0})
  burn_asset asset owner amount = on_accounts (burn owner asset amount)

  -- asset, source, destination, amount
  unfoldable pub transfer_asset : ℕ → ℕ → ℕ → D → Action (ExecutionContext D S) (Error D) (Unit {0})
  unfolding burn_asset mint_asset
  transfer_asset asset source dest amount = do
    burn_asset asset source amount
    mint_asset asset dest amount

module _ {D S : Type 0} where
  unfoldable pub auth : AuthMessage → Action (ExecutionContext D S) (Error D) (Unit {0})
  auth (add_public_key key) ctx =
      on_accounts (add_pubkey_to_account_error_overlap ctx.sender key) ctx
  auth (remove_public_key key) ctx =
      (ensure (not (key == ctx.signing_key)) (cannot_remove_signing_key key)
          >> on_accounts (remove_pubkey_from_account ctx.sender key))
        ctx
  auth (add_wallet wallet) ctx = on_accounts (add_wallet_to_account ctx.sender wallet) ctx
  auth (remove_wallet wallet) ctx = on_accounts (remove_wallet_from_account ctx.sender wallet) ctx

module _ {D S M : Type 0} ⦃ops : DecimalOps D⦄ (host : Host D S M) where
  -- asset, chain, source account, destination wallet, amount. The account loses the rounded
  -- amount, and the balance of the bridge the amount asked for.
  unfoldable pub withdraw_asset :
      ℕ → ExternalChain → ℕ → ℕ → D → Action (ExecutionContext D S) (Error D) ℕ
  unfolding get_asset_config to_u128 add_action
  withdraw_asset asset chain source wallet amount = do
    config ← λ ctx. (get_asset_config chain asset ctx.framework_state, ctx)
    amounts ← lift (to_u128 config amount)
    on_accounts (burn source asset amounts.0)
    on_chain chain (Bridge.withdraw asset amount)
    add_action host chain
        (ExecAction.transfer chain wallet (record { id = asset; amount = amounts.1 } ∷ []))

  unfoldable pub bank : BankMessage D → Action (ExecutionContext D S) (Error D) (Unit {0})
  unfolding withdraw_asset transfer_asset
  bank (withdraw asset chain dest amount) ctx =
      (withdraw_asset asset chain ctx.sender dest amount >> lift (ok tt)) ctx
  bank (transfer asset dest amount) ctx = transfer_asset asset ctx.sender dest amount ctx
