-- ===== src/Types/Errors.antt =====
-- The errors that the modelled operations return: the variants of `AccountsError`, `KolmeError`,
-- `CoreStateError`, `AssetError`, `ValidatorSetError`, and one for each `anyhow` message.
-- Identifiers, nonces, public keys and wallets are numbers, since they are only compared.
use kolme.Prelude.{ℕ}
use kolme.Types.Chain.{ExternalChain}

pub data Error (D : Type 0) : Type 0 where
  -- `unwrap`, `expect`, `assert!` or an arithmetic operator that panics
  panic : Error D
  -- `AccountsError`: account, asset, amounts
  insufficient_balance : ℕ → ℕ → D → D → Error D
  must_mint_positive must_burn_positive : ℕ → ℕ → D → Error D
  -- `KolmeError::InvalidNonce`: key, account, expected, actual
  invalid_nonce : ℕ → ℕ → ℕ → ℕ → Error D
  -- the nonce of a key that has no account yet is not the initial one
  invalid_initial_nonce : ℕ → ℕ → ℕ → Error D
  pubkey_in_use wallet_in_use account_not_found unknown_pubkey unknown_wallet : ℕ → Error D
  -- key or wallet, the account asked for, the account that it belongs to
  pubkey_of_other wallet_of_other : ℕ → ℕ → ℕ → Error D
  -- deserialization: key or wallet, and the two accounts that hold it
  pubkey_used_twice wallet_used_twice : ℕ → ℕ → ℕ → Error D
  -- `CoreStateError`
  chain_not_supported : ExternalChain → Error D
  asset_not_supported : ExternalChain → ℕ → Error D
  -- `ValidatorSetError`: the key; the number of keys; the number provided and needed
  not_a_validator too_many_keys : ℕ → Error D
  no_listeners no_approvers : Error D
  invalid_needed_listeners invalid_needed_approvers : ℕ → ℕ → Error D
  -- `AssetError`: amount and decimals; amount
  could_not_convert_to_decimal : ℕ → ℕ → Error D
  u128_too_large : ℕ → Error D
  to_u128_with_negative : D → Error D
  -- deposits and withdrawals that the balance of the bridge cannot represent: asset, amount
  deposit_overflow insufficient_funds : ℕ → D → Error D
  -- signatures
  invalid_signature : Error D
  signer_mismatch : Error D
  -- listeners: key; event id and the id expected
  not_a_listener : ℕ → Error D
  event_mismatch : ℕ → Error D
  unexpected_event_id : ℕ → ℕ → Error D
  already_attested : ℕ → ℕ → Error D
  already_deployed : ExternalChain → Error D
  no_pending_actions : Error D
  unexpected_action_id : ℕ → ℕ → Error D
  -- bridge actions: action id; key
  unknown_action : ℕ → Error D
  not_an_approver : ℕ → Error D
  already_approved : ℕ → Error D
  too_few_approvers duplicate_approvers already_finalized not_the_processor : Error D
  -- payloads
  unsupported_asset_id : ℕ → Error D
  one_fund_only : Error D
  contract_not_deployed : ExternalChain → Error D
  payload_not_rendered payload_not_decoded amount_too_large : Error D
  -- administration
  cannot_self_replace : ℕ → Error D
  cannot_remove_signing_key : ℕ → Error D
  identical_proposal unknown_proposal : ℕ → Error D
  -- transactions
  version_mismatch : ℕ → ℕ → Error D
  not_genesis unexpected_genesis wrong_genesis_signer genesis_mismatch : Error D
  data_load_mismatch data_loads_left no_data_load : Error D
  -- an error of the application
  app_error : ℕ → Error D
