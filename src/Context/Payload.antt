-- ===== src/Context/Payload.antt =====
-- `ExecAction::to_payload` of packages/kolme/src/core/types.rs: which actions a chain takes. The
-- serialization of what is accepted is the host's.
use kolme.Prelude.{
  ℕ, none, some, List, [], ◌∷◌, Result, ok, err, ◌==◌, leb, if◌then◌else◌, length, u64_mod,
}
use kolme.BTreeMap.{BTreeMap}
use kolme.Types.{
  Error, panic, unsupported_asset_id, one_fund_only, contract_not_deployed, payload_not_rendered,
  amount_too_large,
}
use kolme.Types.Chain.{ExternalChain, ChainName, name, to_merkle_key}
use kolme.Types.Asset.{AssetConfig}
use kolme.Types.Bridge.{BridgeContract, ChainConfig}
use kolme.State.{find_asset}
use kolme.Context.{AssetAmount, ExecAction, Host, transfer, self_replace, new_set, migrate_contract}

module _ {D S M : Type 0} (host : Host D S M) where
  render : ExecAction → ExternalChain → ChainConfig → ℕ → Result (Error D) ℕ
  render action chain config id = elim (host.render action chain config id) [
    | none ↦ err payload_not_rendered
    | some payload ↦ ok payload
  ]

  -- The loop that names each fund by its asset on the chain: it fails at the first unknown one.
  find_funds : BTreeMap AssetConfig → List AssetAmount → Result (Error D) (Unit {0})
  unfolding find_asset
  find_funds assets [] = ok tt
  find_funds assets (fund ∷ funds) =
      let rest = find_funds assets funds in
      elim (find_asset fund.id assets) [
        | none ↦ err (unsupported_asset_id fund.id)
        | some config ↦ rest
      ]

  cosmos_transfer :
      ExecAction → List AssetAmount → ExternalChain → ChainConfig → ℕ → Result (Error D) ℕ
  unfolding find_funds render
  cosmos_transfer action funds chain config id = elim (find_funds config.assets funds) [
    | err e ↦ err e
    | ok _ ↦ render action chain config id
  ]

  -- Only the first fund is sent, as a `u64`; `coins[0]` panics if there is none.
  solana_transfer :
      ExecAction → List AssetAmount → ExternalChain → ChainConfig → ℕ → Result (Error D) ℕ
  unfolding find_funds render
  solana_transfer action funds chain config id = elim (find_funds config.assets funds) [
    | err e ↦ err e
    | ok _ ↦ elim config.bridge [
      | BridgeContract.needed_cosmos_bridge _ ↦ err panic
      | BridgeContract.needed_ethereum_bridge ↦ err panic
      | _ ↦ elim funds [
        | [] ↦ err panic
        | fund ∷ _ ↦
            if leb u64_mod fund.amount then err amount_too_large else render action chain config id
      ]
    ]
  ]

  ethereum_transfer :
      ExecAction → List AssetAmount → ExternalChain → ChainConfig → ℕ → Result (Error D) ℕ
  unfolding find_funds render
  ethereum_transfer action funds chain config id =
      if length funds == 1
      then elim (find_funds config.assets funds) [
        | err e ↦ err e
        | ok _ ↦ render action chain config id
      ]
      else err one_fund_only

  unfoldable pub to_payload : ExecAction → ExternalChain → ChainConfig → ℕ → Result (Error D) ℕ
  unfolding name to_merkle_key render cosmos_transfer solana_transfer ethereum_transfer
  to_payload (transfer chain2 recipient funds) chain config id =
      let action = transfer chain2 recipient funds in
      -- `assert_eq!(&chain, chain2)`
      if to_merkle_key chain == to_merkle_key chain2
      then elim (name chain) [
        | ChainName.cosmos ↦ cosmos_transfer action funds chain config id
        | ChainName.solana ↦ solana_transfer action funds chain config id
        | ChainName.ethereum ↦ ethereum_transfer action funds chain config id
        | ChainName.pass_through ↦ render action chain config id
      ]
      else err panic
  -- `todo!()` on the pass-through bridge
  to_payload (self_replace signed) chain config id = elim (name chain) [
    | ChainName.pass_through ↦ err panic
    | _ ↦ render (self_replace signed) chain config id
  ]
  to_payload (new_set validator_set approvals) chain config id = elim (name chain) [
    | ChainName.pass_through ↦ err panic
    | _ ↦ render (new_set validator_set approvals) chain config id
  ]
  to_payload (migrate_contract migrate) chain config id = elim config.bridge [
    | BridgeContract.deployed _ ↦ render (migrate_contract migrate) chain config id
    | _ ↦ err (contract_not_deployed chain)
  ]
