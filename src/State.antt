-- ===== src/State.antt =====
-- `FrameworkState` of packages/kolme/src/core/state.rs, with `ChainStates` and `GenesisInfo` of
-- packages/kolme/src/core/types.rs.
use kolme.Prelude.{ℕ, Option, none, some, [], ◌∷◌, Result, ok, err, ◌==◌, if◌then◌else◌}
use kolme.BTreeMap.{BTreeMap, get}
use kolme.Types.{Error, chain_not_supported, asset_not_supported}
use kolme.Types.Chain.{ExternalChain, to_merkle_key}
use kolme.Types.Asset.{AssetConfig}
use kolme.Types.Bridge.{ChainConfig, ChainState, into_state}
use kolme.Accounts
use kolme.Accounts.{Accounts}
use kolme.Validators.{ValidatorSet}
use kolme.Proposals.{AdminProposalState}

-- `ChainStates`: a `MerkleMap` whose entries hold the chain beside its key.
abbrev pub ChainStates : Type 0 → Type 0
ChainStates D = BTreeMap (ExternalChain × ChainState D)

-- `ConfiguredChains`
abbrev ConfiguredChains : Type 0
ConfiguredChains = BTreeMap (ExternalChain × ChainConfig)

pub record GenesisInfo : Type 0 where
  pub kolme_ident : ℕ
  pub validator_set : ValidatorSet
  pub chains : ConfiguredChains
  pub version : ℕ

pub record FrameworkState (D : Type 0) : Type 0 where
  pub validator_set : ValidatorSet
  pub chains : ChainStates D
  pub accounts : Accounts D
  pub admin_proposal_state : AdminProposalState
  pub version : ℕ

-- `values().find(|config| config.asset_id == asset_id)`
unfoldable pub find_asset : ℕ → BTreeMap AssetConfig → Option AssetConfig
find_asset asset [] = none
find_asset asset ((name, config) ∷ assets) =
    if config.asset_id == asset then some config else find_asset asset assets

module _ {D : Type 0} where
  -- `From<ConfiguredChains>`: the keys stay, so the order does.
  unfoldable states_of : ConfiguredChains → ChainStates D
  unfolding into_state
  states_of [] = []
  states_of ((key, (chain, config)) ∷ chains) = (key, (chain, into_state config)) ∷ states_of chains

  -- `FrameworkState::new`
  unfoldable new : GenesisInfo → FrameworkState D
  unfolding states_of
  new info = record {
    validator_set = info.validator_set;
    chains = states_of info.chains;
    accounts = Accounts.default;
    admin_proposal_state = record { next_admin_proposal_id = 0; proposals = [] };
    version = info.version;
  }

  -- `ChainStates::get`
  unfoldable pub get_chain : ExternalChain → ChainStates D → Result (Error D) (ChainState D)
  unfolding to_merkle_key
  get_chain chain chains = elim (get (to_merkle_key chain) chains) [
    | none ↦ err (chain_not_supported chain)
    | some entry ↦ ok entry.1
  ]

  unfoldable pub get_asset_config :
      ExternalChain → ℕ → FrameworkState D → Result (Error D) AssetConfig
  unfolding get_chain find_asset
  get_asset_config chain asset state = elim (get_chain chain state.chains) [
    | err e ↦ err e
    | ok chain_state ↦ elim (find_asset asset chain_state.config.assets) [
      | none ↦ err (asset_not_supported chain asset)
      | some config ↦ ok config
    ]
  ]
